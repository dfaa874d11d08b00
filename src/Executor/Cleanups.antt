-- ===== src/Executor/Cleanups.antt =====
-- What the calls made from a cleanup of glommio/src/executor/context.rs, its beginning and its end
-- leave to the loop of the executor.
use glommio.Base.{
  ℕ, ◌≡◌, sym, subst, inl, inr, Bool, List, [], ◌∷◌, if◌then◌else◌, Bool-cases, Option, none, some,
  elem,
}
use glommio.Executor.{
  ExecutorQueues, create_task_queue, executing_as, context_queue, cleanup_queue, other_queue,
  mark_for_yield,
}
use glommio.Shares.{Shares, static}
use glommio.Executor.Sound.{Sound, outside}
use glommio.Executor.Steps.{create-Sound, mark-Sound}

the_same : {s t : ExecutorQueues} → some s ≡ some t → s ≡ t
the_same e = cc

-- The state outside changes as the state does, for a step that changes no queue in execution.
pub outside-create :
    (s : ExecutorQueues) (saved : List (Option ℕ)) (shares : Shares) (latency : Option ℕ) (now : ℕ)
    → Sound (outside s saved)
    → Sound (outside (create_task_queue s shares latency now).0 saved)
unfolding create_task_queue
outside-create s [] shares latency now v = create-Sound s shares latency now v
outside-create s (p ∷ saved) shares latency now v =
    create-Sound (outside s (p ∷ saved)) shares latency now v

pub outside-remove :
    (s : ExecutorQueues) (saved : List (Option ℕ)) (l : List ℕ)
    → Sound (outside s saved)
    → Sound (outside (record s { available_executors = l }) saved)
outside-remove s saved l v = record { distinct = v.distinct; fits = v.fits; fresh = v.fresh }

pub outside-marked :
    (s t : ExecutorQueues) (saved : List (Option ℕ)) (o : Option ℕ)
    → mark_for_yield s o ≡ some t
    → Sound (outside s saved)
    → Sound (outside t saved)
unfolding mark_for_yield
outside-marked s t saved none e v = absurd (cc)
outside-marked s t saved (some i) e v =
    subst (λ u. Sound (outside u saved)) (the_same e) (mark-Sound (outside s saved) i v)

-- After the queue of a cleanup has been put in execution.
abbrev pub Entered : List (Option ℕ) → ExecutorQueues × ℕ → Type 0
Entered saved r = Sound (outside (executing_as r).0 ((executing_as r).1 ∷ saved))

other_queue-Entered :
    (s : ExecutorQueues) (saved : List (Option ℕ)) (other : Option ℕ) (now : ℕ)
    → Sound (outside s saved)
    → Entered saved (other_queue s other now)
unfolding executing_as other_queue
other_queue-Entered s saved (some i) now v = v
other_queue-Entered s saved none now v = outside-create s saved (static 1000) none now v

pub context_queue-Entered :
    (s : ExecutorQueues) (saved : List (Option ℕ)) (queue executing other : Option ℕ) (now : ℕ)
    → Sound (outside s saved)
    → Entered saved (context_queue s queue executing other now)
unfolding executing_as context_queue cleanup_queue
context_queue-Entered s saved (some i) executing other now v = v
context_queue-Entered s saved none (some i) other now v = v
context_queue-Entered s saved none none other now v =
    let by = λ (b : Bool). Entered saved (if b then (s, 0) else other_queue s other now) in
    elim (Bool-cases (elem 0 s.available_executors)) [
      | inl there ↦ subst by (sym there) v
      | inr none_there ↦ subst by (sym none_there) (other_queue-Entered s saved other now v)
    ]
