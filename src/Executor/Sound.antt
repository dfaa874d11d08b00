-- ===== src/Executor/Sound.antt =====
-- An executor of glommio/src/executor/mod.rs keeps each queue that has runnables where the loop finds
-- it: among the active queues or in execution.
use glommio.Base.{
  ℕ, ◌≤◌, ◌<◌, ◌≡◌, refl, sym, ap, subst, ◌∙◌, ◌⊎◌, inl, inr, Bool, true, false, not, List, [], ◌∷◌,
  ◌++◌, Option, none, some, arith, ◌==◌, if◌then◌else◌, is_empty, elem, Distinct, update,
  Bool-cases,
}
use glommio.Executor.{
  ExecutorQueues, new_queue, new, activate, maybe_activate, schedule, reevaluate_preempt_timer,
}

-- What the invariant says of one queue.
abbrev pub Fits : Bool → Bool → Bool → Bool → Type 0
Fits active has_runnables in_heap executing =
    (in_heap ≡ true → active ≡ true)
    × (has_runnables ≡ true → active ≡ true)
    × (executing ≡ true → (active ≡ true) × (in_heap ≡ false))
    × (active ≡ true → (in_heap ≡ true) ⊎ (executing ≡ true))

abbrev pub executes : Option ℕ → ℕ → Bool
executes none i = false
executes (some j) i = i == j

pub record Sound (s : ExecutorQueues) : Type 0 where
  pub distinct : Distinct s.active_executors
  pub fits :
      (i : ℕ)
      → Fits
          (s.queues i).active
          (not (is_empty (s.queues i).runnables))
          (elem i s.active_executors)
          (executes s.active_executing i)
  pub fresh : (i : ℕ) → s.executor_index ≤ i → (s.queues i).active ≡ false

pub new-Sound : (timer now : ℕ) → Sound (new timer now)
unfolding new new_queue
new-Sound timer now = record { distinct = tt; fits = λ i. ground arith; fresh = λ i h. refl }

abbrev pub pushed : ExecutorQueues → ℕ → ℕ → ExecutorQueues
pushed s i r = record s {
  queues =
      update s.queues i (record (s.queues i) { runnables = (s.queues i).runnables ++ (r ∷ []) });
}

pushed_active :
    (s : ExecutorQueues) (i r : ℕ) → ((pushed s i r).queues i).active ≡ (s.queues i).active
pushed_active s i r = ground arith

pub schedule-active :
    (s : ExecutorQueues) (i r : ℕ) → (s.queues i).active ≡ true → schedule s i r ≡ pushed s i r
unfolding schedule maybe_activate
schedule-active s i r e =
    ap (λ b. if b then pushed s i r else activate (pushed s i r) i) (pushed_active s i r ∙ e)

pub schedule-idle :
    (s : ExecutorQueues) (i r : ℕ)
    → (s.queues i).active ≡ false
    → schedule s i r ≡ activate (pushed s i r) i
unfolding schedule maybe_activate
schedule-idle s i r e =
    ap (λ b. if b then pushed s i r else activate (pushed s i r) i) (pushed_active s i r ∙ e)

pushed-Sound :
    (s : ExecutorQueues) (i r : ℕ) → (s.queues i).active ≡ true → Sound s → Sound (pushed s i r)
pushed-Sound s i r e v = record {
  distinct = v.distinct;
  fits = λ j. ground (arith, v.fits j);
  fresh = λ j k. ground (arith, v.fresh j);
}

activate-Sound :
    (s : ExecutorQueues) (i r : ℕ)
    → i < s.executor_index
    → (s.queues i).active ≡ false
    → Sound s
    → Sound (activate (pushed s i r) i)
unfolding activate reevaluate_preempt_timer
activate-Sound s i r h e v = record {
  distinct = (ground (arith, v.fits i), v.distinct);
  fits = λ j. ground (arith, v.fits j);
  fresh = λ j k. ground (arith, v.fresh j);
}

pub schedule-Sound :
    (s : ExecutorQueues) (i r : ℕ) → i < s.executor_index → Sound s → Sound (schedule s i r)
schedule-Sound s i r h v = elim (Bool-cases (s.queues i).active) [
  | inl e ↦ subst Sound (sym (schedule-active s i r e)) (pushed-Sound s i r e v)
  | inr e ↦ subst Sound (sym (schedule-idle s i r e)) (activate-Sound s i r h e v)
]

-- The queue that the loop executes: the outermost one, where `saved` are the queues that the cleanups
-- under way put back when they end.
abbrev pub outermost : List (Option ℕ) → Option ℕ → Option ℕ
outermost [] executing = executing
outermost (previous ∷ saved) executing = outermost saved previous

-- The state as the loop sees it, without the cleanups under way.
abbrev pub outside : ExecutorQueues → List (Option ℕ) → ExecutorQueues
outside s saved = record s { active_executing = outermost saved s.active_executing }

schedule-executing :
    (s : ExecutorQueues) (o : Option ℕ) (i r : ℕ)
    → schedule (record s { active_executing = o }) i r
      ≡ record (schedule s i r) { active_executing = o }
unfolding activate reevaluate_preempt_timer
schedule-executing s o i r =
    let u = record s { active_executing = o } in
    elim (Bool-cases (s.queues i).active) [
      | inl e ↦
          schedule-active u i r e
          ∙ sym (
              ap (λ (t : ExecutorQueues). record t { active_executing = o })
                (schedule-active s i r e))
      | inr e ↦
          schedule-idle u i r e
          ∙ sym (
              ap (λ (t : ExecutorQueues). record t { active_executing = o })
                (schedule-idle s i r e))
    ]

pub outside-schedule :
    (s : ExecutorQueues) (saved : List (Option ℕ)) (i r : ℕ)
    → i < s.executor_index
    → Sound (outside s saved)
    → Sound (outside (schedule s i r) saved)
outside-schedule s [] i r h v = schedule-Sound s i r h v
outside-schedule s (p ∷ saved) i r h v =
    subst Sound (schedule-executing s (outermost saved p) i r)
      (schedule-Sound (record s { active_executing = outermost saved p }) i r h v)
