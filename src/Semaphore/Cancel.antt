-- ===== src/Semaphore/Cancel.antt =====
-- The calls of semaphore.rs that wake waiters: signal and the drop of a permit, the drop of a
-- waiter, and close.
use glommio.Base.{
  map, ap₂, sym, ◌∙◌, ℕ, ◌≡◌, refl, inl, inr, true, false, List, [], ◌∷◌, none, some, arith,
  is_some, Bool-cases, Option-cases, elem, remove, Distinct, elem-remove_self, update, ne_of_elem,
}
use glommio.Semaphore.{
  WaiterNode, Semaphore, drop_waiter, remove_from_waiting_queue, drain, add_wake, after_close,
  close, signal,
}
use glommio.Semaphore.Invariant.{
  IsValid, Woken, after_wakes-IsValid, process_wakes_lem, remove-IsValid,
}

-- On a valid semaphore `signal` does not panic and keeps it valid. The units are added to what is
-- available (mod 2 ^ 64). It wakes waiters that can all proceed with that: the wakers called are
-- those of exactly the waiters that leave the list, in its order and once each. What is left over is
-- too little for any waiter that stays.
pub signal_wakes_fitting :
    (s : Semaphore) (units : ℕ)
    → IsValid s
    → (r : Semaphore × List ℕ) × (signal s units ≡ some r) × Woken s units r × IsValid r.0
unfolding signal
signal_wakes_fitting s units v =
    let (r, e, w) = process_wakes_lem s units v in
    (r, e, w, after_wakes-IsValid s units r.0 r.1 v w)

-- What dropping the waiter `i` does. One that was woken and has not been polled since passes its
-- wake-up on: whoever then fits is woken in its place. Any other just leaves the list.
abbrev pub Dropped : Semaphore → ℕ → Semaphore × List ℕ → Type 0
Dropped s i (t, wakes) =
    (elem i t.waiters_list ≡ false)
    × (t.avail ≡ s.avail)
    × ((s.nodes i).woken ≡ true → Woken s 0 (t, wakes))
    × ((s.nodes i).woken ≡ false → (wakes ≡ []) × (t.nodes ≡ s.nodes))

woken_unlinked :
    (s : Semaphore) (i : ℕ) → IsValid s → (s.nodes i).woken ≡ true → elem i s.waiters_list ≡ false
woken_unlinked s i v w = elim (Bool-cases (elem i s.waiters_list)) [
  | inl linked ↦ let calm : (s.nodes i).woken ≡ false = (v.queued i linked).not_woken in cc
  | inr free ↦ free
]

-- Dropping a waiter of a valid semaphore does not panic, keeps it valid and changes no units. The
-- waiter is out of the list. If it had been woken and not polled since, every waiter that fits into
-- what is available is woken in its place, as by `signal`: the wakers called are those of exactly the
-- waiters that leave the list, in order. Otherwise nobody is woken.
pub drop_waiter_passes_on :
    (s : Semaphore) (i : ℕ)
    → IsValid s
    → (r : Semaphore × List ℕ) × (drop_waiter s i ≡ some r) × Dropped s i r × IsValid r.0
unfolding drop_waiter remove_from_waiting_queue
drop_waiter_passes_on s i v = elim (Bool-cases (s.nodes i).woken) [
  | inl woken ↦
      let (r, e, w) = process_wakes_lem s 0 v in
      (
        r,
        ground (arith, e),
        (
          ground (arith, w.2.subset i, woken_unlinked s i v woken),
          omega (arith, w.0, v.small),
          λ _. w,
          λ calm. absurd (cc),
        ),
        after_wakes-IsValid s 0 r.0 r.1 v w,
      )
  | inr calm ↦ elim (Bool-cases (elem i s.waiters_list)) [
    | inl linked ↦ (
      (record s { waiters_list = remove i s.waiters_list }, []),
      ground arith,
      (elem-remove_self i s.waiters_list v.distinct, refl, λ woken. absurd (cc), λ _. (refl, refl)),
      rw linked at (remove-IsValid s i v),
    )
    | inr free ↦ ((s, []), ground arith, (free, refl, λ woken. absurd (cc), λ _. (refl, refl)), v)
  ]
]

wakers-update :
    (nodes : ℕ → WaiterNode) (w : ℕ) (ws : List ℕ)
    → elem w ws ≡ false
    → map (λ j. (update nodes w (record (nodes w) { waker = none }) j).waker) ws
      ≡ map (λ j. (nodes j).waker) ws
wakers-update nodes w [] h = refl
wakers-update nodes w (x ∷ ws) h = ground (arith, wakers-update nodes w ws)

drain_lem :
    (ws : List ℕ) (nodes : ℕ → WaiterNode)
    → Distinct ws
    → ((j : ℕ) → elem j ws ≡ true → is_some (nodes j).waker ≡ true)
    → (r : (ℕ → WaiterNode) × List ℕ) × (drain ws nodes ≡ some r)
      × (map (λ j. (nodes j).waker) ws ≡ map some r.1)
unfolding drain add_wake
drain_lem [] nodes d q = ((nodes, []), refl, refl)
drain_lem (w ∷ ws) nodes d q = elim (Option-cases (nodes w).waker) [
  | inl lost ↦ let h = q w (ground arith) in absurd (ground arith)
  | inr (k, found) ↦
      let (r, e, l) =
        drain_lem ws (update nodes w (record (nodes w) { waker = none })) d.1
          (λ j m. ground (arith, q j, ne_of_elem j w ws d.0 m)) in
      (
        add_wake k r,
        ground (arith, e, found),
        ap₂ ◌∷◌ found (sym (wakers-update nodes w ws d.0) ∙ l),
      )
]

-- `close` of a valid semaphore does not panic: it empties the list and calls the wakers of exactly
-- the waiters in it, in order, it leaves the units alone, and the semaphore stays valid and shut.
pub close_wakes_all :
    (s : Semaphore)
    → IsValid s
    → (r : Semaphore × List ℕ) × (close s ≡ some r)
      × (r.0.is_shut ≡ true)
      × (r.0.waiters_list ≡ [])
      × (r.0.avail ≡ s.avail)
      × (map (λ j. (s.nodes j).waker) s.waiters_list ≡ map some r.1)
      × IsValid r.0
unfolding close
close_wakes_all s v =
    let (r, e, l) = drain_lem s.waiters_list s.nodes v.distinct (λ j m. (v.queued j m).has_waker) in
    (
      after_close s r,
      ground (arith, e),
      refl,
      refl,
      refl,
      l,
      record {
        distinct = tt;
        queued = λ j m. absurd (ground arith);
        shut = λ _. refl;
        small = v.small;
      },
    )
