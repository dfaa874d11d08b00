-- ===== src/Semaphore/Invariant.antt =====
-- The representation invariant of semaphore.rs, under which none of its panics is reached.
use glommio.Base.{
  ℕ, ◌+◌, ◌-◌, ◌%◌, ◌^◌, ◌≤◌, ◌<◌, ◌≡◌, refl, inl, inr, Bool, true, false, List, [], ◌∷◌, some,
  arith, leb, Bool-cases, elem, is_empty, Distinct, Distinct-remove, Distinct-snoc, elem-append,
  elem_of-elem-remove, nil_of_no_elem,
}
use glommio.Errors.{ok, err, closed, ResourceType}
use glommio.Semaphore.{
  Semaphore, Result, acquire, new_waiter, poll, poll_with, acquire_from, unmark, state_signal,
  state_try_acquire, remove_from_waiting_queue, register_in_waiting_queue, after_wakes,
  process_wakes, try_acquire,
}
use glommio.Semaphore.Wakes.{IsQueued, Woke, wake_fitting_lem}

pub record IsValid (s : Semaphore) : Type 0 where
  pub distinct : Distinct s.waiters_list
  pub queued : (j : ℕ) → elem j s.waiters_list ≡ true → IsQueued (s.nodes j)
  pub shut : s.is_shut ≡ true → s.waiters_list ≡ []
  pub small : s.avail < 2 ^ 64

-- `process_wakes` after `units` have come back: what it returns, and the semaphore that it leaves.
abbrev pub Woken : Semaphore → ℕ → Semaphore × List ℕ → Type 0
Woken s units (t, wakes) =
    (t.avail ≡ (s.avail + units) % 2 ^ 64)
    × (t.is_shut ≡ s.is_shut)
    × Woke t.avail s.waiters_list s.nodes (t.waiters_list, t.nodes, wakes)

pub after_wakes-IsValid :
    (s : Semaphore) (units : ℕ) (t : Semaphore) (wakes : List ℕ)
    → IsValid s
    → Woken s units (t, wakes)
    → IsValid t
after_wakes-IsValid s units t wakes v w = record {
  distinct = w.2.distinct;
  queued = λ j e. rw (w.2.stays j e) (v.queued j (w.2.subset j e));
  shut = λ e. nil_of_no_elem t.waiters_list (λ j m.
      let k = w.2.subset j m in let n : s.waiters_list ≡ [] = v.shut (ground arith) in rw n at k);
  small = omega arith;
}

pub process_wakes_lem :
    (s : Semaphore) (units : ℕ)
    → IsValid s
    → (r : Semaphore × List ℕ) × (process_wakes s units ≡ some r) × Woken s units r
unfolding process_wakes
process_wakes_lem s units v =
    let (r, e, w) =
      wake_fitting_lem (state_signal s units).avail s.waiters_list s.nodes v.distinct v.queued in
    (after_wakes (state_signal s units) r, ground (arith, e), (refl, refl, w))

-- The three outcomes of `SemaphoreState::try_acquire`.
pub data Tried (s : Semaphore) (units : ℕ) (r : Result (Semaphore × Bool)) : Type 0 where
  shut :
      s.is_shut ≡ true → r ≡ err (closed (ResourceType.semaphore units s.avail)) → Tried s units r
  enough :
      s.is_shut ≡ false
      → units ≤ s.avail
      → r ≡ ok (record s { avail = s.avail - units }, true)
      → Tried s units r
  short : s.is_shut ≡ false → s.avail < units → r ≡ ok (s, false) → Tried s units r

pub state_try_acquire_lem : (s : Semaphore) (units : ℕ) → Tried s units (state_try_acquire s units)
unfolding state_try_acquire
state_try_acquire_lem s units = elim (Bool-cases s.is_shut) [
  | inl e ↦ shut e (ground arith)
  | inr e ↦ elim (Bool-cases (leb units s.avail)) [
    | inl h ↦ enough e (ground arith) (ground arith)
    | inr h ↦ short e (ground arith) (ground arith)
  ]
]

take-IsValid :
    (s : Semaphore) (units : ℕ) → IsValid s → IsValid (record s { avail = s.avail - units })
take-IsValid s units v = record {
  distinct = v.distinct;
  queued = v.queued;
  shut = v.shut;
  small = omega (arith, v.small);
}

unmark-IsValid : (s : Semaphore) (i : ℕ) → IsValid s → IsValid (unmark s i)
unfolding unmark
unmark-IsValid s i v = record {
  distinct = v.distinct;
  queued = λ j e. ground (arith, v.queued j e);
  shut = v.shut;
  small = v.small;
}

pub remove-IsValid : (s : Semaphore) (i : ℕ) → IsValid s → IsValid (remove_from_waiting_queue s i)
unfolding remove_from_waiting_queue
remove-IsValid s i v = elim (Bool-cases (elem i s.waiters_list)) [
  | inl linked ↦ rw linked (record {
    distinct = Distinct-remove i s.waiters_list v.distinct;
    queued = λ j e. v.queued j (elem_of-elem-remove j i s.waiters_list e);
    shut = λ e. rw (v.shut e);
    small = v.small;
  })
  | inr free ↦ rw free v
]

register-IsValid :
    (s : Semaphore) (i waker : ℕ)
    → s.is_shut ≡ false
    → (s.nodes i).woken ≡ false
    → 0 < (s.nodes i).units
    → IsValid s
    → IsValid (register_in_waiting_queue s i waker)
unfolding register_in_waiting_queue
register-IsValid s i waker running calm pos v = elim (Bool-cases (elem i s.waiters_list)) [
  | inl linked ↦ rw linked (record {
    distinct = v.distinct;
    queued = λ j e. ground (arith, v.queued j e);
    shut = v.shut;
    small = v.small;
  })
  | inr free ↦ rw free (record {
    distinct = Distinct-snoc i s.waiters_list free v.distinct;
    queued = λ j e. ground (arith, v.queued j, elem-append j s.waiters_list (i ∷ []));
    shut = λ e. absurd (ground arith);
    small = v.small;
  })
]

pub poll-IsValid : (s : Semaphore) (i waker : ℕ) → IsValid s → IsValid (poll s i waker).0
unfolding poll
poll-IsValid s i waker v =
    let u = unmark s i in
    let valid = unmark-IsValid s i v in
    elim (state_try_acquire_lem u (u.nodes i).units) [
      | shut _ e ↦ rw (e, poll_with) (remove-IsValid u i valid)
      | enough _ _ e ↦
          rw (e, poll_with) (remove-IsValid _ i (take-IsValid u (u.nodes i).units valid))
      | short running few e ↦
          rw (e, poll_with) (register-IsValid u i waker running (ground arith) (ground arith) valid)
    ]

new_waiter-IsValid :
    (s : Semaphore) (i units : ℕ)
    → elem i s.waiters_list ≡ false
    → IsValid s
    → IsValid (new_waiter s i units)
unfolding new_waiter
new_waiter-IsValid s i units free v = record {
  distinct = v.distinct;
  queued = λ j e. ground (arith, v.queued j);
  shut = v.shut;
  small = v.small;
}

pub acquire-IsValid :
    (s : Semaphore) (i units : ℕ)
    → elem i s.waiters_list ≡ false
    → IsValid s
    → IsValid (acquire s i units).0
unfolding acquire try_acquire
acquire-IsValid s i units free v = elim (Bool-cases (is_empty s.waiters_list)) [
  | inr busy ↦ rw (busy, acquire_from) (new_waiter-IsValid s i units free v)
  | inl idle ↦ elim (state_try_acquire_lem s units) [
    | shut _ e ↦ rw (idle, e, acquire_from) v
    | enough _ _ e ↦ rw (idle, e, acquire_from) (take-IsValid s units v)
    | short _ _ e ↦ rw (idle, e, acquire_from) (new_waiter-IsValid s i units free v)
  ]
]

pub try_acquire-IsValid :
    (s : Semaphore) (units : ℕ) {t : Semaphore} {b : Bool}
    → try_acquire s units ≡ ok (t, b)
    → IsValid s
    → IsValid t
unfolding try_acquire state_try_acquire
try_acquire-IsValid s units {t} {b} e v = ground (arith, take-IsValid s units v)
