-- ===== src/Semaphore/Conservation.antt =====
-- No run of semaphore.rs makes or loses a unit.
use glommio.Base.{
  ℕ, ◌+◌, ◌-◌, ◌^◌, ◌≤◌, ◌<◌, ◌≡◌, refl, sym, ap, ◌∙◌, inl, inr, Bool, List, arith, Bool-cases,
  is_empty,
}
use glommio.Errors.{ok}
use glommio.Semaphore.{
  WaiterNode, Semaphore, new, acquire, acquire_from, poll, poll_with, unmark,
  remove_from_waiting_queue, register_in_waiting_queue, new_waiter, try_acquire, state_try_acquire,
}
use glommio.Semaphore.Invariant.{IsValid, shut, enough, short, state_try_acquire_lem}
use glommio.Semaphore.Cancel.{signal_wakes_fitting, drop_waiter_passes_on, close_wakes_all}
use glommio.Semaphore.Units.{
  World, cost, granted, Step, acquires, polls, tries, gives, drops, closes, Reach, start, later,
  Reach-NoPanic, some_inj,
}

avail-acquire :
    (s : Semaphore) (i units : ℕ)
    → (acquire s i units).0.avail + cost (acquire s i units).1 units ≡ s.avail
unfolding acquire try_acquire
avail-acquire s i units = elim (Bool-cases (is_empty s.waiters_list)) [
  | inr busy ↦ rw (busy, acquire_from) (unfold new_waiter in omega arith)
  | inl idle ↦ elim (state_try_acquire_lem s units) [
    | shut _ e ↦ rw (idle, e, acquire_from) (omega arith)
    | enough _ h e ↦ rw (idle, e, acquire_from) (omega arith)
    | short _ _ e ↦ rw (idle, e, acquire_from) (unfold new_waiter in omega arith)
  ]
]

avail-remove : (s : Semaphore) (i : ℕ) → (remove_from_waiting_queue s i).avail ≡ s.avail
unfolding remove_from_waiting_queue
avail-remove s i = ground arith

avail-register :
    (s : Semaphore) (i waker : ℕ) → (register_in_waiting_queue s i waker).avail ≡ s.avail
unfolding register_in_waiting_queue
avail-register s i waker = ground arith

unmark_units :
    (s : Semaphore) (i : ℕ)
    → (((unmark s i).nodes i).units ≡ (s.nodes i).units) × ((unmark s i).avail ≡ s.avail)
unfolding unmark
unmark_units s i = (ground arith, refl)

avail-poll :
    (s : Semaphore) (i waker : ℕ)
    → (poll s i waker).0.avail + cost (poll s i waker).1 (s.nodes i).units ≡ s.avail
unfolding poll
avail-poll s i waker =
    let u = unmark s i in
    let units = (u.nodes i).units in
    let same = unmark_units s i in
    elim (state_try_acquire_lem u units) [
      | shut _ e ↦ rw (e, poll_with) (omega (arith, avail-remove u i, same.1))
      | enough _ h e ↦
          rw (e, poll_with)
            (omega
              (arith, avail-remove (record u { avail = u.avail - units }) i, h, same.0, same.1))
      | short _ _ e ↦ rw (e, poll_with) (omega (arith, avail-register u i waker, same.1))
    ]

avail-try_acquire :
    (s : Semaphore) (units : ℕ) {t : Semaphore} {b : Bool}
    → try_acquire s units ≡ ok (t, b)
    → t.avail + granted b units ≡ s.avail
unfolding try_acquire state_try_acquire
avail-try_acquire s units e = ground arith

abbrev Balanced : ℕ → World → Type 0
Balanced avail w = w.sem.avail + w.taken ≡ avail + w.returned

Step-Balanced :
    (avail : ℕ) {w x : World}
    → Step w x
    → IsValid w.sem
    → avail + x.returned < 2 ^ 64
    → Balanced avail w
    → Balanced avail x
Step-Balanced avail {w} (acquires i units free) v h b = omega (arith, avail-acquire w.sem i units)
Step-Balanced avail {w} (polls i waker) v h b = omega (arith, avail-poll w.sem i waker)
Step-Balanced avail {w} (tries units e) v h b = omega (arith, avail-try_acquire w.sem units e)
Step-Balanced avail {w} (gives units {t} e) v h b =
    let (r, f, k, _) = signal_wakes_fitting w.sem units v in
    let same = ap (λ (p : Semaphore × List ℕ). p.0.avail) (some_inj (sym f ∙ e)) in
    omega (arith, k.0, same)
Step-Balanced avail {w} (drops i {t} e) v h b =
    let (r, f, k, _) = drop_waiter_passes_on w.sem i v in
    let same = ap (λ (p : Semaphore × List ℕ). p.0.avail) (some_inj (sym f ∙ e)) in
    omega (arith, k.1, same)
Step-Balanced avail {w} (closes {t} e) v h b =
    let (r, f, _, _, k, _, _) = close_wakes_all w.sem v in
    let same = ap (λ (p : Semaphore × List ℕ). p.0.avail) (some_inj (sym f ∙ e)) in
    omega (arith, k, same)

returned_le : {w x : World} → Step w x → w.returned ≤ x.returned
returned_le (gives units e) = omega arith
returned_le (acquires i units free) = omega arith
returned_le (polls i waker) = omega arith
returned_le (tries units e) = omega arith
returned_le (drops i e) = omega arith
returned_le (closes e) = omega arith

-- As long as all units together fit into 64 bits, no run makes or loses a unit: what is available
-- and what has been taken add up to what there was and what has been given back.
pub Reach-units :
    {avail : ℕ} {nodes : ℕ → WaiterNode} {w : World}
    → Reach avail nodes w
    → avail + w.returned < 2 ^ 64
    → w.sem.avail + w.taken ≡ avail + w.returned
unfolding new
Reach-units start h = omega arith
Reach-units {avail} (later {w} r st) h =
    let h' : avail + w.returned < 2 ^ 64 = omega (arith, returned_le st) in
    Step-Balanced avail st (Reach-NoPanic (omega arith) r).0 h (Reach-units r h')
