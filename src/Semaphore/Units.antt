-- ===== src/Semaphore/Units.antt =====
-- Runs of semaphore.rs: any interleaving of its calls, with a ledger of the units that have been
-- taken out and put back.
use glommio.Base.{
  sym, ◌∙◌, subst, ℕ, ◌+◌, ◌^◌, ◌<◌, ◌≡◌, refl, Bool, true, false, List, some, arith, elem,
}
use glommio.Errors.{ok, err}
use glommio.Semaphore.{
  WaiterNode, Semaphore, Result, Poll, ready, pending, new, acquire, poll, drop_waiter, close,
  try_acquire, signal,
}
use glommio.Semaphore.Invariant.{IsValid, acquire-IsValid, poll-IsValid, try_acquire-IsValid}
use glommio.Semaphore.Cancel.{signal_wakes_fitting, drop_waiter_passes_on, close_wakes_all}

-- A semaphore with the units taken and given back since it was made.
pub record World : Type 0 where
  pub sem : Semaphore
  pub taken : ℕ
  pub returned : ℕ

-- What a poll or an acquisition takes: all its units if it is done without an error.
abbrev pub cost : Poll (Result (Unit {0})) → ℕ → ℕ
cost (ready (ok _)) units = units
cost (ready (err _)) units = 0
cost pending units = 0

abbrev pub granted : Bool → ℕ → ℕ
granted true units = units
granted false units = 0

-- One call. A waiter is placed where no linked node is: a node leaves the list before its memory is
-- given up. `gives` is `signal` and the drop of a permit.
pub data Step (w : World) : World → Type 0 where
  acquires :
      (i units : ℕ)
      → elem i w.sem.waiters_list ≡ false
      → Step w (record w {
        sem = (acquire w.sem i units).0;
        taken = w.taken + cost (acquire w.sem i units).1 units;
      })
  polls :
      (i waker : ℕ)
      → Step w (record w {
        sem = (poll w.sem i waker).0;
        taken = w.taken + cost (poll w.sem i waker).1 (w.sem.nodes i).units;
      })
  tries :
      (units : ℕ) {t : Semaphore} {b : Bool}
      → try_acquire w.sem units ≡ ok (t, b)
      → Step w (record w { sem = t; taken = w.taken + granted b units })
  gives :
      (units : ℕ) {t : Semaphore} {wakes : List ℕ}
      → signal w.sem units ≡ some (t, wakes)
      → Step w (record w { sem = t; returned = w.returned + units })
  drops :
      (i : ℕ) {t : Semaphore} {wakes : List ℕ}
      → drop_waiter w.sem i ≡ some (t, wakes)
      → Step w (record w { sem = t })
  closes :
      {t : Semaphore} {wakes : List ℕ}
      → close w.sem ≡ some (t, wakes)
      → Step w (record w { sem = t })

pub data Reach (avail : ℕ) (nodes : ℕ → WaiterNode) : World → Type 0 where
  start : Reach avail nodes (record { sem = new avail nodes; taken = 0; returned = 0 })
  later : {w x : World} → Reach avail nodes w → Step w x → Reach avail nodes x

-- The library's panics are not reached: the three calls that could panic return.
pub record NoPanic (s : Semaphore) : Type 0 where
  pub signal_returns : (units : ℕ) → (r : Semaphore × List ℕ) × (signal s units ≡ some r)
  pub drop_returns : (i : ℕ) → (r : Semaphore × List ℕ) × (drop_waiter s i ≡ some r)
  pub close_returns : (r : Semaphore × List ℕ) × (close s ≡ some r)

pub some_inj : {A : Type 0} {x y : A} → some x ≡ some y → x ≡ y
some_inj e = cc

Step-IsValid : {w x : World} → Step w x → IsValid w.sem → IsValid x.sem
Step-IsValid {w} (acquires i units free) v = acquire-IsValid w.sem i units free v
Step-IsValid {w} (polls i waker) v = poll-IsValid w.sem i waker v
Step-IsValid {w} (tries units e) v = try_acquire-IsValid w.sem units e v
Step-IsValid {w} (gives units {t} e) v =
    let (r, f, _, k) = signal_wakes_fitting w.sem units v in
    let same : r ≡ (t, _) = some_inj (sym f ∙ e) in
    subst (λ (p : Semaphore × List ℕ). IsValid p.0) same k
Step-IsValid {w} (drops i {t} e) v =
    let (r, f, _, k) = drop_waiter_passes_on w.sem i v in
    let same : r ≡ (t, _) = some_inj (sym f ∙ e) in
    subst (λ (p : Semaphore × List ℕ). IsValid p.0) same k
Step-IsValid {w} (closes {t} e) v =
    let (r, f, _, _, _, _, k) = close_wakes_all w.sem v in
    let same : r ≡ (t, _) = some_inj (sym f ∙ e) in
    subst (λ (p : Semaphore × List ℕ). IsValid p.0) same k

new-IsValid : (avail : ℕ) (nodes : ℕ → WaiterNode) → avail < 2 ^ 64 → IsValid (new avail nodes)
unfolding new
new-IsValid avail nodes h = record {
  distinct = tt;
  queued = λ j e. absurd (ground arith);
  shut = λ _. refl;
  small = h;
}

Reach-IsValid :
    {avail : ℕ} {nodes : ℕ → WaiterNode} {w : World}
    → avail < 2 ^ 64
    → Reach avail nodes w
    → IsValid w.sem
Reach-IsValid {avail} {nodes} h start = new-IsValid avail nodes h
Reach-IsValid h (later r st) = Step-IsValid st (Reach-IsValid h r)

-- Whatever calls have been made, in whatever order, the semaphore is valid and none of its calls
-- panics.
pub Reach-NoPanic :
    {avail : ℕ} {nodes : ℕ → WaiterNode} {w : World}
    → avail < 2 ^ 64
    → Reach avail nodes w
    → IsValid w.sem × NoPanic w.sem
Reach-NoPanic {w = w} h r =
    let v = Reach-IsValid h r in
    (
      v,
      record {
        signal_returns = λ units. let (r, e, _, _) = signal_wakes_fitting w.sem units v in (r, e);
        drop_returns = λ i. let (r, e, _, _) = drop_waiter_passes_on w.sem i v in (r, e);
        close_returns = let (r, e, _, _, _, _, _) = close_wakes_all w.sem v in (r, e);
      },
    )
