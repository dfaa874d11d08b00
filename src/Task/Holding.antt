-- ===== src/Task/Holding.antt =====
-- The calls of glommio/src/task that are not those of wakers, and what allows them.
use glommio.Base.{
  ℕ, ◌+◌, ◌-◌, ◌<◌, ◌≡◌, refl, Bool, true, false, ◌||◌, Option, some, arith, ltb, sym, ap, ◌∙◌, inl,
  inr, Bool-cases,
}
use glommio.Task.{Cell, live, Closure, Place, try, max_references}
use glommio.Task.Calls.{Poll, pending, ready, clone_waker, run}
use glommio.Task.Machine.{
  Phase, polling, over, View, flags, is_active, runnables, total, task, settle, tell, ends,
  at_phase, Good, is_held, more, is_idle,
}
use glommio.Task.Counts.{increment-run, settle-live, ends-Good}
use glommio.Task.Moves.{is_abandoned, wake_view, ready_view, pending_view}
use glommio.Task.Keeps.{Keeps, wake-Keeps, wake-Good, same-Good}
use glommio.Task.Forms.{Fine, ready-Fine, pending-Fine}
use glommio.Task.Wakers.{do_wake_lem}
use glommio.Task.Runs.{poll_guard_lem, popped}
use glommio.Task.Polls.{run_ready_lem, run_pending_lem}
use glommio.Task.World.{Call, clones, wakes_by_ref, takes_wake, polls, panics, call, heard}
use glommio.Task.Steps.{Leads, ltb-less}
use glommio.Task.Alone.{more-kept, wake-kept}
use glommio.Task.Alone.Executor.{ready-kept, pending-kept}
use glommio.Task.Positive.{handle-total, wake-total}
use glommio.Task.Facts.{
  Polling, is_polling, or_true, handle_flag, one_runnable, own_runnable, idle_runnables,
  idle_handle,
}

-- A call whose equation and whose outcome are known.
pub leads :
    {A : Type 0} (k : Call A) (v w : View A)
    → call k (task v) v.wakers ≡ (some (settle w), v.wakers)
    → Fine v w
    → (heard k ≡ true → is_abandoned v ≡ false → is_abandoned w ≡ false)
    → Leads k v
leads k v w e f q = record {
  after = w;
  runs = e ∙ ap (λ n. (some (settle w), n)) (sym f.0);
  form = f.1;
  kept = q;
}

pub pair :
    {A : Type 0} (n : ℕ) {x y : Option (Cell A)}
    → x ≡ y
    → ◌≡◌ {A = Option (Cell A) × ℕ} (x, n) (y, n)
pair n e = ap (λ r. (r, n)) e

pub settled : {A : Type 0} (v : View A) → 0 < total v → some (live (task v)) ≡ some (settle v)
settled v h = ap some (sym (settle-live v h))

pub same_queue :
    {A : Type 0} (v : View A)
    → 0 < runnables v.phase
    → record (task v) { queue = runnables v.phase - 1 } ≡ popped v
same_queue v h = ap (λ n. record (task v) { queue = n }) (omega (arith, one_runnable v.phase h))

pub by_handle : {A : Type 0} (v : View A) → (flags v.phase v.handle).handle ≡ true → v.handle ≡ true
by_handle v e = sym (handle_flag v.phase v.handle) ∙ e

pub not_both : {b : Bool} → b ≡ false → b ≡ true → ⊥
not_both e f = absurd (cc)

pub idle-total :
    {A : Type 0} (v : View A)
    → ((flags v.phase v.handle).handle || ltb 0 (runnables v.phase)) ≡ true
    → is_idle v.phase ≡ true
    → 1 < total v
idle-total v e i = elim (or_true (flags v.phase v.handle).handle (ltb 0 (runnables v.phase)) e) [
  | inl h ↦ idle_handle v.phase v (by_handle v h) i
  | inr q ↦ absurd (not_both (idle_runnables v.phase (ltb-less (runnables v.phase) q)) i)
]

pub holder-total :
    {A : Type 0} (v : View A)
    → ((flags v.phase v.handle).handle || ltb 0 (runnables v.phase)) ≡ true
    → 0 < total v
unfolding total
holder-total v e = elim (or_true (flags v.phase v.handle).handle (ltb 0 (runnables v.phase)) e) [
  | inl h ↦ handle-total v (by_handle v h)
  | inr q ↦ omega (arith, own_runnable v.phase (ltb-less (runnables v.phase) q))
]

pub linked-held : {A : Type 0} (v : View A) → Good v → v.linked ≡ true → is_held v.phase ≡ true
linked-held v g e = elim (Bool-cases (is_held v.phase)) [
  | inl h ↦ h
  | inr h ↦ absurd (not_both (g.unlinked h) e)
]

pub polls-Leads :
    {A : Type 0} (c : Closure) (r : Poll A) (p : Phase A) (v : View A)
    → Polling p
    → Leads (polls c r) (at_phase p v)
unfolding call run
polls-Leads c (ready a) p v (is_polling again stopped) =
    let u = at_phase (polling again stopped) v in
    leads (polls c (ready a)) u (ready_view a stopped v)
      (pair v.wakers (run_ready_lem c a again stopped v)) (ready-Fine a stopped v)
      (λ h e. ready-kept a stopped v)
polls-Leads c pending p v (is_polling again stopped) =
    let u = at_phase (polling again stopped) v in
    leads (polls c pending) u (pending_view c again stopped v)
      (pair v.wakers (ap (λ r. r.0) (run_pending_lem c again stopped v)))
      (pending-Fine c again stopped v) (λ h e. pending-kept c again stopped v)

pub panics-Leads : {A : Type 0} (p : Phase A) (v : View A) → Polling p → Leads panics (at_phase p v)
unfolding call ends is_abandoned is_idle tell
panics-Leads p v (is_polling again stopped) =
    leads panics (at_phase (polling again stopped) v) (ends over v)
      (pair v.wakers (poll_guard_lem again stopped v)) (refl, ends-Good v) (λ h e. refl)

pub clones-Leads :
    {A : Type 0} (v : View A) → Good v → 0 < total v → total v < max_references → Leads clones v
unfolding call clone_waker task total
clones-Leads v g h k = record {
  after = more v;
  runs =
      ap (λ r. (r, v.wakers + 1))
        (ap (λ r. try r (λ t. some (live t))) (increment-run (task v) h k)
          ∙ ap (λ n. some (live (record (task v) { references = n }))) (omega arith)
          ∙ settled (more v) (omega arith));
  form = same-Good v (v.wakers + 1) v.wakes v.cleanups g;
  kept = λ h e. more-kept v;
}

pub takes_wake-Leads : {A : Type 0} (v : View A) → Good v → 0 < v.wakes → Leads takes_wake v
unfolding call task total
takes_wake-Leads v g h =
    let w = record v { wakes = v.wakes - 1; wakers = v.wakers + 1 } in
    record {
      after = w;
      runs =
          ap (λ r. (r, v.wakers + 1))
            (ap (λ n. some (live (record (task w) { references = n }))) (omega arith)
              ∙ settled w (omega arith));
      form = same-Good v (v.wakers + 1) (v.wakes - 1) v.cleanups g;
      kept = λ q e. more-kept (record v { wakes = v.wakes - 1 });
    }

pub wakes_by_ref-Leads :
    {A : Type 0} (c : Closure) (p : Place) (v : View A)
    → Good v
    → (is_active v.phase ≡ true → 1 < total v)
    → 0 < total v
    → total v < max_references
    → Leads (wakes_by_ref c p) v
unfolding call Keeps
wakes_by_ref-Leads c p v g h k r =
    leads (wakes_by_ref c p) v (wake_view c p v)
      (pair v.wakers (do_wake_lem c p v h r ∙ settled (wake_view c p v) (wake-total c p v h k)))
      ((wake-Keeps c p v).0, wake-Good c p v g) (λ q e. wake-kept c p v e)
