-- ===== src/Task/Alone/Executor.antt =====
-- The same of the calls of the executor and of the handle.
use glommio.Base.{
  ℕ, ◌≡◌, refl, Bool, true, false, not, ◌&&◌, ◌||◌, ◌==◌, if◌then◌else◌, ap, ◌∙◌, inl, inr,
  Bool-cases,
}
use glommio.Task.{Closure, queues, drops}
use glommio.Task.Machine.{
  Phase, queued, idle, polling, cancelled, disarmed, stale, over, complete, taken, View, total,
  tell, ends, scheduled_as, at_phase, is_idle,
}
use glommio.Task.Moves.{
  is_abandoned, drop_task_phase, run_phase, shutdown_phase, ready_view, pending_view, poll_phase,
  hear,
}
use glommio.Task.Polls.{not_left}
use glommio.Task.Alone.{if-kept}

drop_task_by :
    {A : Type 0} (p : Phase A) (v : View A)
    → is_abandoned (at_phase p v) ≡ false
    → is_abandoned (drop_task_phase p (at_phase p v)) ≡ false
unfolding drop_task_phase ends tell is_abandoned is_idle
drop_task_by queued v e = refl
drop_task_by idle v e = e
drop_task_by (polling again true) v e = refl
drop_task_by (polling again false) v e = refl
drop_task_by cancelled v e = refl
drop_task_by disarmed v e = refl
drop_task_by (stale again) v e = refl
drop_task_by over v e = refl
drop_task_by (complete a) v e = refl
drop_task_by taken v e = refl

pub drop_task-kept :
    {A : Type 0} (v : View A)
    → is_abandoned v ≡ false
    → is_abandoned (drop_task_phase v.phase v) ≡ false
drop_task-kept v e = drop_task_by v.phase v e

run_start_by :
    {A : Type 0} (p : Phase A) (v : View A)
    → is_abandoned (at_phase p v) ≡ false
    → is_abandoned (run_phase p (at_phase p v)) ≡ false
unfolding run_phase drop_task_phase ends tell is_abandoned is_idle
run_start_by queued v e = refl
run_start_by idle v e = e
run_start_by (polling again true) v e = refl
run_start_by (polling again false) v e = refl
run_start_by cancelled v e = refl
run_start_by disarmed v e = refl
run_start_by (stale again) v e = refl
run_start_by over v e = refl
run_start_by (complete a) v e = refl
run_start_by taken v e = refl

pub run_start-kept :
    {A : Type 0} (v : View A) → is_abandoned v ≡ false → is_abandoned (run_phase v.phase v) ≡ false
run_start-kept v e = run_start_by v.phase v e

shutdown_by :
    {A : Type 0} (p : Phase A) (v : View A)
    → is_abandoned (at_phase p v) ≡ false
    → is_abandoned (shutdown_phase p (at_phase p v)) ≡ false
unfolding shutdown_phase ends tell is_abandoned is_idle
shutdown_by queued v e = refl
shutdown_by idle v e = refl
shutdown_by (polling again true) v e = refl
shutdown_by (polling again false) v e = refl
shutdown_by cancelled v e = refl
shutdown_by disarmed v e = refl
shutdown_by (stale again) v e = refl
shutdown_by over v e = refl
shutdown_by (complete a) v e = refl
shutdown_by taken v e = refl

pub shutdown-kept :
    {A : Type 0} (v : View A)
    → is_abandoned v ≡ false
    → is_abandoned (shutdown_phase v.phase v) ≡ false
shutdown-kept v e = shutdown_by v.phase v e

pub ready-kept :
    {A : Type 0} (a : A) (stopped : Bool) (v : View A)
    → is_abandoned (ready_view a stopped v) ≡ false
unfolding ready_view ends tell is_abandoned is_idle
ready-kept a stopped v =
    if-kept (not v.handle || stopped) (ends taken v) (ends (complete a) v) refl refl

pub pending-kept :
    {A : Type 0} (c : Closure) (again stopped : Bool) (v : View A)
    → is_abandoned (pending_view c again stopped v) ≡ false
unfolding pending_view ends tell scheduled_as is_abandoned is_idle
pending-kept c true true v = refl
pending-kept c false true v = refl
pending-kept queues true false v = refl
pending-kept drops true false v = refl
pending-kept c false false v =
    let n = not v.handle && total (at_phase (polling false false) v) == 2 in
    elim (Bool-cases n) [
      | inl e ↦ ap (λ b. is_abandoned (if b then ends over v else at_phase idle v)) e
      | inr e ↦ ap (λ b. is_abandoned (if b then ends over v else at_phase idle v)) e ∙ not_left v e
    ]

poll_by :
    {A : Type 0} (w : ℕ) (p : Phase A) (v : View A)
    → is_abandoned (at_phase p v) ≡ false
    → is_abandoned ((poll_phase w p (at_phase p v)).0) ≡ false
unfolding poll_phase hear total is_abandoned is_idle
poll_by w queued v e = refl
poll_by w idle v e = e
poll_by w (polling again true) v e = refl
poll_by w (polling again false) v e = refl
poll_by w cancelled v e = refl
poll_by w disarmed v e = refl
poll_by w (stale again) v e = refl
poll_by w over v e = refl
poll_by w (complete a) v e = refl
poll_by w taken v e = refl

pub poll-kept :
    {A : Type 0} (w : ℕ) (v : View A)
    → is_abandoned v ≡ false
    → is_abandoned (poll_phase w v.phase v).0 ≡ false
poll-kept w v e = poll_by w v.phase v e
