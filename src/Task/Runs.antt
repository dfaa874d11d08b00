-- ===== src/Task/Runs.antt =====
-- Running, dropping and shutting down a task of glommio/src/task/raw.rs.
use glommio.Base.{◌≡◌, refl, Bool, false, some, arith, sym, ap}
use glommio.Task.{Task, notify, drop_in_place, drop_future, cleanup_owner, finish, close, drop_task}
use glommio.Task.Machine.{
  Phase, queued, idle, polling, cancelled, disarmed, stale, over, complete, taken, View, flags,
  contents, is_active, runnables, own_references, total, task, settle, tell, ends, at_phase, Good,
  is_held, is_complete,
}
use glommio.Task.Counts.{settle-live, ends-Good}
use glommio.Task.Ending.{unarmed, release-at, release-both}
use glommio.Task.Moves.{drop_task_phase, run_phase}
use glommio.Task.Calls.{run_start, poll_guard}

-- The task of a runnable that has been taken out of the queue.
abbrev pub popped : {A : Type 0} → View A → Task A
popped v = record (task v) { queue = 0 }

drop_task_by :
    {A : Type 0} (p : Phase A) (v : View A)
    → Good (at_phase p v)
    → runnables p ≡ 1
    → drop_task (popped (at_phase p v)) ≡ some (settle (drop_task_phase p (at_phase p v)))
unfolding drop_task close drop_future drop_in_place drop_task_phase flags task contents notify ends
    tell runnables is_active total own_references is_held is_complete finish cleanup_owner
drop_task_by queued v g h =
    release-both (unarmed (total (at_phase queued v)) false v) (total (at_phase queued v))
      (ends over v) (ends-Good v) (omega arith) refl
drop_task_by idle v g h = absurd (omega arith)
drop_task_by (polling again stopped) v g h = absurd (omega arith)
drop_task_by cancelled v g h =
    release-both (unarmed (total (at_phase cancelled v)) false v) (total (at_phase cancelled v))
      (ends over v) (ends-Good v) (omega arith) refl
drop_task_by disarmed v g h =
    release-both (unarmed (total (at_phase disarmed v)) false v) (total (at_phase disarmed v))
      (ends over v) (ends-Good v) (omega arith) refl
drop_task_by (stale again) v g h =
    release-at (total (at_phase (stale again) v)) (tell over v)
      (record { unlinked = g.unlinked; told = λ h. refl; wanted = λ h. absurd (cc) }) (omega arith)
drop_task_by over v g h = absurd (omega arith)
drop_task_by (complete a) v g h = absurd (omega arith)
drop_task_by taken v g h = absurd (omega arith)

run_start_by :
    {A : Type 0} (p : Phase A) (v : View A)
    → Good (at_phase p v)
    → runnables p ≡ 1
    → run_start (popped (at_phase p v)) ≡ some (settle (run_phase p (at_phase p v)))
unfolding run_start run_phase flags task runnables is_active total own_references contents
run_start_by queued v g h =
    ap some (sym (settle-live (at_phase (polling false false) v) (omega arith)))
run_start_by idle v g h = absurd (omega arith)
run_start_by (polling again stopped) v g h = absurd (omega arith)
run_start_by cancelled v g h = drop_task_by cancelled v g h
run_start_by disarmed v g h = drop_task_by disarmed v g h
run_start_by (stale again) v g h = drop_task_by (stale again) v g h
run_start_by over v g h = absurd (omega arith)
run_start_by (complete a) v g h = absurd (omega arith)
run_start_by taken v g h = absurd (omega arith)

pub poll_guard_lem :
    {A : Type 0} (again stopped : Bool) (v : View A)
    → poll_guard (task (at_phase (polling again stopped) v)) ≡ some (settle (ends over v))
unfolding poll_guard drop_future drop_in_place notify task flags contents runnables is_active total
    own_references tell ends
poll_guard_lem again stopped v =
    release-both (unarmed (total (at_phase (polling again stopped) v)) false v)
      (total (at_phase (polling again stopped) v)) (ends over v) (ends-Good v) (omega arith) refl

pub drop_task_lem :
    {A : Type 0} (v : View A)
    → Good v
    → runnables v.phase ≡ 1
    → drop_task (popped v) ≡ some (settle (drop_task_phase v.phase v))
drop_task_lem v g h = drop_task_by v.phase v g h

pub run_start_lem :
    {A : Type 0} (v : View A)
    → Good v
    → runnables v.phase ≡ 1
    → run_start (popped v) ≡ some (settle (run_phase v.phase v))
run_start_lem v g h = run_start_by v.phase v g h
