-- ===== src/Task/Moves.antt =====
-- The moves of the machine: what each call on a task of glommio/src/task does to its phase and to who
-- holds it.
use glommio.Base.{
  ℕ, ◌+◌, Bool, true, false, not, ◌&&◌, ◌||◌, Option, none, some, ◌==◌, if◌then◌else◌,
}
use glommio.Task.{Closure, queues, drops, gone, shut, accepting, Place, owner, foreign, call_waker}
use glommio.Task.Calls.{Poll, pending, ready}
use glommio.Task.Machine.{
  Phase, View, is_active, total, at_phase, tell, ends, scheduled_as, is_idle, queued, idle, polling,
  cancelled, disarmed, stale, over, complete, taken,
}

unfoldable pub cancel_phase : {A : Type 0} → Closure → Phase A → View A → View A
unfolding tell scheduled_as
cancel_phase c queued v = tell cancelled v
cancel_phase c idle v = scheduled_as c cancelled (tell idle v)
cancel_phase c (polling again false) v = tell (polling again true) v
cancel_phase c (polling again true) v = v
cancel_phase c cancelled v = v
cancel_phase c disarmed v = v
cancel_phase c (stale again) v = v
cancel_phase c over v = v
cancel_phase c (complete a) v = v
cancel_phase c taken v = v

-- A cancelled task is scheduled once more, unless it is being polled or over.
unfoldable pub cancel_view : {A : Type 0} → Closure → View A → View A
unfolding cancel_phase
cancel_view c v = cancel_phase c v.phase v

-- A future dropped in place leaves the runnable to clean up, and a task that waits untold.
unfoldable pub cancel_in_place_phase : {A : Type 0} → Closure → Phase A → View A → View A
unfolding tell ends
cancel_in_place_phase c queued v = tell disarmed v
cancel_in_place_phase queues idle v = tell disarmed v
cancel_in_place_phase drops idle v = ends over v
cancel_in_place_phase c (polling again false) v = tell (polling again true) v
cancel_in_place_phase c (polling again true) v = v
cancel_in_place_phase c cancelled v = at_phase disarmed v
cancel_in_place_phase c disarmed v = v
cancel_in_place_phase c (stale again) v = v
cancel_in_place_phase c over v = v
cancel_in_place_phase c (complete a) v = v
cancel_in_place_phase c taken v = v

unfoldable pub cancel_in_place_view : {A : Type 0} → Closure → View A → View A
unfolding cancel_in_place_phase
cancel_in_place_view c v = cancel_in_place_phase c v.phase v

-- An idle task that nobody can wake or wait for.
unfoldable pub is_abandoned : {A : Type 0} → View A → Bool
unfolding is_idle total
is_abandoned v = is_idle v.phase && total v == 1

-- What is left to do when a waker has been dropped.
unfoldable pub drop_view : {A : Type 0} → Closure → Place → View A → View A
unfolding is_abandoned cancel_view
drop_view c owner v = if is_abandoned v then cancel_view c v else v
drop_view c (foreign gone) v = v
drop_view c (foreign shut) v = v
drop_view c (foreign accepting) v =
    if is_abandoned v then record v { cleanups = v.cleanups + 1 } else v

unfoldable pub wake_phase : {A : Type 0} → Closure → Phase A → View A → View A
unfolding scheduled_as
wake_phase c queued v = v
wake_phase c idle v = scheduled_as c queued v
wake_phase c (polling again false) v = at_phase (polling true false) v
wake_phase c (polling again true) v = v
wake_phase c cancelled v = v
wake_phase c disarmed v = v
wake_phase c (stale again) v = v
wake_phase c over v = v
wake_phase c (complete a) v = v
wake_phase c taken v = v

unfoldable pub wake_view : {A : Type 0} → Closure → Place → View A → View A
unfolding wake_phase is_active
wake_view c owner v = wake_phase c v.phase v
wake_view c (foreign gone) v = v
wake_view c (foreign shut) v = v
wake_view c (foreign accepting) v =
    if is_active v.phase then record v { wakes = v.wakes + 1 } else v

unfoldable pub cleanup_view : {A : Type 0} → Closure → Place → View A → View A
unfolding is_idle total cancel_view is_active
cleanup_view c owner v =
    if is_idle v.phase && (not v.handle && total v == 2) then cancel_view c v else v
cleanup_view c (foreign gone) v = v
cleanup_view c (foreign shut) v = v
cleanup_view c (foreign accepting) v =
    if is_active v.phase then record v { cleanups = v.cleanups + 1 } else v

-- A runnable that is dropped, or run when its task is cancelled.
unfoldable pub drop_task_phase : {A : Type 0} → Phase A → View A → View A
unfolding ends tell
drop_task_phase queued v = ends over v
drop_task_phase idle v = v
drop_task_phase (polling again stopped) v = v
drop_task_phase cancelled v = ends over v
drop_task_phase disarmed v = ends over v
drop_task_phase (stale again) v = tell over v
drop_task_phase over v = v
drop_task_phase (complete a) v = v
drop_task_phase taken v = v

unfoldable pub run_phase : {A : Type 0} → Phase A → View A → View A
unfolding drop_task_phase
run_phase queued v = at_phase (polling false false) v
run_phase idle v = v
run_phase (polling again stopped) v = v
run_phase cancelled v = drop_task_phase cancelled v
run_phase disarmed v = drop_task_phase disarmed v
run_phase (stale again) v = drop_task_phase (stale again) v
run_phase over v = v
run_phase (complete a) v = v
run_phase taken v = v

-- The executor shuts the task down; a poll under way finishes first.
unfoldable pub shutdown_phase : {A : Type 0} → Phase A → View A → View A
unfolding ends
shutdown_phase queued v = ends (stale false) v
shutdown_phase idle v = ends over v
shutdown_phase (polling again stopped) v = record (at_phase (polling again true) v) {
  linked = false;
}
shutdown_phase cancelled v = ends (stale false) v
shutdown_phase disarmed v = ends (stale false) v
shutdown_phase (stale again) v = v
shutdown_phase over v = v
shutdown_phase (complete a) v = v
shutdown_phase taken v = v

-- A poll returns an output, which only a handle can still take.
unfoldable pub ready_view : {A : Type 0} → A → Bool → View A → View A
unfolding ends
ready_view a stopped v = if not v.handle || stopped then ends taken v else ends (complete a) v

-- A poll returns without an output.
unfoldable pub pending_view : {A : Type 0} → Closure → Bool → Bool → View A → View A
unfolding ends scheduled_as total
pending_view c again true v = ends over v
pending_view c true false v = scheduled_as c queued v
pending_view c false false v =
    if not v.handle && total (at_phase (polling false false) v) == 2
    then ends over v
    else at_phase idle v

unfoldable pub handle_phase : {A : Type 0} → Phase A → View A → View A
unfolding ends
handle_phase queued v = v
handle_phase idle v = v
handle_phase (polling again stopped) v = v
handle_phase cancelled v = v
handle_phase disarmed v = ends (stale true) v
handle_phase (stale again) v = v
handle_phase over v = v
handle_phase (complete a) v = at_phase taken v
handle_phase taken v = v

-- A poll of the handle by the task with the waker `w`, which does not have to call that.
unfoldable pub hear : {A : Type 0} → ℕ → View A → View A
unfolding call_waker
hear w v = record v { awaiter = none; woken = call_waker v.awaiter (some w) v.woken }

unfoldable pub poll_phase : {A : Type 0} → ℕ → Phase A → View A → View A × Poll (Option A)
unfolding hear
poll_phase w queued v = (record v { awaiter = some w }, pending)
poll_phase w idle v = (record v { awaiter = some w }, pending)
poll_phase w (polling again stopped) v = (record v { awaiter = some w }, pending)
poll_phase w cancelled v = (record v { awaiter = some w }, pending)
poll_phase w disarmed v = (hear w v, ready none)
poll_phase w (stale again) v = (hear w v, ready none)
poll_phase w over v = (hear w v, ready none)
poll_phase w (complete a) v = (hear w (at_phase taken v), ready (some a))
poll_phase w taken v = (hear w v, ready none)

-- Without its handle a task has no use for its output.
unfoldable pub without_handle : {A : Type 0} → View A → View A
unfolding handle_phase
without_handle v = record (handle_phase v.phase v) { handle = false }
