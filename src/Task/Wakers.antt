-- ===== src/Task/Wakers.antt =====
-- Waking a task of glommio/src/task/raw.rs, and what the calls of its wakers leave.
use glommio.Base.{◌+◌, ◌<◌, ◌≡◌, refl, true, false, some, arith, ap, ◌∙◌}
use glommio.Task.{
  live, Closure, queues, drops, gone, shut, accepting, Place, owner, foreign, max_references,
}
use glommio.Task.Machine.{
  Phase, queued, idle, polling, cancelled, disarmed, stale, over, complete, taken, View, flags,
  contents, is_active, runnables, own_references, total, task, scheduled_as, at_phase,
}
use glommio.Task.Ending.{schedule-queues, schedule-drops}
use glommio.Task.Moves.{wake_phase, wake_view}
use glommio.Task.Calls.{do_wake}
use glommio.Task.Cleanups.{foreign_by, one_more, clone_if_active}

wake_by :
    {A : Type 0} (c : Closure) (p : Phase A) (v : View A)
    → (is_active p ≡ true → 1 < total (at_phase p v))
    → total (at_phase p v) < max_references
    → do_wake c owner (task (at_phase p v)) ≡ some (live (task (wake_phase c p (at_phase p v))))
unfolding do_wake wake_phase task is_active flags scheduled_as contents runnables total
    own_references
wake_by c queued v h k = refl
wake_by queues idle v h k =
    schedule-queues false true v k
    ∙ ap (λ n. some (live (record (task (at_phase queued v)) { references = n }))) (omega arith)
wake_by drops idle v h k = schedule-drops false true v (h refl) k
wake_by c (polling true false) v h k = refl
wake_by c (polling false false) v h k = refl
wake_by c (polling again true) v h k = refl
wake_by c cancelled v h k = refl
wake_by c disarmed v h k = refl
wake_by c (stale again) v h k = refl
wake_by c over v h k = refl
wake_by c (complete a) v h k = refl
wake_by c taken v h k = refl

-- What do_wake does to a task, when the count has room and an active task is also held by another
-- than the caller: on the thread of the executor it schedules an idle task and marks one in a poll
-- that is not cancelled, on another thread it queues one more waker for an active task if the
-- notifier accepts it, and it changes nothing in all other cases.
pub do_wake_lem :
    {A : Type 0} (c : Closure) (p : Place) (v : View A)
    → (is_active v.phase ≡ true → 1 < total v)
    → total v < max_references
    → do_wake c p (task v) ≡ some (live (task (wake_view c p v)))
unfolding do_wake wake_view task total
do_wake_lem c owner v h k = wake_by c v.phase v h k
do_wake_lem c (foreign gone) v h k = refl
do_wake_lem c (foreign shut) v h k = clone_if_active v h k
do_wake_lem c (foreign accepting) v h k =
    let w = record v { wakes = v.wakes + 1 } in
    foreign_by (is_active v.phase) _ _ w v
      (λ e.
        one_more v (λ t. record t { wakes = t.wakes + 1 }) w (omega (arith, h e)) k
          (ap (λ n. record (task w) { references = n }) (omega arith)))
      refl
