-- ===== src/Task/Cancel.antt =====
-- Cancelling a task of glommio/src/task/raw.rs.
use glommio.Base.{◌<◌, ◌≡◌, refl, true, false, Option, none, some, if◌then◌else◌, arith, ap, ◌∙◌}
use glommio.Task.{
  Task, Cell, live, Closure, queues, drops, next, try, notify, drop_in_place, drop_future, cancel,
  max_references, cancel_in_place,
}
use glommio.Task.Machine.{
  Phase, queued, idle, polling, cancelled, disarmed, stale, over, complete, taken, View, flags,
  contents, is_active, runnables, own_references, total, task, tell, ends, scheduled_as, at_phase,
  is_idle,
}
use glommio.Task.Ending.{schedule-queues, schedule-drops}
use glommio.Task.Moves.{cancel_phase, cancel_view, cancel_in_place_phase, cancel_in_place_view}

cancel_by :
    {A : Type 0} (c : Closure) (p : Phase A) (v : View A)
    → (is_idle p ≡ true → 1 < total (at_phase p v))
    → total (at_phase p v) < max_references
    → cancel c (task (at_phase p v)) ≡ some (live (task (cancel_phase c p (at_phase p v))))
unfolding is_idle flags contents is_active runnables own_references total task cancel notify
    cancel_phase tell scheduled_as ends
cancel_by c queued v k r = refl
cancel_by queues idle v k r =
    ap (λ r. next r (λ t. some (live (notify none t)))) (schedule-queues true false v r)
    ∙ ap (λ n. some (live (record (task (tell cancelled v)) { references = n }))) (omega arith)
cancel_by drops idle v k r =
    ap (λ r. next r (λ t. some (live (notify none t)))) (schedule-drops true false v (k refl) r)
cancel_by c (polling true false) v k r = refl
cancel_by c (polling false false) v k r = refl
cancel_by c (polling again true) v k r = refl
cancel_by c cancelled v k r = refl
cancel_by c disarmed v k r = refl
cancel_by c (stale again) v k r = refl
cancel_by c over v k r = refl
cancel_by c (complete a) v k r = refl
cancel_by c taken v k r = refl

pub cancel_lem :
    {A : Type 0} (c : Closure) (v : View A)
    → (is_idle v.phase ≡ true → 1 < total v)
    → total v < max_references
    → cancel c (task v) ≡ some (live (task (cancel_view c v)))
unfolding cancel_view
cancel_lem c v k r = cancel_by c v.phase v k r

disarm : {A : Type 0} → Task A → Option (Cell A)
unfolding drop_future drop_in_place
disarm t =
    if t.state.running
    then some (live t)
    else try (drop_future (record t { state = record (t.state) { running = true } }))
        (λ t. some (live (record t { state = record (t.state) { running = false } })))

cancel_in_place_by :
    {A : Type 0} (c : Closure) (p : Phase A) (v : View A)
    → (is_idle p ≡ true → 1 < total (at_phase p v))
    → total (at_phase p v) < max_references
    → cancel_in_place c (task (at_phase p v))
      ≡ some (live (task (cancel_in_place_phase c p (at_phase p v))))
unfolding is_idle flags contents is_active runnables own_references total task cancel_in_place
    cancel_phase cancel_in_place_phase tell scheduled_as ends drop_future drop_in_place disarm
cancel_in_place_by c queued v k r = ap (λ r. next r disarm) (cancel_by c queued v k r)
cancel_in_place_by queues idle v k r = ap (λ r. next r disarm) (cancel_by queues idle v k r)
cancel_in_place_by drops idle v k r = ap (λ r. next r disarm) (cancel_by drops idle v k r)
cancel_in_place_by c (polling again false) v k r =
    ap (λ r. next r disarm) (cancel_by c (polling again false) v k r)
cancel_in_place_by c (polling again true) v k r =
    ap (λ r. next r disarm) (cancel_by c (polling again true) v k r)
cancel_in_place_by c cancelled v k r = ap (λ r. next r disarm) (cancel_by c cancelled v k r)
cancel_in_place_by c disarmed v k r = ap (λ r. next r disarm) (cancel_by c disarmed v k r)
cancel_in_place_by c (stale again) v k r = ap (λ r. next r disarm) (cancel_by c (stale again) v k r)
cancel_in_place_by c over v k r = ap (λ r. next r disarm) (cancel_by c over v k r)
cancel_in_place_by c (complete a) v k r = ap (λ r. next r disarm) (cancel_by c (complete a) v k r)
cancel_in_place_by c taken v k r = ap (λ r. next r disarm) (cancel_by c taken v k r)

pub cancel_in_place_lem :
    {A : Type 0} (c : Closure) (v : View A)
    → (is_idle v.phase ≡ true → 1 < total v)
    → total v < max_references
    → cancel_in_place c (task v) ≡ some (live (task (cancel_in_place_view c v)))
unfolding cancel_in_place_view
cancel_in_place_lem c v k r = cancel_in_place_by c v.phase v k r
