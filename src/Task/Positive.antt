-- ===== src/Task/Positive.antt =====
-- The calls after which somebody still holds a reference on the task of glommio/src/task.
use glommio.Base.{ℕ, ◌+◌, ◌<◌, ◌≡◌, refl, Bool, true, false, if◌then◌else◌, arith, ap}
use glommio.Task.{Closure, queues, drops, gone, shut, accepting, Place, owner, foreign}
use glommio.Task.Machine.{
  Phase, queued, idle, polling, cancelled, disarmed, stale, over, complete, taken, View, is_active,
  own_references, total, tell, ends, scheduled_as, one_if, at_phase, is_idle,
}
use glommio.Task.Moves.{
  cancel_phase, cancel_view, wake_phase, wake_view, cancel_in_place_phase, cancel_in_place_view,
  poll_phase, hear,
}

pub handle-total : {A : Type 0} (v : View A) → v.handle ≡ true → 0 < total v
unfolding total
handle-total v h = omega (arith, ap one_if h)

pub waker-total : {A : Type 0} (v : View A) → 0 < v.wakers → 0 < total v
unfolding total
waker-total v h = omega arith

cancel_by :
    {A : Type 0} (c : Closure) (p : Phase A) (v : View A)
    → (is_idle p ≡ true → 1 < total (at_phase p v))
    → 0 < total (at_phase p v)
    → 0 < total (cancel_phase c p (at_phase p v))
unfolding cancel_phase tell scheduled_as ends is_idle total own_references
cancel_by c queued v h k = omega arith
cancel_by queues idle v h k = omega arith
cancel_by drops idle v h k = omega (arith, h refl)
cancel_by c (polling again true) v h k = k
cancel_by c (polling again false) v h k = omega arith
cancel_by c cancelled v h k = k
cancel_by c disarmed v h k = k
cancel_by c (stale again) v h k = k
cancel_by c over v h k = k
cancel_by c (complete a) v h k = k
cancel_by c taken v h k = k

pub cancel-total :
    {A : Type 0} (c : Closure) (v : View A)
    → (is_idle v.phase ≡ true → 1 < total v)
    → 0 < total v
    → 0 < total (cancel_view c v)
unfolding cancel_view
cancel-total c v h k = cancel_by c v.phase v h k

in_place_by :
    {A : Type 0} (c : Closure) (p : Phase A) (v : View A)
    → v.handle ≡ true
    → 0 < total (cancel_in_place_phase c p (at_phase p v))
unfolding cancel_in_place_phase tell ends total own_references
in_place_by c queued v h = omega (arith, ap one_if h)
in_place_by queues idle v h = omega arith
in_place_by drops idle v h = omega (arith, ap one_if h)
in_place_by c (polling again true) v h = omega (arith, ap one_if h)
in_place_by c (polling again false) v h = omega (arith, ap one_if h)
in_place_by c cancelled v h = omega (arith, ap one_if h)
in_place_by c disarmed v h = omega (arith, ap one_if h)
in_place_by c (stale again) v h = omega (arith, ap one_if h)
in_place_by c over v h = omega (arith, ap one_if h)
in_place_by c (complete a) v h = omega (arith, ap one_if h)
in_place_by c taken v h = omega (arith, ap one_if h)

pub cancel_in_place-total :
    {A : Type 0} (c : Closure) (v : View A) → v.handle ≡ true → 0 < total (cancel_in_place_view c v)
unfolding cancel_in_place_view
cancel_in_place-total c v h = in_place_by c v.phase v h

wake_by :
    {A : Type 0} (c : Closure) (p : Phase A) (v : View A)
    → (is_active p ≡ true → 1 < total (at_phase p v))
    → 0 < total (at_phase p v)
    → 0 < total (wake_phase c p (at_phase p v))
unfolding wake_phase scheduled_as ends tell is_active total own_references
wake_by c queued v h k = k
wake_by queues idle v h k = omega arith
wake_by drops idle v h k = omega (arith, h refl)
wake_by c (polling again true) v h k = k
wake_by c (polling again false) v h k = omega arith
wake_by c cancelled v h k = k
wake_by c disarmed v h k = k
wake_by c (stale again) v h k = k
wake_by c over v h k = k
wake_by c (complete a) v h k = k
wake_by c taken v h k = k

if-total :
    {A : Type 0} (b : Bool) (v w : View A)
    → 0 < total v
    → 0 < total w
    → 0 < total (if b then v else w)
if-total true v w h k = h
if-total false v w h k = k

pub wake-total :
    {A : Type 0} (c : Closure) (p : Place) (v : View A)
    → (is_active v.phase ≡ true → 1 < total v)
    → 0 < total v
    → 0 < total (wake_view c p v)
unfolding wake_view total
wake-total c owner v h k = wake_by c v.phase v h k
wake-total c (foreign gone) v h k = k
wake-total c (foreign shut) v h k = k
wake-total c (foreign accepting) v h k =
    if-total (is_active v.phase) (record v { wakes = v.wakes + 1 }) v (omega arith) k

poll_by :
    {A : Type 0} (w : ℕ) (p : Phase A) (v : View A)
    → (poll_phase w p (at_phase p v)).0.handle ≡ v.handle
unfolding poll_phase hear
poll_by w queued v = refl
poll_by w idle v = refl
poll_by w (polling again true) v = refl
poll_by w (polling again false) v = refl
poll_by w cancelled v = refl
poll_by w disarmed v = refl
poll_by w (stale again) v = refl
poll_by w over v = refl
poll_by w (complete a) v = refl
poll_by w taken v = refl

pub poll-handle : {A : Type 0} (w : ℕ) (v : View A) → (poll_phase w v.phase v).0.handle ≡ v.handle
poll-handle w v = poll_by w v.phase v
