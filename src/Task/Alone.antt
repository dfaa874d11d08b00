-- ===== src/Task/Alone.antt =====
-- No call on a task of glommio/src/task leaves it idle with nobody who could wake it, unless a
-- foreign thread drops the last waker when the executor no longer listens.
pub mod Executor
use glommio.Base.{
  ℕ, ◌+◌, ◌≡◌, refl, Bool, true, false, not, ◌&&◌, ◌||◌, ◌==◌, if◌then◌else◌, arith, ap, ◌∙◌, inl,
  inr, Bool-cases,
}
use glommio.Task.{Closure, queues, drops, gone, shut, accepting, Place, owner, foreign}
use glommio.Task.Machine.{
  Phase, queued, idle, polling, cancelled, disarmed, stale, over, complete, taken, View, is_active,
  own_references, total, tell, ends, scheduled_as, at_phase, more, is_idle,
}
use glommio.Task.Moves.{
  cancel_phase, cancel_view, is_abandoned, drop_view, wake_phase, wake_view, cancel_in_place_phase,
  cancel_in_place_view, drop_task_phase, run_phase, shutdown_phase, ready_view, pending_view,
  poll_phase, hear,
}
use glommio.Task.Polls.{not_left}
use glommio.Task.World.{hears}

more_by : {A : Type 0} (p : Phase A) (v : View A) → is_abandoned (more (at_phase p v)) ≡ false
unfolding is_abandoned is_idle total own_references
more_by queued v = refl
more_by idle v = ground arith
more_by (polling again true) v = refl
more_by (polling again false) v = refl
more_by cancelled v = refl
more_by disarmed v = refl
more_by (stale again) v = refl
more_by over v = refl
more_by (complete a) v = refl
more_by taken v = refl

pub more-kept : {A : Type 0} (v : View A) → is_abandoned (more v) ≡ false
more-kept v = more_by v.phase v

cancel_by :
    {A : Type 0} (c : Closure) (p : Phase A) (v : View A)
    → is_abandoned (at_phase p v) ≡ false
    → is_abandoned (cancel_phase c p (at_phase p v)) ≡ false
unfolding cancel_phase tell scheduled_as ends is_abandoned is_idle
cancel_by c queued v e = refl
cancel_by queues idle v e = refl
cancel_by drops idle v e = refl
cancel_by c (polling again true) v e = refl
cancel_by c (polling again false) v e = refl
cancel_by c cancelled v e = refl
cancel_by c disarmed v e = refl
cancel_by c (stale again) v e = refl
cancel_by c over v e = refl
cancel_by c (complete a) v e = refl
cancel_by c taken v e = refl

pub cancel-kept :
    {A : Type 0} (c : Closure) (v : View A)
    → is_abandoned v ≡ false
    → is_abandoned (cancel_view c v) ≡ false
unfolding cancel_view
cancel-kept c v e = cancel_by c v.phase v e

in_place_by :
    {A : Type 0} (c : Closure) (p : Phase A) (v : View A)
    → is_abandoned (at_phase p v) ≡ false
    → is_abandoned (cancel_in_place_phase c p (at_phase p v)) ≡ false
unfolding cancel_in_place_phase tell ends is_abandoned is_idle
in_place_by c queued v e = refl
in_place_by queues idle v e = refl
in_place_by drops idle v e = refl
in_place_by c (polling again true) v e = refl
in_place_by c (polling again false) v e = refl
in_place_by c cancelled v e = refl
in_place_by c disarmed v e = refl
in_place_by c (stale again) v e = refl
in_place_by c over v e = refl
in_place_by c (complete a) v e = refl
in_place_by c taken v e = refl

pub cancel_in_place-kept :
    {A : Type 0} (c : Closure) (v : View A)
    → is_abandoned v ≡ false
    → is_abandoned (cancel_in_place_view c v) ≡ false
unfolding cancel_in_place_view
cancel_in_place-kept c v e = in_place_by c v.phase v e

wake_by :
    {A : Type 0} (c : Closure) (p : Phase A) (v : View A)
    → is_abandoned (at_phase p v) ≡ false
    → is_abandoned (wake_phase c p (at_phase p v)) ≡ false
unfolding wake_phase scheduled_as ends tell is_abandoned is_idle
wake_by c queued v e = refl
wake_by queues idle v e = refl
wake_by drops idle v e = refl
wake_by c (polling again true) v e = refl
wake_by c (polling again false) v e = refl
wake_by c cancelled v e = refl
wake_by c disarmed v e = refl
wake_by c (stale again) v e = refl
wake_by c over v e = refl
wake_by c (complete a) v e = refl
wake_by c taken v e = refl

pub if-kept :
    {A : Type 0} (b : Bool) (v w : View A)
    → is_abandoned v ≡ false
    → is_abandoned w ≡ false
    → is_abandoned (if b then v else w) ≡ false
if-kept true v w e f = e
if-kept false v w e f = f

noted_by :
    {A : Type 0} (p : Phase A) (v : View A)
    → is_abandoned (record v { phase = p; wakes = v.wakes + 1 }) ≡ false
unfolding is_abandoned is_idle total own_references
noted_by queued v = refl
noted_by idle v = ground arith
noted_by (polling again true) v = refl
noted_by (polling again false) v = refl
noted_by cancelled v = refl
noted_by disarmed v = refl
noted_by (stale again) v = refl
noted_by over v = refl
noted_by (complete a) v = refl
noted_by taken v = refl

cleaned_by :
    {A : Type 0} (p : Phase A) (v : View A)
    → is_abandoned (record v { phase = p; cleanups = v.cleanups + 1 }) ≡ false
unfolding is_abandoned is_idle total own_references
cleaned_by queued v = refl
cleaned_by idle v = ground arith
cleaned_by (polling again true) v = refl
cleaned_by (polling again false) v = refl
cleaned_by cancelled v = refl
cleaned_by disarmed v = refl
cleaned_by (stale again) v = refl
cleaned_by over v = refl
cleaned_by (complete a) v = refl
cleaned_by taken v = refl

pub wake-kept :
    {A : Type 0} (c : Closure) (p : Place) (v : View A)
    → is_abandoned v ≡ false
    → is_abandoned (wake_view c p v) ≡ false
unfolding wake_view
wake-kept c owner v e = wake_by c v.phase v e
wake-kept c (foreign gone) v e = e
wake-kept c (foreign shut) v e = e
wake-kept c (foreign accepting) v e =
    if-kept (is_active v.phase) (record v { wakes = v.wakes + 1 }) v (noted_by v.phase v) e

cancelled_by :
    {A : Type 0} (c : Closure) (p : Phase A) (v : View A)
    → is_abandoned (at_phase p v) ≡ true
    → is_abandoned (cancel_phase c p (at_phase p v)) ≡ false
unfolding cancel_phase tell scheduled_as ends is_abandoned is_idle
cancelled_by c queued v e = absurd (cc)
cancelled_by queues idle v e = refl
cancelled_by drops idle v e = refl
cancelled_by c (polling again true) v e = absurd (cc)
cancelled_by c (polling again false) v e = absurd (cc)
cancelled_by c cancelled v e = absurd (cc)
cancelled_by c disarmed v e = absurd (cc)
cancelled_by c (stale again) v e = absurd (cc)
cancelled_by c over v e = absurd (cc)
cancelled_by c (complete a) v e = absurd (cc)
cancelled_by c taken v e = absurd (cc)

pub drop-kept_view :
    {A : Type 0} (c : Closure) (p : Place) (v : View A)
    → hears p ≡ true
    → is_abandoned (drop_view c p v) ≡ false
unfolding drop_view hears cancel_view
drop-kept_view c owner v h = elim (Bool-cases (is_abandoned v)) [
  | inl e ↦ ap (λ b. is_abandoned (if b then cancel_view c v else v)) e ∙ cancelled_by c v.phase v e
  | inr e ↦ ap (λ b. is_abandoned (if b then cancel_view c v else v)) e ∙ e
]
drop-kept_view c (foreign gone) v h = absurd (cc)
drop-kept_view c (foreign shut) v h = absurd (cc)
drop-kept_view c (foreign accepting) v h =
    let w = record v { cleanups = v.cleanups + 1 } in
    elim (Bool-cases (is_abandoned v)) [
      | inl e ↦ ap (λ b. is_abandoned (if b then w else v)) e ∙ cleaned_by v.phase v
      | inr e ↦ ap (λ b. is_abandoned (if b then w else v)) e ∙ e
    ]
