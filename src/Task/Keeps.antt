-- ===== src/Task/Keeps.antt =====
-- What the operations of the machine keep: the wakers in other hands, the form of the view, and the
-- size of the count.
use glommio.Base.{ℕ, ◌+◌, ◌≤◌, ◌≡◌, refl, Bool, true, false, not, ◌&&◌, ◌==◌, if◌then◌else◌, arith}
use glommio.Task.{Closure, queues, drops, gone, shut, accepting, Place, owner, foreign}
use glommio.Task.Machine.{
  Phase, queued, idle, polling, cancelled, disarmed, stale, over, complete, taken, View, is_active,
  own_references, total, tell, ends, scheduled_as, at_phase, Good, is_held, is_complete, is_idle,
}
use glommio.Task.Counts.{ends-Good}
use glommio.Task.Moves.{
  cancel_phase, cancel_view, is_abandoned, drop_view, cleanup_view, wake_phase, wake_view,
}
use glommio.Task.Releases.{cancel_view-Good}
use glommio.Task.Shutdown.{polling-Good}

-- The wakers stay where they are, and at most one reference is new.
unfoldable pub Keeps : {A : Type 0} → View A → View A → Type 0
unfolding total
Keeps v w = (w.wakers ≡ v.wakers) × (total w ≤ total v + 1)

scheduled_as-Keeps :
    {A : Type 0} (c : Closure) (p : Phase A) (v : View A)
    → own_references p ≤ own_references v.phase + 1
    → Keeps v (scheduled_as c p v)
unfolding scheduled_as ends tell total own_references Keeps
scheduled_as-Keeps queues p v h = ground arith
scheduled_as-Keeps drops p v h = ground arith

cancel_by-Keeps :
    {A : Type 0} (c : Closure) (p : Phase A) (v : View A)
    → Keeps (at_phase p v) (cancel_phase c p (at_phase p v))
unfolding cancel_phase tell scheduled_as ends own_references total Keeps
cancel_by-Keeps c queued v = ground arith
cancel_by-Keeps queues idle v = ground arith
cancel_by-Keeps drops idle v = ground arith
cancel_by-Keeps c (polling again true) v = ground arith
cancel_by-Keeps c (polling again false) v = ground arith
cancel_by-Keeps c cancelled v = ground arith
cancel_by-Keeps c disarmed v = ground arith
cancel_by-Keeps c (stale again) v = ground arith
cancel_by-Keeps c over v = ground arith
cancel_by-Keeps c (complete a) v = ground arith
cancel_by-Keeps c taken v = ground arith

pub cancel-Keeps : {A : Type 0} (c : Closure) (v : View A) → Keeps v (cancel_view c v)
unfolding cancel_view
cancel-Keeps c v = cancel_by-Keeps c v.phase v

wake_by-Keeps :
    {A : Type 0} (c : Closure) (p : Phase A) (v : View A)
    → Keeps (at_phase p v) (wake_phase c p (at_phase p v))
unfolding wake_phase scheduled_as ends tell own_references total Keeps
wake_by-Keeps c queued v = ground arith
wake_by-Keeps queues idle v = ground arith
wake_by-Keeps drops idle v = ground arith
wake_by-Keeps c (polling again true) v = ground arith
wake_by-Keeps c (polling again false) v = ground arith
wake_by-Keeps c cancelled v = ground arith
wake_by-Keeps c disarmed v = ground arith
wake_by-Keeps c (stale again) v = ground arith
wake_by-Keeps c over v = ground arith
wake_by-Keeps c (complete a) v = ground arith
wake_by-Keeps c taken v = ground arith

if-Keeps : {A : Type 0} (b : Bool) (v w : View A) → Keeps v w → Keeps v (if b then w else v)
unfolding total Keeps
if-Keeps true v w k = k
if-Keeps false v w k = (refl, omega arith)

pub wake-Keeps : {A : Type 0} (c : Closure) (p : Place) (v : View A) → Keeps v (wake_view c p v)
unfolding wake_view total Keeps
wake-Keeps c owner v = wake_by-Keeps c v.phase v
wake-Keeps c (foreign gone) v = (refl, omega arith)
wake-Keeps c (foreign shut) v = (refl, omega arith)
wake-Keeps c (foreign accepting) v =
    if-Keeps (is_active v.phase) v (record v { wakes = v.wakes + 1 }) (refl, omega arith)

pub cleanup-Keeps :
    {A : Type 0} (c : Closure) (p : Place) (v : View A) → Keeps v (cleanup_view c p v)
unfolding cleanup_view total Keeps
cleanup-Keeps c owner v =
    if-Keeps (is_idle v.phase && (not v.handle && total v == 2)) v (cancel_view c v)
      (cancel-Keeps c v)
cleanup-Keeps c (foreign gone) v = (refl, omega arith)
cleanup-Keeps c (foreign shut) v = (refl, omega arith)
cleanup-Keeps c (foreign accepting) v =
    if-Keeps (is_active v.phase) v (record v { cleanups = v.cleanups + 1 }) (refl, omega arith)

pub drop-Keeps : {A : Type 0} (c : Closure) (p : Place) (v : View A) → Keeps v (drop_view c p v)
unfolding drop_view total Keeps
drop-Keeps c owner v = if-Keeps (is_abandoned v) v (cancel_view c v) (cancel-Keeps c v)
drop-Keeps c (foreign gone) v = (refl, omega arith)
drop-Keeps c (foreign shut) v = (refl, omega arith)
drop-Keeps c (foreign accepting) v =
    if-Keeps (is_abandoned v) v (record v { cleanups = v.cleanups + 1 }) (refl, omega arith)

pub if-Good : {A : Type 0} (b : Bool) (v w : View A) → Good w → Good v → Good (if b then w else v)
if-Good true v w g h = g
if-Good false v w g h = h

pub held-Good :
    {A : Type 0} (v : View A) → is_held v.phase ≡ true → is_complete v.phase ≡ false → Good v
held-Good v e f = record {
  unlinked = λ h. absurd (cc);
  told = λ h. absurd (cc);
  wanted = λ h. absurd (cc);
}

-- Good says nothing of the counts.
pub same-Good :
    {A : Type 0} (v : View A) (wakers wakes cleanups : ℕ)
    → Good v
    → Good (record v { wakers = wakers; wakes = wakes; cleanups = cleanups })
same-Good v n w k g = record { unlinked = g.unlinked; told = g.told; wanted = g.wanted }

wake_by-Good :
    {A : Type 0} (c : Closure) (p : Phase A) (v : View A)
    → Good (at_phase p v)
    → Good (wake_phase c p (at_phase p v))
unfolding wake_phase scheduled_as is_held is_complete Keeps
wake_by-Good c queued v g = g
wake_by-Good queues idle v g = held-Good (at_phase queued v) refl refl
wake_by-Good drops idle v g = ends-Good v
wake_by-Good c (polling again true) v g = g
wake_by-Good c (polling again false) v g = polling-Good true false v
wake_by-Good c cancelled v g = g
wake_by-Good c disarmed v g = g
wake_by-Good c (stale again) v g = g
wake_by-Good c over v g = g
wake_by-Good c (complete a) v g = g
wake_by-Good c taken v g = g

pub wake-Good :
    {A : Type 0} (c : Closure) (p : Place) (v : View A) → Good v → Good (wake_view c p v)
unfolding wake_view Keeps
wake-Good c owner v g = wake_by-Good c v.phase v g
wake-Good c (foreign gone) v g = g
wake-Good c (foreign shut) v g = g
wake-Good c (foreign accepting) v g =
    if-Good (is_active v.phase) v (record v { wakes = v.wakes + 1 })
      (same-Good v v.wakers (v.wakes + 1) v.cleanups g) g

pub cleanup-Good :
    {A : Type 0} (c : Closure) (p : Place) (v : View A) → Good v → Good (cleanup_view c p v)
unfolding cleanup_view Keeps
cleanup-Good c owner v g =
    if-Good (is_idle v.phase && (not v.handle && total v == 2)) v (cancel_view c v)
      (cancel_view-Good c v g) g
cleanup-Good c (foreign gone) v g = g
cleanup-Good c (foreign shut) v g = g
cleanup-Good c (foreign accepting) v g =
    if-Good (is_active v.phase) v (record v { cleanups = v.cleanups + 1 })
      (same-Good v v.wakers v.wakes (v.cleanups + 1) g) g

pub drop-Good :
    {A : Type 0} (c : Closure) (p : Place) (v : View A) → Good v → Good (drop_view c p v)
unfolding drop_view Keeps
drop-Good c owner v g = if-Good (is_abandoned v) v (cancel_view c v) (cancel_view-Good c v g) g
drop-Good c (foreign gone) v g = g
drop-Good c (foreign shut) v g = g
drop-Good c (foreign accepting) v g =
    if-Good (is_abandoned v) v (record v { cleanups = v.cleanups + 1 })
      (same-Good v v.wakers v.wakes (v.cleanups + 1) g) g
