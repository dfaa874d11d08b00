-- ===== src/Task/Forms.antt =====
-- The form of the view after the calls of the executor and of the handle, which leave the wakers in
-- other hands as they are.
use glommio.Base.{ℕ, ◌≡◌, refl, Bool, true, false, not, ◌&&◌, ◌||◌, ◌==◌, if◌then◌else◌}
use glommio.Task.{Closure, queues, drops}
use glommio.Task.Machine.{
  Phase, queued, idle, polling, cancelled, disarmed, stale, over, complete, taken, View, total,
  tell, ends, scheduled_as, at_phase, Good, is_held, is_complete,
}
use glommio.Task.Counts.{ends-Good}
use glommio.Task.Moves.{
  cancel_in_place_phase, cancel_in_place_view, drop_task_phase, run_phase, shutdown_phase,
  ready_view, pending_view, handle_phase, without_handle, poll_phase, hear,
}
use glommio.Task.Shutdown.{polling-Good, stale-Good}
use glommio.Task.Keeps.{held-Good}

abbrev pub Fine : {A : Type 0} → View A → View A → Type 0
Fine v w = (w.wakers ≡ v.wakers) × Good w

pub if-Fine :
    {A : Type 0} (b : Bool) (v w x : View A) → Fine v w → Fine v x → Fine v (if b then w else x)
if-Fine true v w x f g = f
if-Fine false v w x f g = g

in_place_by :
    {A : Type 0} (c : Closure) (p : Phase A) (v : View A)
    → Good (at_phase p v)
    → Fine (at_phase p v) (cancel_in_place_phase c p (at_phase p v))
unfolding cancel_in_place_phase tell ends is_held is_complete
in_place_by c queued v g = (
  refl,
  record { unlinked = λ h. absurd (cc); told = λ h. absurd (cc); wanted = λ h. absurd (cc) },
)
in_place_by queues idle v g = (
  refl,
  record { unlinked = λ h. absurd (cc); told = λ h. absurd (cc); wanted = λ h. absurd (cc) },
)
in_place_by drops idle v g = (refl, ends-Good v)
in_place_by c (polling again true) v g = (refl, g)
in_place_by c (polling again false) v g = (
  refl,
  record { unlinked = λ h. absurd (cc); told = λ h. absurd (cc); wanted = λ h. absurd (cc) },
)
in_place_by c cancelled v g = (
  refl,
  record { unlinked = λ h. absurd (cc); told = λ h. absurd (cc); wanted = λ h. absurd (cc) },
)
in_place_by c disarmed v g = (refl, g)
in_place_by c (stale again) v g = (refl, g)
in_place_by c over v g = (refl, g)
in_place_by c (complete a) v g = (refl, g)
in_place_by c taken v g = (refl, g)

pub cancel_in_place-Fine :
    {A : Type 0} (c : Closure) (v : View A) → Good v → Fine v (cancel_in_place_view c v)
unfolding cancel_in_place_view
cancel_in_place-Fine c v g = in_place_by c v.phase v g

drop_task_by :
    {A : Type 0} (p : Phase A) (v : View A)
    → Good (at_phase p v)
    → Fine (at_phase p v) (drop_task_phase p (at_phase p v))
unfolding drop_task_phase ends tell is_held is_complete
drop_task_by queued v g = (refl, ends-Good v)
drop_task_by idle v g = (refl, g)
drop_task_by (polling again stopped) v g = (refl, g)
drop_task_by cancelled v g = (refl, ends-Good v)
drop_task_by disarmed v g = (refl, ends-Good v)
drop_task_by (stale again) v g =
    (refl, record { unlinked = g.unlinked; told = λ h. refl; wanted = λ h. absurd (cc) })
drop_task_by over v g = (refl, g)
drop_task_by (complete a) v g = (refl, g)
drop_task_by taken v g = (refl, g)

pub drop_task-Fine : {A : Type 0} (v : View A) → Good v → Fine v (drop_task_phase v.phase v)
drop_task-Fine v g = drop_task_by v.phase v g

run_start_by :
    {A : Type 0} (p : Phase A) (v : View A)
    → Good (at_phase p v)
    → Fine (at_phase p v) (run_phase p (at_phase p v))
unfolding run_phase
run_start_by queued v g = (refl, polling-Good false false v)
run_start_by idle v g = (refl, g)
run_start_by (polling again stopped) v g = (refl, g)
run_start_by cancelled v g = drop_task_by cancelled v g
run_start_by disarmed v g = drop_task_by disarmed v g
run_start_by (stale again) v g = drop_task_by (stale again) v g
run_start_by over v g = (refl, g)
run_start_by (complete a) v g = (refl, g)
run_start_by taken v g = (refl, g)

pub run_start-Fine : {A : Type 0} (v : View A) → Good v → Fine v (run_phase v.phase v)
run_start-Fine v g = run_start_by v.phase v g

shutdown_by :
    {A : Type 0} (p : Phase A) (v : View A)
    → Good (at_phase p v)
    → Fine (at_phase p v) (shutdown_phase p (at_phase p v))
unfolding shutdown_phase ends
shutdown_by queued v g = (refl, stale-Good false v)
shutdown_by idle v g = (refl, ends-Good v)
shutdown_by (polling again stopped) v g =
    (refl, polling-Good again true (record v { linked = false }))
shutdown_by cancelled v g = (refl, stale-Good false v)
shutdown_by disarmed v g = (refl, stale-Good false v)
shutdown_by (stale again) v g = (refl, g)
shutdown_by over v g = (refl, g)
shutdown_by (complete a) v g = (refl, g)
shutdown_by taken v g = (refl, g)

pub shutdown-Fine : {A : Type 0} (v : View A) → Good v → Fine v (shutdown_phase v.phase v)
shutdown-Fine v g = shutdown_by v.phase v g

ready_by :
    {A : Type 0} (a : A) (stopped h : Bool) (v : View A)
    → v.handle ≡ h
    → Good (if not h || stopped then ends taken v else ends (complete a) v)
unfolding ends tell is_complete
ready_by a stopped false v e = record {
  unlinked = λ h. refl;
  told = λ h. refl;
  wanted = λ h. absurd (cc);
}
ready_by a true true v e = record {
  unlinked = λ h. refl;
  told = λ h. refl;
  wanted = λ h. absurd (cc);
}
ready_by a false true v e = record { unlinked = λ h. refl; told = λ h. refl; wanted = λ h. e }

wakers_if :
    {A : Type 0} (b : Bool) (v w : View A)
    → v.wakers ≡ w.wakers
    → (if b then v else w).wakers ≡ w.wakers
wakers_if true v w e = e
wakers_if false v w e = refl

pub ready-Fine :
    {A : Type 0} (a : A) (stopped : Bool) (v : View A) → Fine v (ready_view a stopped v)
unfolding ready_view ends
ready-Fine a stopped v = (
  wakers_if (not v.handle || stopped) (ends taken v) (ends (complete a) v) refl,
  ready_by a stopped v.handle v refl,
)

pub pending-Fine :
    {A : Type 0} (c : Closure) (again stopped : Bool) (v : View A)
    → Fine v (pending_view c again stopped v)
unfolding pending_view ends scheduled_as is_held is_complete
pending-Fine c true true v = (refl, ends-Good v)
pending-Fine c false true v = (refl, ends-Good v)
pending-Fine queues true false v = (refl, held-Good (at_phase queued v) refl refl)
pending-Fine drops true false v = (refl, ends-Good v)
pending-Fine c false false v =
    if-Fine (not v.handle && total (at_phase (polling false false) v) == 2) v (ends over v)
      (at_phase idle v) (refl, ends-Good v) (refl, held-Good (at_phase idle v) refl refl)

handle_by :
    {A : Type 0} (p : Phase A) (v : View A)
    → Good (at_phase p v)
    → Fine (at_phase p v) (record (handle_phase p (at_phase p v)) { handle = false })
unfolding handle_phase ends is_complete is_held tell
handle_by queued v g =
    (refl, record { unlinked = g.unlinked; told = g.told; wanted = λ h. absurd (cc) })
handle_by idle v g =
    (refl, record { unlinked = g.unlinked; told = g.told; wanted = λ h. absurd (cc) })
handle_by (polling again stopped) v g =
    (refl, record { unlinked = g.unlinked; told = g.told; wanted = λ h. absurd (cc) })
handle_by cancelled v g =
    (refl, record { unlinked = g.unlinked; told = g.told; wanted = λ h. absurd (cc) })
handle_by disarmed v g = (refl, stale-Good true (record v { handle = false }))
handle_by (stale again) v g =
    (refl, record { unlinked = g.unlinked; told = g.told; wanted = λ h. absurd (cc) })
handle_by over v g =
    (refl, record { unlinked = g.unlinked; told = g.told; wanted = λ h. absurd (cc) })
handle_by (complete a) v g =
    (refl, record { unlinked = g.unlinked; told = g.told; wanted = λ h. absurd (cc) })
handle_by taken v g =
    (refl, record { unlinked = g.unlinked; told = g.told; wanted = λ h. absurd (cc) })

pub without_handle-Fine : {A : Type 0} (v : View A) → Good v → Fine v (without_handle v)
unfolding without_handle
without_handle-Fine v g = handle_by v.phase v g

poll_by :
    {A : Type 0} (w : ℕ) (p : Phase A) (v : View A)
    → Good (at_phase p v)
    → Fine (at_phase p v) (poll_phase w p (at_phase p v)).0
unfolding poll_phase hear is_held is_complete
poll_by w queued v g = (
  refl,
  record { unlinked = λ h. absurd (cc); told = λ h. absurd (cc); wanted = λ h. absurd (cc) },
)
poll_by w idle v g = (
  refl,
  record { unlinked = λ h. absurd (cc); told = λ h. absurd (cc); wanted = λ h. absurd (cc) },
)
poll_by w (polling again stopped) v g = (
  refl,
  record { unlinked = λ h. absurd (cc); told = λ h. absurd (cc); wanted = λ h. absurd (cc) },
)
poll_by w cancelled v g = (
  refl,
  record { unlinked = λ h. absurd (cc); told = λ h. absurd (cc); wanted = λ h. absurd (cc) },
)
poll_by w disarmed v g =
    (refl, record { unlinked = g.unlinked; told = λ h. refl; wanted = λ h. absurd (cc) })
poll_by w (stale again) v g =
    (refl, record { unlinked = g.unlinked; told = λ h. refl; wanted = λ h. absurd (cc) })
poll_by w over v g =
    (refl, record { unlinked = g.unlinked; told = λ h. refl; wanted = λ h. absurd (cc) })
poll_by w (complete a) v g =
    (refl, record { unlinked = g.unlinked; told = λ h. refl; wanted = λ h. absurd (cc) })
poll_by w taken v g =
    (refl, record { unlinked = g.unlinked; told = λ h. refl; wanted = λ h. absurd (cc) })

pub poll-Fine : {A : Type 0} (w : ℕ) (v : View A) → Good v → Fine v (poll_phase w v.phase v).0
poll-Fine w v g = poll_by w v.phase v g
