-- ===== src/Task/Polls.antt =====
-- The end of a poll in `run` of glommio/src/task/raw.rs.
use glommio.Base.{
  ℕ, ◌+◌, ◌≡◌, refl, Bool, true, false, not, ◌&&◌, Option, some, ◌==◌, if◌then◌else◌, arith, sym,
  ap, ◌∙◌,
}
use glommio.Task.{
  Cell, Closure, queues, drops, owner, next, notify, drop_in_place, release_references, drop_future,
  read, take_output, cleanup_owner, finish, close, drop_task, call_closure, schedule_owned,
}
use glommio.Task.Machine.{
  queued, idle, polling, over, complete, taken, View, flags, contents, is_active, runnables,
  own_references, total, task, settle, tell, ends, scheduled_as, at_phase, Good, is_complete, more,
  is_idle,
}
use glommio.Task.Counts.{settle-live, release_lem, ends-Good}
use glommio.Task.Ending.{scheduling, schedule_owned-drops}
use glommio.Task.Moves.{is_abandoned, ready_view, pending_view}
use glommio.Task.Calls.{drop_waker, run_end, store_output, run_ready, run_pending}
use glommio.Task.Drops.{drop-kept}

taken-Good : {A : Type 0} (v : View A) → Good (ends taken v)
unfolding ends tell is_complete
taken-Good v = record { unlinked = λ h. refl; told = λ h. refl; wanted = λ h. absurd (cc) }

complete-Good : {A : Type 0} (a : A) (v : View A) → v.handle ≡ true → Good (ends (complete a) v)
unfolding ends tell is_complete
complete-Good a v e = record { unlinked = λ h. refl; told = λ h. refl; wanted = λ h. e }

-- Both references at once.
release-pair :
    {A : Type 0} (n : ℕ) (w : View A)
    → Good w
    → n ≡ total w + 2
    → release_references 2 (record (task w) { references = n }) ≡ some (settle w)
unfolding task
release-pair n w g e =
    ap (λ m. release_references 2 (record (task w) { references = m })) e ∙ release_lem 2 w g

run_ready_by :
    {A : Type 0} (c : Closure) (a : A) (again stopped h : Bool) (v : View A)
    → run_ready c a (task (at_phase (polling again stopped) (record v { handle = h })))
      ≡ some (settle (ready_view a stopped (record v { handle = h })))
unfolding run_ready drop_future drop_in_place store_output take_output read notify run_end
    cleanup_owner task flags contents runnables is_active total own_references ready_view ends tell
run_ready_by c a again true true v =
    release-pair (total (at_phase (polling again true) (record v { handle = true })))
      (ends taken (record v { handle = true })) (taken-Good (record v { handle = true }))
      (omega arith)
run_ready_by c a again false true v =
    release-pair (total (at_phase (polling again false) (record v { handle = true })))
      (ends (complete a) (record v { handle = true }))
      (complete-Good a (record v { handle = true }) refl) (omega arith)
run_ready_by c a again stopped false v =
    release-pair (total (at_phase (polling again stopped) (record v { handle = false })))
      (ends taken (record v { handle = false })) (taken-Good (record v { handle = false }))
      (omega arith)

pub run_ready_lem :
    {A : Type 0} (c : Closure) (a : A) (again stopped : Bool) (v : View A)
    → run_ready c a (task (at_phase (polling again stopped) v))
      ≡ some (settle (ready_view a stopped v))
run_ready_lem c a again stopped v = run_ready_by c a again stopped v.handle v

total_polling :
    {A : Type 0} (v : View A)
    → total (at_phase (polling true false) v) ≡ total (at_phase idle v) + 1
unfolding total own_references
total_polling v = omega arith

total-more :
    {A : Type 0} (v : View A)
    → total (at_phase (polling false false) v) ≡ total (more (at_phase idle v))
unfolding total own_references
total-more v = omega arith

pub not_left :
    {A : Type 0} (v : View A)
    → (not v.handle && total (at_phase (polling false false) v) == 2) ≡ false
    → is_abandoned (at_phase idle v) ≡ false
unfolding is_abandoned is_idle total own_references
not_left v e = ground arith

either_end :
    {A : Type 0} (b : Bool) (x y : Option (Cell A)) (v w : View A)
    → (b ≡ true → x ≡ some (settle v))
    → (b ≡ false → y ≡ some (settle w))
    → ◌≡◌ {A = Option (Cell A) × Bool}
        (if b then (x, false) else (y, false))
        (some (settle (if b then v else w)), false)
either_end true x y v w h k = ap (λ r. (r, false)) (h refl)
either_end false x y v w h k = ap (λ r. (r, false)) (k refl)

pub run_pending_lem :
    {A : Type 0} (c : Closure) (again stopped : Bool) (v : View A)
    → run_pending c (task (at_phase (polling again stopped) v))
      ≡ (some (settle (pending_view c again stopped v)), again && not stopped)
unfolding run_pending drop_future drop_in_place notify run_end cleanup_owner task flags contents
    runnables is_active total own_references pending_view ends tell scheduled_as schedule_owned
    call_closure finish close drop_task
run_pending_lem c true true v =
    ap (λ r. (r, false))
      (release-pair (total (at_phase (polling true true) v)) (ends over v) (ends-Good v)
        (omega arith))
run_pending_lem c false true v =
    ap (λ r. (r, false))
      (release-pair (total (at_phase (polling false true) v)) (ends over v) (ends-Good v)
        (omega arith))
run_pending_lem queues true false v =
    ap (λ r. (r, true)) (ap some (sym (settle-live (at_phase queued v) (omega arith))))
run_pending_lem drops true false v =
    ap (λ n. (schedule_owned drops (record (scheduling false true v) { references = n }), true))
      (total_polling v)
    ∙ ap (λ r. (r, true)) (schedule_owned-drops false true v)
run_pending_lem c false false v =
    let n = total (at_phase (polling false false) v) in
    let t = record (task (at_phase idle v)) { references = n } in
    either_end (not v.handle && n == 2) (next (close t) (run_end c)) (run_end c t) (ends over v)
      (at_phase idle v) (λ e. release-pair n (ends over v) (ends-Good v) (omega arith))
      (λ e.
        ap (λ m. drop_waker c owner (record (task (at_phase idle v)) { references = m }))
          (total-more v)
        ∙ drop-kept c owner (at_phase idle v) (omega arith) (not_left v e))
