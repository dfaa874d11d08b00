-- ===== src/Task/Leading.antt =====
-- Every permitted call on a task of glommio/src/task leads from one view of the machine to another.
use glommio.Base.{◌+◌, ◌<◌, ◌≡◌, refl, true, arith, ltb, ap, ◌∙◌, inl, inr, option_map}
use glommio.Task.{live, owner, foreign, drop_task, max_references}
use glommio.Task.Machine.{View, flags, runnables, total, task, Good}
use glommio.Task.Moves.{
  cancel_view, drop_view, cancel_in_place_view, drop_task_phase, run_phase, shutdown_phase,
  without_handle, poll_phase,
}
use glommio.Task.Cancel.{cancel_lem, cancel_in_place_lem}
use glommio.Task.Releases.{cancel_view-Good}
use glommio.Task.Cleanups.{active_total}
use glommio.Task.Calls.{run_start}
use glommio.Task.Keeps.{Keeps, cancel-Keeps, drop-Keeps, drop-Good}
use glommio.Task.Forms.{
  cancel_in_place-Fine, drop_task-Fine, run_start-Fine, shutdown-Fine, without_handle-Fine,
  poll-Fine,
}
use glommio.Task.Runs.{drop_task_lem, run_start_lem}
use glommio.Task.Shutdown.{shutdown_lem}
use glommio.Task.Handles.{drop_handle_lem, poll_handle_lem}
use glommio.Task.World.{
  Call, clones, wakes_by_ref, wakes, drops_waker, takes_wake, cleans, drops_cleanup, starts, polls,
  panics, drops_runnable, cancels, cancels_in_place, drops_handle, polls_handle, shuts_down,
  permitted, call, hears,
}
use glommio.Task.Steps.{
  Leads, ltb-less, drops_waker-Leads, wakes-Leads, drops_cleanup-Leads, cleans-Leads,
}
use glommio.Task.Alone.{cancel-kept, cancel_in_place-kept, drop-kept_view}
use glommio.Task.Alone.Executor.{drop_task-kept, run_start-kept, shutdown-kept, poll-kept}
use glommio.Task.Positive.{
  handle-total, waker-total, cancel-total, cancel_in_place-total, poll-handle,
}
use glommio.Task.Facts.{or_true, running-Polling, Polling-total, one_runnable, idle_handle}
use glommio.Task.Holding.{
  leads, pair, settled, same_queue, by_handle, idle-total, holder-total, linked-held, polls-Leads,
  panics-Leads, clones-Leads, takes_wake-Leads, wakes_by_ref-Leads,
}

-- In every view that a task can have, every permitted call runs to its end, without an abort, a
-- failed assertion or a read of what is not there, and leads to such a view again.
pub call_lem :
    {A : Type 0} (k : Call A) (v : View A)
    → Good v
    → permitted k (task v) v.wakers ≡ true
    → total v + 2 < max_references
    → Leads k v
unfolding permitted call task Keeps hears
call_lem clones v g e r = elim (or_true (ltb 0 v.wakers) (flags v.phase v.handle).running e) [
  | inl h ↦ clones-Leads v g (waker-total v (ltb-less v.wakers h)) (omega arith)
  | inr h ↦
      clones-Leads v g (omega (arith, Polling-total v (running-Polling v.phase v.handle h)))
        (omega arith)
]
call_lem (wakes_by_ref c owner) v g e r =
    elim (or_true (ltb 0 v.wakers) (flags v.phase v.handle).running e) [
      | inl h ↦
          let some_waker = ltb-less v.wakers h in
          wakes_by_ref-Leads c owner v g (λ a. active_total v.phase v a some_waker)
            (waker-total v some_waker) (omega arith)
      | inr h ↦
          let two = Polling-total v (running-Polling v.phase v.handle h) in
          wakes_by_ref-Leads c owner v g (λ a. two) (omega (arith, two)) (omega arith)
    ]
call_lem (wakes_by_ref c (foreign n)) v g e r =
    let some_waker = ltb-less v.wakers e in
    wakes_by_ref-Leads c (foreign n) v g (λ a. active_total v.phase v a some_waker)
      (waker-total v some_waker) (omega arith)
call_lem (wakes c p) v g e r = wakes-Leads c p v g (ltb-less v.wakers e) (omega arith)
call_lem (drops_waker c p) v g e r = drops_waker-Leads c p v g (ltb-less v.wakers e) (omega arith)
call_lem takes_wake v g e r = takes_wake-Leads v g (ltb-less v.wakes e)
call_lem (cleans c p) v g e r = cleans-Leads c p v g (ltb-less v.cleanups e) (omega arith)
call_lem (drops_cleanup c p) v g e r =
    drops_cleanup-Leads c p v g (ltb-less v.cleanups e) (omega arith)
call_lem starts v g e r =
    let h = ltb-less (runnables v.phase) e in
    leads starts v (run_phase v.phase v)
      (pair v.wakers (ap run_start (same_queue v h) ∙ run_start_lem v g (one_runnable v.phase h)))
      (run_start-Fine v g) (λ q e. run_start-kept v e)
call_lem (polls c p) v g e r = polls-Leads c p v.phase v (running-Polling v.phase v.handle e)
call_lem panics v g e r = panics-Leads v.phase v (running-Polling v.phase v.handle e)
call_lem drops_runnable v g e r =
    let h = ltb-less (runnables v.phase) e in
    leads drops_runnable v (drop_task_phase v.phase v)
      (pair v.wakers (ap drop_task (same_queue v h) ∙ drop_task_lem v g (one_runnable v.phase h)))
      (drop_task-Fine v g) (λ q e. drop_task-kept v e)
call_lem (cancels c) v g e r =
    let h = idle-total v e in
    leads (cancels c) v (cancel_view c v)
      (pair v.wakers (
        cancel_lem c v h (omega arith)
        ∙ settled (cancel_view c v) (cancel-total c v h (holder-total v e))))
      ((cancel-Keeps c v).0, cancel_view-Good c v g) (λ q e. cancel-kept c v e)
call_lem (cancels_in_place c) v g e r =
    let h = by_handle v e in
    leads (cancels_in_place c) v (cancel_in_place_view c v)
      (pair v.wakers (
        cancel_in_place_lem c v (idle_handle v.phase v h) (omega arith)
        ∙ settled (cancel_in_place_view c v) (cancel_in_place-total c v h)))
      (cancel_in_place-Fine c v g) (λ q e. cancel_in_place-kept c v e)
call_lem (drops_handle c) v g e r =
    let w = without_handle v in
    let fine = without_handle-Fine v g in
    leads (drops_handle c) v (drop_view c owner w)
      (pair v.wakers (drop_handle_lem c v g (by_handle v e) (omega arith)))
      ((drop-Keeps c owner w).0 ∙ fine.0, drop-Good c owner w fine.1)
      (λ q e. drop-kept_view c owner w refl)
call_lem (polls_handle w) v g e r =
    let u = (poll_phase w v.phase v).0 in
    leads (polls_handle w) v u
      (pair v.wakers (
        ap (option_map (λ r. live r.0)) (poll_handle_lem w v)
        ∙ settled u (handle-total u (poll-handle w v ∙ by_handle v e))))
      (poll-Fine w v g) (λ q e. poll-kept w v e)
call_lem shuts_down v g e r =
    leads shuts_down v (shutdown_phase v.phase v)
      (pair v.wakers (shutdown_lem v e (linked-held v g e) (omega arith))) (shutdown-Fine v g)
      (λ q e. shutdown-kept v e)
