-- ===== src/Task/World.antt =====
-- The calls that a task of glommio/src/task can get: those of wakers on any thread, of the notifier,
-- of the executor and of the join handle. `wakers` counts those in anybody's hands.
use glommio.Base.{ℕ, ◌+◌, ◌-◌, Bool, true, false, ◌||◌, Option, some, ltb, option_map}
use glommio.Task.{
  Task, Cell, live, Closure, Place, owner, foreign, gone, shut, accepting, drop_task, cancel,
  cancel_in_place, shutdown,
}
use glommio.Task.Calls.{
  Poll, clone_waker, do_wake, wake, drop_waker, wake_cleanup, run_start, run, poll_guard,
  drop_handle, poll_handle,
}

-- The last arguments say what the schedule closure does, on which thread the call is made, and what
-- a poll returns.
pub data Call (A : Type 0) : Type 0 where
  clones : Call A
  wakes_by_ref : Closure → Place → Call A
  wakes : Closure → Place → Call A
  drops_waker : Closure → Place → Call A
  takes_wake : Call A
  cleans : Closure → Place → Call A
  drops_cleanup : Closure → Place → Call A
  starts : Call A
  polls : Closure → Poll A → Call A
  panics : Call A
  drops_runnable : Call A
  cancels : Closure → Call A
  cancels_in_place : Closure → Call A
  drops_handle : Closure → Call A
  polls_handle : ℕ → Call A
  shuts_down : Call A

-- Whether the executor hears of a waker that is dropped.
unfoldable pub hears : Place → Bool
hears owner = true
hears (foreign gone) = false
hears (foreign shut) = false
hears (foreign accepting) = true

unfoldable pub heard : {A : Type 0} → Call A → Bool
unfolding hears
heard clones = true
heard (wakes_by_ref c p) = true
heard (wakes c p) = hears p
heard (drops_waker c p) = hears p
heard takes_wake = true
heard (cleans c p) = hears p
heard (drops_cleanup c p) = hears p
heard starts = true
heard (polls c r) = true
heard panics = true
heard drops_runnable = true
heard (cancels c) = true
heard (cancels_in_place c) = true
heard (drops_handle c) = true
heard (polls_handle w) = true
heard shuts_down = true

-- Who may make the call: the holder of a waker, of a runnable, of the handle. During a poll the
-- future has a waker that is not counted.
unfoldable pub permitted : {A : Type 0} → Call A → Task A → ℕ → Bool
permitted clones t n = ltb 0 n || t.state.running
permitted (wakes_by_ref c owner) t n = ltb 0 n || t.state.running
permitted (wakes_by_ref c (foreign x)) t n = ltb 0 n
permitted (wakes c p) t n = ltb 0 n
permitted (drops_waker c p) t n = ltb 0 n
permitted takes_wake t n = ltb 0 t.wakes
permitted (cleans c p) t n = ltb 0 t.cleanups
permitted (drops_cleanup c p) t n = ltb 0 t.cleanups
permitted starts t n = ltb 0 t.queue
permitted (polls c r) t n = t.state.running
permitted panics t n = t.state.running
permitted drops_runnable t n = ltb 0 t.queue
permitted (cancels c) t n = t.state.handle || ltb 0 t.queue
permitted (cancels_in_place c) t n = t.state.handle
permitted (drops_handle c) t n = t.state.handle
permitted (polls_handle w) t n = t.state.handle
permitted shuts_down t n = t.linked

-- The task after the call, and the wakers that are then in anybody's hands.
unfoldable pub call : {A : Type 0} → Call A → Task A → ℕ → Option (Cell A) × ℕ
unfolding clone_waker do_wake wake drop_waker wake_cleanup run_start run poll_guard drop_task cancel
    cancel_in_place drop_handle poll_handle shutdown
call clones t n = (clone_waker t, n + 1)
call (wakes_by_ref c p) t n = (do_wake c p t, n)
call (wakes c p) t n = (wake c p t, n - 1)
call (drops_waker c p) t n = (drop_waker c p t, n - 1)
call takes_wake t n = (some (live (record t { wakes = t.wakes - 1 })), n + 1)
call (cleans c p) t n = (wake_cleanup c p (record t { cleanups = t.cleanups - 1 }), n)
call (drops_cleanup c p) t n = (drop_waker c p (record t { cleanups = t.cleanups - 1 }), n)
call starts t n = (run_start (record t { queue = t.queue - 1 }), n)
call (polls c r) t n = ((run c r t).0, n)
call panics t n = (poll_guard t, n)
call drops_runnable t n = (drop_task (record t { queue = t.queue - 1 }), n)
call (cancels c) t n = (cancel c t, n)
call (cancels_in_place c) t n = (cancel_in_place c t, n)
call (drops_handle c) t n = (drop_handle c t, n)
call (polls_handle w) t n = (option_map (λ r. live r.0) (poll_handle w t), n)
call shuts_down t n = (shutdown t, n)
