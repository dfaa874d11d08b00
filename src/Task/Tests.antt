-- ===== src/Task/Tests.antt =====
-- One task of glommio/src/task in short runs.
use glommio.Base.{ℕ, ◌+◌, ◌≤◌, ◌<◌, ◌≡◌, refl, false, none, some, arith}
use glommio.Task.{
  Task, moved, Cell, live, freed, queues, owner, notify, increment_references, destroy,
  drop_in_place, release_references, release, drop_future, take_output, cleanup_owner, finish,
  close, drop_task, call_closure, schedule_owned, schedule, cancel, allocate,
}
use glommio.Task.Calls.{
  pending, ready, do_cleanup, drop_waker, decrement, clone_waker, do_wake, run_start, run,
  run_pending, run_end, drop_handle, abandon,
}
use glommio.Task.Machine.{
  Phase, queued, idle, polling, cancelled, over, View, flags, contents, is_active, runnables,
  own_references, total, task, settle, one_if, Good, is_held, is_complete,
}
use glommio.Task.Moves.{drop_view, wake_view, without_handle}
use glommio.Task.World.{
  heard, permitted, call, starts, polls, drops_handle, clones, drops_waker, hears,
}
use glommio.Task.Reached.{Reach, start, later, first}
use glommio.Task.Safety.{held, Reach-runs, Reach-counted, Reach-freed}
use glommio.Task.Wakers.{do_wake_lem}
use glommio.Task.Handles.{drop_handle_lem}
use glommio.Task.Kept.{Reach-awaited}

abbrev at : Phase ℕ → View ℕ
at p = record first { phase = p }

spawned : Reach heard (live (task (at queued))) 0
unfolding schedule_owned allocate call_closure task flags contents is_active runnables total
    own_references
spawned = start queues refl

polled : Reach heard (live (task (at (polling false false)))) 0
unfolding task flags contents is_active runnables total own_references heard permitted call
    run_start
polled = later starts spawned refl refl (omega arith) refl

-- The poll leaves a waker somewhere.
held_once : Reach heard (live (task (record (at (polling false false)) { wakers = 1 }))) 1
unfolding task flags contents is_active runnables total own_references heard permitted call
    clone_waker increment_references
held_once = later clones polled refl refl (omega arith) refl

abbrev alone : Phase ℕ → ℕ → View ℕ
alone p n = record (at p) { handle = false; wakers = n }

detached : Reach heard (live (task (alone (polling false false) 1))) 1
unfolding task flags contents is_active runnables total own_references heard permitted call
    drop_handle take_output finish cleanup_owner abandon drop_waker decrement
detached = later (drops_handle queues) held_once refl refl (omega arith) refl

waiting : Reach heard (live (task (alone idle 1))) 1
unfolding task flags contents is_active runnables total own_references heard permitted call run
    run_pending run_end cleanup_owner drop_waker decrement
waiting = later (polls queues pending) detached refl refl (omega arith) refl

-- The last waker goes, so the task is cancelled, and its runnable cleans it up.
forgotten : Reach heard (live (task (alone cancelled 0))) 0
unfolding task flags contents is_active runnables total own_references heard hears permitted call
    drop_waker do_cleanup cancel schedule increment_references schedule_owned call_closure finish
    cleanup_owner release release_references notify
forgotten = later (drops_waker queues owner) waiting refl refl (omega arith) refl

ended : Reach heard (freed (task (record (alone over 0) { linked = false }))) 0
unfolding task flags contents is_active runnables total own_references heard permitted call
    run_start drop_task close drop_future drop_in_place finish cleanup_owner release
    release_references destroy notify
ended = later starts forgotten refl refl (omega arith) refl

Reach-runs_example :
    (x : Cell ℕ) × (m : ℕ) × (call (polls queues (ready 7)) (task (alone (polling false false) 1)) 1
      ≡ (some x, m))
unfolding task flags contents is_active runnables total own_references permitted
Reach-runs_example = Reach-runs (polls queues (ready 7)) detached refl (omega arith)

abbrev now : Task ℕ
unfolding task
now = task (alone idle 1)

Reach-counted_example :
    (now.references ≡ held now 1)
    × (0 < now.references)
    × (now.queue + one_if now.state.running ≤ 1)
unfolding now task
Reach-counted_example = Reach-counted waiting

abbrev last : Task ℕ
unfolding task
last = task (record (alone over 0) { linked = false })

Reach-freed_example :
    (◌≡◌ {A = ℕ} 0 0)
    × (last.queue ≡ 0)
    × (last.wakes ≡ 0)
    × (last.cleanups ≡ 0)
    × (last.state.handle ≡ false)
    × (last.state.running ≡ false)
    × (last.linked ≡ false)
    × (last.awaiter ≡ none)
    × (last.union ≡ moved)
unfolding last task
Reach-freed_example = Reach-freed ended

Reach-awaited_example : 0 < one_if now.state.handle + (1 + now.wakes + now.cleanups)
unfolding now task flags is_active
Reach-awaited_example = Reach-awaited waiting refl refl refl

-- An idle task with one waker, which nobody has a handle of.
do_wake_lem_example :
    do_wake queues owner (task (alone idle 1))
    ≡ some (live (task (wake_view queues owner (alone idle 1))))
unfolding total own_references
do_wake_lem_example = do_wake_lem queues owner (alone idle 1) (λ e. omega arith) (omega arith)

idle-Good : Good (at idle)
unfolding is_held is_complete
idle-Good = record { unlinked = λ h. absurd (cc); told = λ h. refl; wanted = λ h. absurd (cc) }

drop_handle_lem_example :
    drop_handle queues (task (at idle))
    ≡ some (settle (drop_view queues owner (without_handle (at idle))))
unfolding total own_references
drop_handle_lem_example = drop_handle_lem queues (at idle) idle-Good refl (omega arith)
