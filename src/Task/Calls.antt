-- ===== src/Task/Calls.antt =====
-- glommio/src/task/raw.rs and join_handle.rs: what wakers, the runnable and the join handle do to
-- a task, in terms of the pieces of the parent module.
use glommio.Base.{
  ℕ, ◌+◌, ◌-◌, Bool, true, false, not, ◌&&◌, ◌||◌, Option, none, some, ◌==◌, if◌then◌else◌,
}
use glommio.Task.{
  Task, output, moved, Cell, live, Closure, Notifier, gone, shut, accepting, Place, owner, foreign,
  next, try, notify, register, increment_references, destroy, release_references, release,
  drop_future, read, take_output, cleanup_owner, finish, close, drop_task, schedule_owned, schedule,
  cancel,
}

-- `core::task::Poll`
pub data Poll (B : Type 0) : Type 0 where
  pending : Poll B
  ready : B → Poll B

-- The `compare_exchange` of the loop, whose round that succeeds is the one that counts.
unfoldable pub decrement : {A : Type 0} → Task A → Option (Cell A)
decrement t = some (live (record t { references = t.references - 1 }))

-- `drop_waker` on a foreign thread, which never comes to `do_cleanup`.
unfoldable pub drop_waker_foreign : {A : Type 0} → Notifier → Task A → Option (Cell A)
unfolding decrement destroy
drop_waker_foreign n t =
    if t.references == 0
    then none
    else if t.references == 1
    then destroy t
    else if t.references == 2 && t.active
    then elim n [
      | gone ↦ decrement t
      | shut ↦ decrement t
      | accepting ↦ some (live (record t { cleanups = t.cleanups + 1 }))
    ]
    else decrement t

-- `do_cleanup`; a notifier that is shut drops the waker that it is given.
unfoldable pub do_cleanup : {A : Type 0} → Closure → Place → Task A → Option (Cell A)
unfolding increment_references drop_waker_foreign cancel
do_cleanup c owner t =
    if not t.active
    then some (live t)
    else if not (t.state.handle || t.state.scheduled || t.state.running) && t.references == 2
    then cancel c t
    else some (live t)
do_cleanup c (foreign gone) t = some (live t)
do_cleanup c (foreign shut) t =
    if not t.active then some (live t) else try (increment_references t) (drop_waker_foreign shut)
do_cleanup c (foreign accepting) t =
    if not t.active
    then some (live t)
    else try (increment_references t) (λ t. some (live (record t { cleanups = t.cleanups + 1 })))

unfoldable pub drop_waker : {A : Type 0} → Closure → Place → Task A → Option (Cell A)
unfolding decrement destroy do_cleanup release drop_waker_foreign
drop_waker c owner t =
    if t.references == 0
    then none
    else if t.references == 1
    then destroy t
    else if t.references == 2 && t.active
    then next (do_cleanup c owner t) release
    else decrement t
drop_waker c (foreign n) t = drop_waker_foreign n t

-- `clone_waker` and `clone_cleanup_waker`
unfoldable pub clone_waker : {A : Type 0} → Task A → Option (Cell A)
unfolding increment_references
clone_waker t = try (increment_references t) (λ t. some (live t))

-- `do_wake`, which is also `wake_by_ref`.
unfoldable pub do_wake : {A : Type 0} → Closure → Place → Task A → Option (Cell A)
unfolding increment_references drop_waker_foreign schedule
do_wake c owner t =
    if not t.active
    then some (live t)
    else let s = t.state in
      if s.completed || s.closed || s.scheduled
      then some (live t)
      else let t = record t { state = record s { scheduled = true } } in
        if s.running then some (live t) else schedule c t
do_wake c (foreign gone) t = some (live t)
do_wake c (foreign shut) t =
    if not t.active then some (live t) else try (increment_references t) (drop_waker_foreign shut)
do_wake c (foreign accepting) t =
    if not t.active
    then some (live t)
    else try (increment_references t) (λ t. some (live (record t { wakes = t.wakes + 1 })))

-- The waker itself is dropped at the end.
unfoldable pub wake : {A : Type 0} → Closure → Place → Task A → Option (Cell A)
unfolding do_wake drop_waker
wake c p t = next (do_wake c p t) (drop_waker c p)

unfoldable pub wake_cleanup : {A : Type 0} → Closure → Place → Task A → Option (Cell A)
unfolding do_cleanup drop_waker
wake_cleanup c p t = next (do_cleanup c p t) (drop_waker c p)

unfoldable pub abandon : {A : Type 0} → Closure → Task A → Option (Cell A)
unfolding cancel
abandon c t =
    let s = t.state in
    if not (s.scheduled || s.running || s.closed || s.completed) && t.references == 2
    then cancel c t
    else some (live t)

-- The output that is taken is dropped last, after the task may have been freed.
unfoldable pub drop_handle : {A : Type 0} → Closure → Task A → Option (Cell A)
unfolding take_output destroy finish abandon drop_waker
drop_handle c t = elim (take_output (record t { state = record (t.state) { handle = false } })) [
  | none ↦ none
  | some (t, o) ↦
      if t.state.schedule_dropped && t.references == 1
      then destroy t
      else next (next (finish t) (abandon c)) (drop_waker c owner)
]

-- `run` up to the poll of the future, which follows if RUNNING is set.
unfoldable pub run_start : {A : Type 0} → Task A → Option (Cell A)
unfolding drop_task
run_start t =
    if t.state.closed || t.state.completed
    then drop_task t
    else some (live (record t { state = record (t.state) { scheduled = false; running = true } }))

-- Both references, of the runnable and of the registry, are released at once.
unfoldable pub run_end : {A : Type 0} → Closure → Task A → Option (Cell A)
unfolding cleanup_owner release_references drop_waker
run_end c t =
    let r = cleanup_owner t in if r.1 then release_references 2 r.0 else drop_waker c owner r.0

-- The output goes where the future was.
unfoldable pub store_output : {A : Type 0} → A → Task A → Option (Task A × Option A)
unfolding take_output
store_output a t =
    let s = record (t.state) { scheduled = false; completed = true; output_present = true } in
    let t = record t { union = output a; state = s } in
    if not s.handle || s.closed then take_output t else some (t, none)

unfoldable pub run_ready : {A : Type 0} → Closure → A → Task A → Option (Cell A)
unfolding drop_future store_output notify run_end
run_ready c a t = try (drop_future (record t { active = false })) (λ t. elim (store_output a t) [
  | none ↦ none
  | some (t, o) ↦
      run_end c (notify none (record t { state = record (t.state) { running = false } }))
])

unfoldable pub run_pending : {A : Type 0} → Closure → Task A → Option (Cell A) × Bool
unfolding drop_future notify run_end schedule_owned close
run_pending c t =
    if t.state.closed
    then (
      try (drop_future t) (λ t. run_end c (
          notify none
            (record t { state = record (t.state) { running = false; scheduled = false } }))),
      false,
    )
    else let t = record t { state = record (t.state) { running = false } } in
      if t.state.scheduled
      then (schedule_owned c t, true)
      else if not t.state.handle && t.references == 2
      then (next (close t) (run_end c), false)
      else (run_end c t, false)

-- The rest of `run`, with what the poll returned, and whether the task was scheduled again.
unfoldable pub run : {A : Type 0} → Closure → Poll A → Task A → Option (Cell A) × Bool
unfolding run_ready run_pending
run c (ready a) t = (run_ready c a t, false)
run c pending t = run_pending c t

-- The drop of `PollGuard`, when the poll panics.
unfoldable pub poll_guard : {A : Type 0} → Task A → Option (Cell A)
unfolding drop_future notify finish release
poll_guard t =
    try
      (drop_future
        (record t { state = record (t.state) { closed = true; running = true }; active = false }))
      (λ t.
        next
          (finish (
            notify none
              (record t { state = record (t.state) { running = false; scheduled = false } })))
          release)

-- One poll of the join handle by a task with the waker `w`.
unfoldable pub poll_handle : {A : Type 0} → ℕ → Task A → Option (Task A × Poll (Option A))
unfolding register notify read
poll_handle w t =
    let s = t.state in
    if s.closed
    then if not s.future_dropped || s.running
      then some (register w t, pending)
      else some (notify (some w) t, ready none)
    else if not s.completed
    then some (register w t, pending)
    else elim (read t.union) [
      | none ↦ none
      | some a ↦ some (
        record (notify (some w)
            (record t { state = record s { closed = true; output_present = false } })) {
              union = moved;
            },
        ready (some a),
      )
    ]
