-- ===== src/Task.antt =====
-- glommio/src/task/state.rs, header.rs, raw.rs, task_impl.rs and join_handle.rs: one task, as its
-- header and its union of future and output. A call is one step, and what user code does in it is
-- an argument: the schedule closure puts the runnable in a queue or drops it, a poll is begun and
-- ended by two calls. `none` is an abort, a failed assertion or a read of memory that is not there.
pub mod Calls
pub mod Machine
pub mod Moves
pub mod Counts
pub mod Ending
pub mod Cancel
pub mod Releases
pub mod Cleanups
pub mod Drops
pub mod Wakers
pub mod Runs
pub mod Shutdown
pub mod Polls
pub mod Unowned
pub mod Handles
pub mod Keeps
pub mod Forms
pub mod World
pub mod Alone
pub mod Steps
pub mod Facts
pub mod Positive
pub mod Holding
pub mod Leading
pub mod Reached
pub mod Safety
pub mod Kept
mod Tests
use glommio.Base.{
  ℕ, suc, ◌+◌, ◌-◌, ◌^◌, Bool, true, false, not, ◌&&◌, ◌||◌, List, [], ◌∷◌, ◌++◌, Option, none,
  some, ltb, ◌==◌, if◌then◌else◌, is_some,
}

-- The bits of `state`.
pub record State : Type 0 where
  pub scheduled : Bool
  pub running : Bool
  pub completed : Bool
  pub closed : Bool
  pub handle : Bool
  pub future_dropped : Bool
  pub schedule_dropped : Bool
  pub output_present : Bool

-- The union of the future and its output.
pub data Union (A : Type 0) : Type 0 where
  future : Union A
  moved : Union A
  output : A → Union A

-- `struct Header` with the union behind it, and with what is in other hands: the runnables in the
-- queue of the executor, the wakers and the cleanup wakers in the queue of the notifier, and the
-- awaiters that have been woken.
pub record Task (A : Type 0) : Type 0 where
  pub state : State
  pub references : ℕ
  pub active : Bool
  pub linked : Bool
  pub scheduling : Bool
  pub awaiter : Option ℕ
  pub union : Union A
  pub queue : ℕ
  pub wakes : ℕ
  pub cleanups : ℕ
  pub woken : List ℕ

pub data Cell (A : Type 0) : Type 0 where
  live : Task A → Cell A
  freed : Task A → Cell A

-- What the schedule closure does with a runnable.
pub data Closure : Type 0 where
  queues : Closure
  drops : Closure

pub data Notifier : Type 0 where
  gone : Notifier
  shut : Notifier
  accepting : Notifier

-- The thread of a call: that of the executor, or another with what `notifier` finds there.
pub data Place : Type 0 where
  owner : Place
  foreign : Notifier → Place

-- `RefCount::MAX`
abbrev pub max_references : ℕ
max_references = 2 ^ 31 - 1

-- The next piece of code, which reads the header.
abbrev pub next : {A : Type 0} → Option (Cell A) → (Task A → Option (Cell A)) → Option (Cell A)
next none f = none
next (some (freed t)) f = none
next (some (live t)) f = f t

abbrev pub try : {A : Type 0} → Option (Task A) → (Task A → Option (Cell A)) → Option (Cell A)
try none f = none
try (some t) f = f t

-- A waker is its number, so `will_wake` is equality.
pub call_waker : Option ℕ → Option ℕ → List ℕ → List ℕ
call_waker none current woken = woken
call_waker (some w) none woken = woken ++ (w ∷ [])
call_waker (some w) (some c) woken = if not (w == c) then woken ++ (w ∷ []) else woken

-- `Header::notify`
pub notify : {A : Type 0} → Option ℕ → Task A → Task A
unfolding call_waker
notify current t = record t { awaiter = none; woken = call_waker t.awaiter current t.woken }

-- `Header::register`
pub register : {A : Type 0} → ℕ → Task A → Task A
register w t = record t { awaiter = some w }

-- The first references are those of the runnable, the handle and the registry.
pub allocate : {A : Type 0} → Task A
allocate = record {
  state = record {
    scheduled = true;
    running = false;
    completed = false;
    closed = false;
    handle = true;
    future_dropped = false;
    schedule_dropped = false;
    output_present = false;
  };
  references = 3;
  active = true;
  linked = true;
  scheduling = false;
  awaiter = none;
  union = future;
  queue = 0;
  wakes = 0;
  cleanups = 0;
  woken = [];
}

pub increment_references : {A : Type 0} → Task A → Option (Task A)
increment_references t =
    if t.references == 0 || t.references == max_references
    then none
    else some (record t { references = t.references + 1 })

-- After this the header is gone, and with it the count.
pub destroy : {A : Type 0} → Task A → Option (Cell A)
destroy t =
    let s = t.state in
    if s.future_dropped
      && s.schedule_dropped
      && not s.output_present
      && not s.handle
      && not t.linked
      && not (is_some t.awaiter)
    then some (freed (record t { references = 0 }))
    else none

pub release_references : {A : Type 0} → ℕ → Task A → Option (Cell A)
unfolding destroy
release_references n t =
    if ltb t.references n
    then none
    else if t.references == n
    then destroy (record t { references = 0 })
    else some (live (record t { references = t.references - n }))

pub release : {A : Type 0} → Task A → Option (Cell A)
unfolding release_references
release t = release_references 1 t

pub drop_in_place : {A : Type 0} → Union A → Option (Union A)
drop_in_place future = some moved
drop_in_place moved = none
drop_in_place (output a) = none

-- The destructor of the future makes no call on its own task.
pub drop_future : {A : Type 0} → Task A → Option (Task A)
unfolding drop_in_place
drop_future t = if t.state.future_dropped then some t else elim (drop_in_place t.union) [
  | none ↦ none
  | some u ↦ some (record t { state = record (t.state) { future_dropped = true }; union = u })
]

-- `output.read()`
pub read : {A : Type 0} → Union A → Option A
read future = none
read moved = none
read (output a) = some a

pub take_output : {A : Type 0} → Task A → Option (Task A × Option A)
unfolding read
take_output t =
    if t.state.output_present
    then elim (read t.union) [
      | none ↦ none
      | some a ↦ some (
        record t {
          state = record (t.state) { output_present = false; closed = true };
          union = moved;
        },
        some a,
      )
    ]
    else some (t, none)

-- The schedule closure is dropped; `remove` unlinks the task.
pub cleanup_owner : {A : Type 0} → Task A → Task A × Bool
unfolding notify
cleanup_owner t =
    let s = t.state in
    if s.schedule_dropped || not s.future_dropped || s.running || t.scheduling
    then (t, false)
    else (
      notify none (record t {
        active = false;
        state = record s { schedule_dropped = true };
        linked = false;
      }),
      true,
    )

pub finish : {A : Type 0} → Task A → Option (Cell A)
unfolding cleanup_owner release
finish t = let r = cleanup_owner t in if r.1 then release r.0 else some (live r.0)

-- RUNNING is set around the destructor of the future.
pub close : {A : Type 0} → Task A → Option (Cell A)
unfolding drop_future notify
close t =
    let t = record t { state = record (t.state) { closed = true }; active = false } in
    if t.state.running
    then some (live t)
    else try
        (drop_future (record t { state = record (t.state) { scheduled = false; running = true } }))
        (λ t. some (live (notify none (record t { state = record (t.state) { running = false } }))))

pub drop_task : {A : Type 0} → Task A → Option (Cell A)
unfolding close finish release
drop_task t = next (next (close t) finish) release

-- The closure gets the runnable, whose drop is `drop_task`.
pub call_closure : {A : Type 0} → Closure → Task A → Option (Cell A)
unfolding drop_task
call_closure queues t = some (live (record t { queue = t.queue + 1 }))
call_closure drops t = drop_task t

pub schedule_owned : {A : Type 0} → Closure → Task A → Option (Cell A)
unfolding release call_closure finish
schedule_owned c t =
    if t.state.schedule_dropped
    then release t
    else next (call_closure c (record t { scheduling = true }))
        (λ u. finish (record u { scheduling = t.scheduling }))

pub schedule : {A : Type 0} → Closure → Task A → Option (Cell A)
unfolding increment_references schedule_owned
schedule c t = try (increment_references t) (schedule_owned c)

pub cancel : {A : Type 0} → Closure → Task A → Option (Cell A)
unfolding schedule notify
cancel c t =
    let s = t.state in
    if s.completed || s.closed
    then some (live t)
    else let t = record t { state = record s { closed = true }; active = false } in
      next
        (if s.scheduled || s.running
          then some (live t)
          else schedule c (record t { state = record (t.state) { scheduled = true } }))
        (λ t. some (live (notify none t)))

pub cancel_in_place : {A : Type 0} → Closure → Task A → Option (Cell A)
unfolding cancel drop_future
cancel_in_place c t = next (cancel c t) (λ t.
    if t.state.running
    then some (live t)
    else try (drop_future (record t { state = record (t.state) { running = true } }))
        (λ t. some (live (record t { state = record (t.state) { running = false } }))))

-- `remove` asserts that the task is linked.
pub unlink_and_close : {A : Type 0} → Task A → Option (Cell A)
unfolding close finish release
unlink_and_close t =
    if t.linked then next (next (close (record t { linked = false })) finish) release else none

pub shutdown : {A : Type 0} → Task A → Option (Cell A)
unfolding increment_references unlink_and_close
shutdown t = try (increment_references t) unlink_and_close
