-- ===== src/RwLock.antt =====
-- glommio/src/sync/rwlock.rs. Waiter nodes are cells of a store, as in Semaphore.antt: a node is
-- linked when `waiters_queue` holds its number, and a call returns the wakers that it calls.
-- `none` is a panic. The u32 counters wrap, as in a release build.
pub mod Wakes
pub mod Fibers
pub mod Queue
pub mod Steps
pub mod Guards
pub mod Drops
pub mod Exclusion
mod Tests
use glommio.Base.{
  ℕ, ◌+◌, ◌-◌, ◌%◌, ◌^◌, Bool, true, false, List, [], ◌∷◌, ◌++◌, Option, none, some, ltb, ◌==◌,
  ◌&&◌, ◌||◌, if◌then◌else◌, option_map, elem, remove, update,
}
use glommio.Errors
use glommio.Errors.{ok, err, closed, can_not_be_closed, would_block, ResourceType}

-- `LockResult` and `TryLockResult`
abbrev pub LockResult {ℓ} : Type ℓ → Type ℓ
LockResult A = Errors.Result (Unit {0}) A

pub data WaiterKind : Type 0 where
  reader writer : WaiterKind

-- `struct WaiterNode`
pub record WaiterNode : Type 0 where
  pub kind : WaiterKind
  pub waker : Option ℕ
  pub woken : Bool

-- `struct RwLock` with its `State` and the store of all waiter nodes.
pub record RwLock {ℓ} (A : Type ℓ) : Type ℓ where
  pub value : Option A
  pub writers : ℕ
  pub readers : ℕ
  pub queued_writers : ℕ
  pub waiters_queue : List ℕ
  pub is_shut : Bool
  pub nodes : ℕ → WaiterNode

pub data Poll {ℓ} (A : Type ℓ) : Type ℓ where
  ready : A → Poll A
  pending : Poll A

abbrev u32 : ℕ → ℕ
u32 n = n % 2 ^ 32

abbrev pub is_writer : WaiterKind → Bool
is_writer reader = false
is_writer writer = true

-- What a wake-up loop returns: the list, the store, `queued_writers`, and the wakers called.
abbrev pub Loop : Type 0
Loop = List ℕ × (ℕ → WaiterNode) × ℕ × List ℕ

call : ℕ → Loop → Loop
call k (ws, nodes, queued, wakes) = (ws, nodes, queued, k ∷ wakes)

-- A node that is woken: its waker is taken and its mark set.
abbrev pub woken_node : WaiterNode → WaiterNode
woken_node n = record n { waker = none; woken = true }

-- The loop of `wake_up_all_readers_till_first_writer`.
pub wake_till_writer : List ℕ → (ℕ → WaiterNode) → ℕ → Option Loop
unfolding call
wake_till_writer [] nodes queued = some ([], nodes, queued, [])
wake_till_writer (w ∷ ws) nodes queued = elim (is_writer (nodes w).kind) [
  | true ↦ some (w ∷ ws, nodes, queued, [])
  | false ↦ elim (nodes w).waker [
    | none ↦ none
    | some k ↦
        option_map (call k) (wake_till_writer ws (update nodes w (woken_node (nodes w))) queued)
  ]
]

-- The loop of `wake_up_readers_and_first_writer`.
pub wake_through_writer : List ℕ → (ℕ → WaiterNode) → ℕ → Option Loop
unfolding call
wake_through_writer [] nodes queued = some ([], nodes, queued, [])
wake_through_writer (w ∷ ws) nodes queued = elim (nodes w).waker [
  | none ↦ none
  | some k ↦ elim (is_writer (nodes w).kind) [
    | true ↦ some (ws, update nodes w (woken_node (nodes w)), u32 (queued + 2 ^ 32 - 1), k ∷ [])
    | false ↦
        option_map (call k) (wake_through_writer ws (update nodes w (woken_node (nodes w))) queued)
  ]
]

-- The loop of `wake_up_all_fibers`.
pub wake_all : List ℕ → (ℕ → WaiterNode) → ℕ → Option Loop
unfolding call
wake_all [] nodes queued = some ([], nodes, queued, [])
wake_all (w ∷ ws) nodes queued = elim (nodes w).waker [
  | none ↦ none
  | some k ↦ option_map (call k) (wake_all ws (update nodes w (woken_node (nodes w))) queued)
]

module _ {ℓ} {A : Type ℓ} where
  pub new : A → (ℕ → WaiterNode) → RwLock A
  new value nodes = record {
    value = some value;
    writers = 0;
    readers = 0;
    queued_writers = 0;
    waiters_queue = [];
    is_shut = false;
    nodes = nodes;
  }

  -- `Waiter::new`: a fresh node at the place `i`.
  pub new_waiter : RwLock A → ℕ → WaiterKind → RwLock A
  new_waiter lock i kind = record lock {
    nodes = update lock.nodes i (record { kind = kind; waker = none; woken = false });
  }

  pub remove_from_waiting_queue : RwLock A → ℕ → RwLock A
  remove_from_waiting_queue lock i =
      if elem i lock.waiters_queue
      then record lock { waiters_queue = remove i lock.waiters_queue }
      else lock

  pub enqueue : RwLock A → ℕ → WaiterKind → RwLock A
  enqueue lock i kind = record lock {
    queued_writers = if is_writer kind then u32 (lock.queued_writers + 1) else lock.queued_writers;
    waiters_queue = lock.waiters_queue ++ (i ∷ []);
  }

  pub register_in_waiting_queue : RwLock A → ℕ → ℕ → WaiterKind → RwLock A
  unfolding enqueue
  register_in_waiting_queue lock i waker kind =
      let lock' = record lock {
        nodes = update lock.nodes i (record (lock.nodes i) { waker = some waker });
      } in
      if elem i lock.waiters_queue then lock' else enqueue lock' i kind

  -- `State::try_read`
  pub state_try_read : RwLock A → LockResult (RwLock A × Bool)
  state_try_read lock =
      if lock.is_shut
      then err (closed ResourceType.rw_lock)
      else if lock.writers == 0
      then ok (record lock { readers = u32 (lock.readers + 1) }, true)
      else ok (lock, false)

  -- `State::try_write`
  pub state_try_write : RwLock A → LockResult (RwLock A × Bool)
  state_try_write lock =
      if lock.is_shut
      then err (closed ResourceType.rw_lock)
      else if (lock.readers == 0) && (lock.writers == 0)
      then ok (record lock { writers = u32 (lock.writers + 1) }, true)
      else ok (lock, false)

  -- The call that a waiter of this kind makes.
  pub try_kind : WaiterKind → RwLock A → LockResult (RwLock A × Bool)
  try_kind reader lock = state_try_read lock
  try_kind writer lock = state_try_write lock

  poll_with :
      RwLock A → ℕ → ℕ → LockResult (RwLock A × Bool) → RwLock A × Poll (LockResult (Unit {0}))
  poll_with lock i waker (err e) = (lock, ready (err e))
  poll_with lock i waker (ok (lock', true)) = (remove_from_waiting_queue lock' i, ready (ok tt))
  poll_with lock i waker (ok (lock', false)) =
      (register_in_waiting_queue lock' i waker (lock.nodes i).kind, pending)

  -- `poll` first clears the mark.
  pub unmark : RwLock A → ℕ → RwLock A
  unmark lock i = record lock {
    nodes = update lock.nodes i (record (lock.nodes i) { woken = false });
  }

  -- `Waiter::poll`
  pub poll : RwLock A → ℕ → ℕ → RwLock A × Poll (LockResult (Unit {0}))
  poll lock i waker =
      let lock' = unmark lock i in poll_with lock' i waker (try_kind (lock'.nodes i).kind lock')

  after_loop : RwLock A → Loop → RwLock A × List ℕ
  after_loop lock (ws, nodes, queued, wakes) =
      (record lock { waiters_queue = ws; nodes = nodes; queued_writers = queued }, wakes)

  -- The loop that `wake_up_fibers` runs, if any.
  pub choose_loop : RwLock A → Option Loop
  choose_loop lock =
      if (lock.readers == 0) && (lock.writers == 0)
      then (if lock.queued_writers == 0
          then wake_all lock.waiters_queue lock.nodes lock.queued_writers
          else wake_through_writer lock.waiters_queue lock.nodes lock.queued_writers)
      else if lock.writers == 0
      then (if lock.queued_writers == 0
          then wake_all lock.waiters_queue lock.nodes lock.queued_writers
          else wake_till_writer lock.waiters_queue lock.nodes lock.queued_writers)
      else some (lock.waiters_queue, lock.nodes, lock.queued_writers, [])

  pub wake_up_fibers : RwLock A → Option (RwLock A × List ℕ)
  unfolding after_loop
  wake_up_fibers lock = option_map (after_loop lock) (choose_loop lock)

  -- `Drop for Waiter`
  pub drop_waiter : RwLock A → ℕ → Option (RwLock A × List ℕ)
  drop_waiter lock i =
      if (lock.nodes i).woken
      then (if lock.is_shut then some (lock, []) else wake_up_fibers lock)
      else if elem i lock.waiters_queue
      then some (remove_from_waiting_queue lock i, [])
      else some (lock, [])

  -- `Drop for RwLockReadGuard`
  pub drop_read_guard : RwLock A → Option (RwLock A × List ℕ)
  drop_read_guard lock =
      if lock.is_shut
      then some (lock, [])
      else wake_up_fibers (record lock { readers = u32 (lock.readers + 2 ^ 32 - 1) })

  -- `Drop for RwLockWriteGuard`
  pub drop_write_guard : RwLock A → Option (RwLock A × List ℕ)
  drop_write_guard lock =
      if lock.is_shut
      then some (lock, [])
      else wake_up_fibers (record lock { writers = u32 (lock.writers + 2 ^ 32 - 1) })

  -- `read` and `write` up to their `await`: a guard, or a waiter of this kind at the place `i`.
  acquire_from :
      RwLock A
      → ℕ
      → WaiterKind
      → LockResult (RwLock A × Bool)
      → RwLock A × Poll (LockResult (Unit {0}))
  acquire_from lock i kind (err e) = (lock, ready (err e))
  acquire_from lock i kind (ok (lock', true)) = (lock', ready (ok tt))
  acquire_from lock i kind (ok (lock', false)) = (new_waiter lock' i kind, pending)

  pub read : RwLock A → ℕ → RwLock A × Poll (LockResult (Unit {0}))
  read lock i = acquire_from lock i reader (state_try_read lock)

  pub write : RwLock A → ℕ → RwLock A × Poll (LockResult (Unit {0}))
  write lock i = acquire_from lock i writer (state_try_write lock)

  guard_from : LockResult (RwLock A × Bool) → LockResult (RwLock A)
  guard_from (err e) = err e
  guard_from (ok (lock, true)) = ok lock
  guard_from (ok (lock, false)) = err (would_block ResourceType.rw_lock)

  -- `RwLock::try_read` and `RwLock::try_write`: the lock, with the guard counted in it.
  pub try_read : RwLock A → LockResult (RwLock A)
  unfolding guard_from
  try_read lock = guard_from (state_try_read lock)

  pub try_write : RwLock A → LockResult (RwLock A)
  unfolding guard_from
  try_write lock = guard_from (state_try_write lock)

  pub is_closed : RwLock A → Bool
  is_closed lock = lock.is_shut

  after_close : RwLock A → Loop → RwLock A × List ℕ × LockResult (Unit {0})
  after_close lock (ws, nodes, queued, wakes) = (
    record lock { is_shut = true; waiters_queue = ws; nodes = nodes; queued_writers = queued },
    wakes,
    ok tt,
  )

  pub close : RwLock A → Option (RwLock A × List ℕ × LockResult (Unit {0}))
  unfolding after_close
  close lock =
      if lock.is_shut
      then some (lock, [], ok tt)
      else if ltb 0 lock.writers || ltb 0 lock.readers
      then some (lock, [], err (can_not_be_closed ResourceType.rw_lock))
      else option_map (after_close lock)
          (wake_all lock.waiters_queue lock.nodes lock.queued_writers)

  -- `get_mut`: the value, for reading and writing.
  pub get_mut : RwLock A → LockResult (Option A)
  get_mut lock = if lock.is_shut then err (closed ResourceType.rw_lock) else ok lock.value

  inner_from : RwLock A × List ℕ × LockResult (Unit {0}) → Option (LockResult A)
  inner_from (lock, wakes, err e) = none
  inner_from (lock, wakes, ok _) = option_map ok lock.value

  then_inner : Option (RwLock A × List ℕ × LockResult (Unit {0})) → Option (LockResult A)
  then_inner none = none
  then_inner (some r) = inner_from r

  -- `into_inner`: closes the lock and takes the value out; either `unwrap` may panic.
  pub into_inner : RwLock A → Option (LockResult A)
  unfolding then_inner inner_from
  into_inner lock =
      if lock.is_shut then some (err (closed ResourceType.rw_lock)) else then_inner (close lock)
