-- ===== src/Semaphore.antt =====
-- glommio/src/sync/semaphore.rs. The pinned waiter nodes are cells of a store, found by their
-- number; the intrusive list holds numbers, and a node is linked when the list holds its number.
-- A waker is a number too: a call returns the wakers that it calls, in order. `none` is a panic.
pub mod Wakes
pub mod Invariant
pub mod Cancel
pub mod Units
pub mod Conservation
mod Tests
use glommio.Base.{
  ℕ, ◌+◌, ◌-◌, ◌%◌, ◌^◌, Bool, true, false, List, [], ◌∷◌, ◌++◌, Option, none, some, leb, ◌==◌,
  if◌then◌else◌, option_map, elem, remove, is_empty, update,
}
use glommio.Errors
use glommio.Errors.{ok, err, closed, would_block, ResourceType}

-- `type Result<T>`
abbrev pub Result : Type 0 → Type 0
Result A = Errors.Result (Unit {0}) A

-- `struct WaiterNode`; its link is the membership in `waiters_list`.
pub record WaiterNode : Type 0 where
  pub units : ℕ
  pub waker : Option ℕ
  pub woken : Bool

-- `struct SemaphoreState`, with the store of all waiter nodes. `avail` is a u64.
pub record Semaphore : Type 0 where
  pub avail : ℕ
  pub is_shut : Bool
  pub waiters_list : List ℕ
  pub nodes : ℕ → WaiterNode

pub data Poll {ℓ} (A : Type ℓ) : Type ℓ where
  ready : A → Poll A
  pending : Poll A

pub new : ℕ → (ℕ → WaiterNode) → Semaphore
new avail nodes = record { avail = avail; is_shut = false; waiters_list = []; nodes = nodes }

pub available : Semaphore → ℕ
available s = s.avail

-- `Waiter::new`: a fresh node at the place `i`.
pub new_waiter : Semaphore → ℕ → ℕ → Semaphore
new_waiter s i units = record s {
  nodes = update s.nodes i (record { units = units; waker = none; woken = false });
}

pub remove_from_waiting_queue : Semaphore → ℕ → Semaphore
remove_from_waiting_queue s i =
    if elem i s.waiters_list then record s { waiters_list = remove i s.waiters_list } else s

pub register_in_waiting_queue : Semaphore → ℕ → ℕ → Semaphore
register_in_waiting_queue s i waker =
    let s' = record s { nodes = update s.nodes i (record (s.nodes i) { waker = some waker }) } in
    if elem i s.waiters_list then s' else record s' { waiters_list = s.waiters_list ++ (i ∷ []) }

-- `SemaphoreState::try_acquire`
pub state_try_acquire : Semaphore → ℕ → Result (Semaphore × Bool)
state_try_acquire s units =
    if s.is_shut
    then err (closed (ResourceType.semaphore units s.avail))
    else if leb units s.avail
    then ok (record s { avail = s.avail - units }, true)
    else ok (s, false)

-- The result of `poll`, from that of `state_try_acquire`.
poll_with : Semaphore → ℕ → ℕ → Result (Semaphore × Bool) → Semaphore × Poll (Result (Unit {0}))
unfolding remove_from_waiting_queue register_in_waiting_queue
poll_with s i waker (err e) = (remove_from_waiting_queue s i, ready (err e))
poll_with s i waker (ok (s', true)) = (remove_from_waiting_queue s' i, ready (ok tt))
poll_with s i waker (ok (s', false)) = (register_in_waiting_queue s' i waker, pending)

-- `poll` first clears the mark.
unmark : Semaphore → ℕ → Semaphore
unmark s i = record s { nodes = update s.nodes i (record (s.nodes i) { woken = false }) }

-- `Waiter::poll`
pub poll : Semaphore → ℕ → ℕ → Semaphore × Poll (Result (Unit {0}))
unfolding poll_with unmark
poll s i waker =
    let s' = unmark s i in poll_with s' i waker (state_try_acquire s' (s'.nodes i).units)

-- `SemaphoreState::signal`, which wraps in a release build.
pub state_signal : Semaphore → ℕ → Semaphore
state_signal s units = record s { avail = (s.avail + units) % 2 ^ 64 }

keep : ℕ → List ℕ × (ℕ → WaiterNode) × List ℕ → List ℕ × (ℕ → WaiterNode) × List ℕ
keep w (ws, nodes, wakes) = (w ∷ ws, nodes, wakes)

call : ℕ → List ℕ × (ℕ → WaiterNode) × List ℕ → List ℕ × (ℕ → WaiterNode) × List ℕ
call k (ws, nodes, wakes) = (ws, nodes, k ∷ wakes)

-- The loop of `process_wakes` from a cursor on: the nodes that stay in the list, the store, and the
-- wakers called.
pub wake_fitting : ℕ → List ℕ → (ℕ → WaiterNode) → Option (List ℕ × (ℕ → WaiterNode) × List ℕ)
unfolding keep call
wake_fitting available_units [] nodes = some ([], nodes, [])
wake_fitting available_units (w ∷ ws) nodes = elim (available_units == 0) [
  | true ↦ some (w ∷ ws, nodes, [])
  | false ↦ elim (leb (nodes w).units available_units) [
    | true ↦ elim (nodes w).waker [
      | none ↦ none
      | some k ↦ option_map (call k) (
          wake_fitting (available_units - (nodes w).units) ws
            (update nodes w (record (nodes w) { waker = none; woken = true })))
    ]
    | false ↦ option_map (keep w) (wake_fitting available_units ws nodes)
  ]
]

after_wakes : Semaphore → List ℕ × (ℕ → WaiterNode) × List ℕ → Semaphore × List ℕ
after_wakes s (ws, nodes, wakes) = (record s { waiters_list = ws; nodes = nodes }, wakes)

pub process_wakes : Semaphore → ℕ → Option (Semaphore × List ℕ)
unfolding after_wakes state_signal
process_wakes s units =
    let s' = state_signal s units in
    option_map (after_wakes s') (wake_fitting s'.avail s'.waiters_list s'.nodes)

-- `Drop for Waiter`
pub drop_waiter : Semaphore → ℕ → Option (Semaphore × List ℕ)
unfolding process_wakes remove_from_waiting_queue
drop_waiter s i =
    if (s.nodes i).woken
    then process_wakes s 0
    else if elem i s.waiters_list
    then some (remove_from_waiting_queue s i, [])
    else some (s, [])

add_wake : ℕ → (ℕ → WaiterNode) × List ℕ → (ℕ → WaiterNode) × List ℕ
add_wake k (nodes, wakes) = (nodes, k ∷ wakes)

-- The loop of `SemaphoreState::close`.
pub drain : List ℕ → (ℕ → WaiterNode) → Option ((ℕ → WaiterNode) × List ℕ)
unfolding add_wake
drain [] nodes = some (nodes, [])
drain (w ∷ ws) nodes = elim (nodes w).waker [
  | none ↦ none
  | some k ↦ option_map (add_wake k) (drain ws (update nodes w (record (nodes w) { waker = none })))
]

after_close : Semaphore → (ℕ → WaiterNode) × List ℕ → Semaphore × List ℕ
after_close s (nodes, wakes) =
    (record s { is_shut = true; waiters_list = []; nodes = nodes }, wakes)

-- `Semaphore::close`, also called by `StaticPermit::close`.
pub close : Semaphore → Option (Semaphore × List ℕ)
unfolding after_close drain
close s = option_map (after_close s) (drain s.waiters_list s.nodes)

-- `state.waiters_list.is_empty() && state.try_acquire(units)?`
pub try_acquire : Semaphore → ℕ → Result (Semaphore × Bool)
try_acquire s units = if is_empty s.waiters_list then state_try_acquire s units else ok (s, false)

-- `try_acquire_permit` and `try_acquire_static_permit`; a permit is the number of its units.
permit_from : Semaphore → ℕ → Result (Semaphore × Bool) → Result (Semaphore × ℕ)
permit_from s units (err e) = err e
permit_from s units (ok (s', true)) = ok (s', units)
permit_from s units (ok (s', false)) = err (would_block (ResourceType.semaphore units s'.avail))

pub try_acquire_permit : Semaphore → ℕ → Result (Semaphore × ℕ)
unfolding permit_from
try_acquire_permit s units = permit_from s units (try_acquire s units)

acquire_from : Semaphore → ℕ → ℕ → Result (Semaphore × Bool) → Semaphore × Poll (Result (Unit {0}))
unfolding new_waiter
acquire_from s i units (err e) = (s, ready (err e))
acquire_from s i units (ok (s', true)) = (s', ready (ok tt))
acquire_from s i units (ok (s', false)) = (new_waiter s' i units, pending)

-- `acquire` up to its `await`: it is done, or a waiter at the place `i` is to be polled.
-- `acquire_permit` and `acquire_static_permit` await it and build the permit.
pub acquire : Semaphore → ℕ → ℕ → Semaphore × Poll (Result (Unit {0}))
unfolding acquire_from
acquire s i units = acquire_from s i units (try_acquire s units)

-- `Drop for Permit` and `Drop for StaticPermit`
pub drop_permit : Semaphore → ℕ → Option (Semaphore × List ℕ)
unfolding process_wakes
drop_permit s units = process_wakes s units

-- `Semaphore::signal`
pub signal : Semaphore → ℕ → Option (Semaphore × List ℕ)
unfolding process_wakes
signal s units = process_wakes s units
