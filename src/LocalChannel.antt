-- ===== src/LocalChannel.antt =====
-- glommio/src/channels/local_channel.rs. The waiter nodes are cells of a store, found by their
-- number, and the two intrusive lists hold numbers; a waker is a number too, and a call returns the
-- wakers that it calls. `none` as the result of a call is a panic. `State` is shared by `Rc`: both
-- ends and all futures work on this one state.
pub mod Ends
pub mod Side
pub mod Valid
pub mod Polls
pub mod Links
pub mod Calls
pub mod Sends
pub mod Drops
pub mod Ending
pub mod Called
pub mod Heirs
pub mod Offers
pub mod Polled
pub mod Heard
pub mod World
pub mod Runs
pub mod Awake
mod Tests
use glommio.Base.{
  ℕ, Bool, true, false, ◌||◌, List, [], ◌∷◌, ◌++◌, Option, none, some, leb, if◌then◌else◌,
  option_map, is_some, length, elem, remove, is_empty, update,
}
use glommio.Errors.{Result, ok, err, closed, would_block, ResourceType}

-- `enum ChannelCapacity` of channels/mod.rs
pub data ChannelCapacity : Type 0 where
  unbounded : ChannelCapacity
  bounded : ℕ → ChannelCapacity

pub data WaiterKind : Type 0 where
  sender : WaiterKind
  receiver : WaiterKind

-- `struct WaiterNode`; its link is the membership in one of the lists.
pub record WaiterNode : Type 0 where
  pub waker : Option ℕ
  pub kind : Option WaiterKind
  pub woken : Bool

-- `struct State`, with the store of all waiter nodes. A list that was taken away is `none`.
pub record State {ℓ} (A : Type ℓ) : Type ℓ where
  pub capacity : ChannelCapacity
  pub channel : List A
  pub recv_waiters : Option (List ℕ)
  pub send_waiters : Option (List ℕ)
  pub nodes : ℕ → WaiterNode

pub data PollResult {ℓ} (A : Type ℓ) : Type ℓ where
  pending : WaiterKind → PollResult A
  ready : A → PollResult A

-- `std::task::Poll`
pub data Poll {ℓ} (A : Type ℓ) : Type ℓ where
  waits : Poll A
  done : A → Poll A

-- A node in its state before the first poll.
abbrev pub fresh_node : WaiterNode
fresh_node = record { waker = none; kind = none; woken = false }

-- `if let Some(w) = waker { w.wake() }`
abbrev pub called : Option ℕ → List ℕ
called none = []
called (some k) = k ∷ []

-- The list without its first node, the store and the waker.
pub wake_first : Option (List ℕ) → (ℕ → WaiterNode) → Option (List ℕ) × (ℕ → WaiterNode) × Option ℕ
wake_first none nodes = (none, nodes, none)
wake_first (some []) nodes = (some [], nodes, none)
wake_first (some (w ∷ ws)) nodes =
    (some ws, update nodes w (record (nodes w) { woken = true; waker = none }), (nodes w).waker)

pub add_wake : ℕ → (ℕ → WaiterNode) × List ℕ → (ℕ → WaiterNode) × List ℕ
add_wake k (nodes, wakes) = (nodes, k ∷ wakes)

-- The loop of `wake_up_all`: the store and the wakers called.
pub wake_up_list : List ℕ → (ℕ → WaiterNode) → Option ((ℕ → WaiterNode) × List ℕ)
unfolding add_wake
wake_up_list [] nodes = some (nodes, [])
wake_up_list (w ∷ ws) nodes = elim (nodes w).waker [
  | none ↦ none
  | some k ↦
      option_map (add_wake k) (wake_up_list ws (update nodes w (record (nodes w) { waker = none })))
]

-- The nodes of a list that may have been taken away.
abbrev pub listed : Option (List ℕ) → List ℕ
listed none = []
listed (some ws) = ws

pub full_for : ChannelCapacity → ℕ → Bool
full_for unbounded n = false
full_for (bounded x) n = leb x n

module _ {ℓ} {A : Type ℓ} where
  -- `LocalChannel::new`
  unfoldable pub new : ChannelCapacity → (ℕ → WaiterNode) → State A
  new capacity nodes = record {
    capacity = capacity;
    channel = [];
    recv_waiters = some [];
    send_waiters = some [];
    nodes = nodes;
  }

  pub wake_receiver : State A → State A × Option ℕ
  unfolding wake_first
  wake_receiver s =
      let (ws, nodes, k) = wake_first s.recv_waiters s.nodes in
      (record s { recv_waiters = ws; nodes = nodes }, k)

  pub wake_sender : State A → State A × Option ℕ
  unfolding wake_first
  wake_sender s =
      let (ws, nodes, k) = wake_first s.send_waiters s.nodes in
      (record s { send_waiters = ws; nodes = nodes }, k)

  pub is_full : State A → Bool
  unfolding full_for
  is_full s = full_for s.capacity (length s.channel)

  -- `LocalSender::len`
  pub len : State A → ℕ
  len s = length s.channel

  pub push : State A → A → Result A (State A × Option ℕ)
  unfolding is_full wake_receiver
  push s item =
      if is_some s.recv_waiters
      then (if is_full s
          then err (would_block (ResourceType.channel item))
          else ok (wake_receiver (record s { channel = s.channel ++ (item ∷ []) })))
      else err (closed (ResourceType.channel item))

  pub pass_on_wakeup : State A → WaiterKind → State A × Option ℕ
  unfolding is_full wake_sender wake_receiver
  pass_on_wakeup s sender = if is_full s then (s, none) else wake_sender s
  pass_on_wakeup s receiver = if is_empty s.channel then (s, none) else wake_receiver s

  pub wait_for_room : State A → State A × PollResult (Unit {0})
  unfolding is_full
  wait_for_room s = (s, if is_full s then pending sender else ready tt)

  pub recv_front : State A → List A → State A × PollResult (Option (A × Option ℕ))
  unfolding wake_sender
  recv_front s [] = (s, if is_some s.send_waiters then pending receiver else ready none)
  recv_front s (item ∷ rest) =
      let (s', k) = wake_sender (record s { channel = rest }) in (s', ready (some (item, k)))

  -- `State::recv_one`
  pub recv_one : State A → State A × PollResult (Option (A × Option ℕ))
  unfolding recv_front
  recv_one s = recv_front s s.channel

  pub is_linked : State A → ℕ → Bool
  is_linked s i = elem i (listed s.recv_waiters) || elem i (listed s.send_waiters)

  pub register_as : State A → ℕ → Option WaiterKind → Option (State A)
  register_as s i none = none
  register_as s i (some sender) =
      option_map (λ ws. record s { send_waiters = some (ws ++ (i ∷ [])) }) s.send_waiters
  register_as s i (some receiver) =
      option_map (λ ws. record s { recv_waiters = some (ws ++ (i ∷ [])) }) s.recv_waiters

  pub register_into_waiting_queue : State A → ℕ → Option (State A)
  unfolding is_linked register_as
  register_into_waiting_queue s i =
      if is_linked s i then some s else register_as s i (s.nodes i).kind

  -- The cursor of the node in the list of its kind, and its removal.
  pub remove_as : State A → ℕ → Option WaiterKind → Option (State A)
  remove_as s i none = none
  remove_as s i (some sender) =
      option_map (λ ws. record s { send_waiters = some (remove i ws) }) s.send_waiters
  remove_as s i (some receiver) =
      option_map (λ ws. record s { recv_waiters = some (remove i ws) }) s.recv_waiters

  pub remove_from_the_waiting_queue : State A → ℕ → Option (State A)
  unfolding is_linked remove_as
  remove_from_the_waiting_queue s i =
      if is_linked s i then remove_as s i (s.nodes i).kind else some s

  -- `poll` first clears the mark.
  pub unmark : State A → ℕ → State A
  unmark s i = record s { nodes = update s.nodes i (record (s.nodes i) { woken = false }) }

  pub remember : State A → ℕ → WaiterKind → ℕ → State A
  remember s i kind waker = record s {
    nodes = update s.nodes i (record (s.nodes i) { kind = some kind; waker = some waker });
  }

  pub poll_end {κ} : {R : Type κ} → ℕ → ℕ → State A × PollResult R → Option (State A × Poll R)
  unfolding register_into_waiting_queue remove_from_the_waiting_queue remember
  poll_end i waker (s, pending kind) =
      option_map (λ s'. (s', waits)) (register_into_waiting_queue (remember s i kind waker) i)
  poll_end i waker (s, ready r) =
      option_map (λ s'. (s', done r)) (remove_from_the_waiting_queue s i)

  -- `Waiter::poll` with its closure.
  pub poll {κ} :
      {R : Type κ}
      → (State A → State A × PollResult R)
      → State A
      → ℕ
      → ℕ
      → Option (State A × Poll R)
  unfolding poll_end unmark
  poll poll_fn s i waker = poll_end i waker (poll_fn (unmark s i))
