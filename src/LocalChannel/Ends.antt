-- ===== src/LocalChannel/Ends.antt =====
-- The two ends of local_channel.rs, `LocalSender` and `LocalReceiver`, their futures and their drops.
use glommio.Base.{ℕ, ◌&&◌, List, [], Option, none, some, if◌then◌else◌, option_map, is_empty}
use glommio.Errors.{Result, ok, err}
use glommio.LocalChannel.{
  State, WaiterNode, WaiterKind, receiver, PollResult, pending, ready, Poll, waits, done, called,
  listed, push, pass_on_wakeup, wait_for_room, recv_one, is_linked, remove_as,
  remove_from_the_waiting_queue, unmark, poll_end, poll, wake_up_list,
}

module _ {ℓ} {A : Type ℓ} where
  unfoldable pub call_result : Result A (State A × Option ℕ) → Result A (State A × List ℕ)
  call_result (ok (s, k)) = ok (s, called k)
  call_result (err e) = err e

  -- `LocalSender::try_send`; the state stays as it was when there is an error.
  unfoldable pub try_send : State A → A → Result A (State A × List ℕ)
  unfolding call_result push
  try_send s item = call_result (push s item)

  unfoldable pub sent : State A → Result A (State A × List ℕ) → State A × Poll (Result A (List ℕ))
  sent s (ok (s', wakes)) = (s', done (ok wakes))
  sent s (err e) = (s, done (err e))

  unfoldable pub send_end : A → State A × Poll (Unit {0}) → State A × Poll (Result A (List ℕ))
  unfolding sent try_send
  send_end item (s, waits) = (s, waits)
  send_end item (s, done _) = sent s (try_send s item)

  -- One poll of the future of `LocalSender::send`, whose waiter is at the place `i`. When the wait
  -- is over the waiter, neither woken nor linked, is dropped.
  unfoldable pub poll_send : State A → ℕ → ℕ → A → Option (State A × Poll (Result A (List ℕ)))
  unfolding send_end poll
  poll_send s i waker item = option_map (send_end item) (poll wait_for_room s i waker)

  -- What was received, and the wakers called.
  unfoldable pub wake_sent : Option (A × Option ℕ) → Option A × List ℕ
  wake_sent none = (none, [])
  wake_sent (some (item, k)) = (some item, called k)

  unfoldable pub receive :
      State A × PollResult (Option (A × Option ℕ)) → State A × PollResult (Option A × List ℕ)
  unfolding wake_sent
  receive (s, pending kind) = (s, pending kind)
  receive (s, ready r) = (s, ready (wake_sent r))

  -- One poll of the future of `LocalReceiver::recv`.
  unfoldable pub poll_recv : State A → ℕ → ℕ → Option (State A × Poll (Option A × List ℕ))
  unfolding receive poll
  poll_recv s i waker = poll (λ t. receive (recv_one t)) s i waker

  unfoldable pub next : State A × Poll (Option (A × Option ℕ)) → State A × Poll (Option A × List ℕ)
  unfolding wake_sent
  next (s, waits) = (s, waits)
  next (s, done r) = (s, done (wake_sent r))

  -- `ChannelStream::poll_next`
  unfoldable pub poll_next : State A → ℕ → ℕ → Option (State A × Poll (Option A × List ℕ))
  unfolding next poll_end unmark
  poll_next s i waker = option_map next (poll_end i waker (recv_one (unmark s i)))

  unfoldable pub passed : State A × Option ℕ → State A × List ℕ
  passed (s, k) = (s, called k)

  unfoldable pub pass_on_as : State A → Option WaiterKind → Option (State A × List ℕ)
  unfolding passed
  pass_on_as s none = none
  pass_on_as s (some kind) = some (passed (pass_on_wakeup s kind))

  -- `Drop for Waiter`
  unfoldable pub drop_waiter : State A → ℕ → Option (State A × List ℕ)
  unfolding pass_on_as is_linked remove_as
  drop_waiter s i =
      if (s.nodes i).woken
      then pass_on_as s (s.nodes i).kind
      else if is_linked s i
      then option_map (λ s'. (s', [])) (remove_as s i (s.nodes i).kind)
      else some (s, [])

  -- `Drop for ChannelStream`
  pub drop_stream : State A → ℕ → Option (State A × List ℕ)
  unfolding passed
  drop_stream s i =
      if (s.nodes i).woken
      then some (passed (pass_on_wakeup s receiver))
      else option_map (λ s'. (s', [])) (remove_from_the_waiting_queue s i)

  -- The assertions of `Drop for LocalChannel`.
  unfoldable pub drop_channel : State A × List ℕ → Option (State A × List ℕ)
  drop_channel (s, wakes) =
      if is_empty (listed s.recv_waiters) && is_empty (listed s.send_waiters)
      then some (s, wakes)
      else none

  unfoldable pub and_drop : Option (State A × List ℕ) → Option (State A × List ℕ)
  unfolding drop_channel
  and_drop none = none
  and_drop (some r) = drop_channel r

  unfoldable pub wake_up_receivers : State A → Option (List ℕ) → Option (State A × List ℕ)
  wake_up_receivers s none = some (s, [])
  wake_up_receivers s (some ws) =
      option_map
        (λ (r : (ℕ → WaiterNode) × List ℕ). (record s { recv_waiters = some []; nodes = r.0 }, r.1))
        (wake_up_list ws s.nodes)

  unfoldable pub wake_up_senders : State A → Option (List ℕ) → Option (State A × List ℕ)
  wake_up_senders s none = some (s, [])
  wake_up_senders s (some ws) =
      option_map
        (λ (r : (ℕ → WaiterNode) × List ℕ). (record s { send_waiters = some []; nodes = r.0 }, r.1))
        (wake_up_list ws s.nodes)

  -- `Drop for LocalSender`, with the drop of its channel.
  unfoldable pub drop_sender : State A → Option (State A × List ℕ)
  unfolding and_drop wake_up_receivers
  drop_sender s = and_drop (wake_up_receivers (record s { send_waiters = none }) s.recv_waiters)

  -- `Drop for LocalReceiver`, with the drop of its channel.
  unfoldable pub drop_receiver : State A → Option (State A × List ℕ)
  unfolding and_drop wake_up_senders
  drop_receiver s = and_drop (wake_up_senders (record s { recv_waiters = none }) s.send_waiters)
