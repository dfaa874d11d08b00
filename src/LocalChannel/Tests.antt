-- ===== src/LocalChannel/Tests.antt =====
-- Runs of a channel of local_channel.rs, and instances of its theorems.
use glommio.Base.{
  update, elem, ℕ, ◌≡◌, refl, inl, inr, true, List, [], ◌∷◌, ◌++◌, Option, none, some,
}
use glommio.Errors.{Result, ok, err}
use glommio.LocalChannel.{
  State, bounded, sender, Poll, new, fresh_node, is_full, poll, poll_end, push, wake_receiver,
  wake_sender, wake_first, recv_one, recv_front, wait_for_room, unmark, remember,
  register_into_waiting_queue, remove_from_the_waiting_queue, is_linked, register_as, remove_as,
}
use glommio.LocalChannel.Ends.{poll_send, poll_recv, try_send, drop_waiter}
use glommio.LocalChannel.Side.{Woken}
use glommio.LocalChannel.Valid.{IsValid}
use glommio.LocalChannel.Polls.{Alike, SameEnds}
use glommio.LocalChannel.Calls.{Received, poll_recv_lem}
use glommio.LocalChannel.Sends.{Delivered, Offered, try_send_lem, poll_send_lem}
use glommio.LocalChannel.Drops.{freed, drop_waiter_lem}
use glommio.LocalChannel.World.{World, Reach, start, later, tries, polls_send, polls_recv}
use glommio.LocalChannel.Runs.{Reach-in_order, Reach-IsValid}
use glommio.LocalChannel.Heirs.{Heir}
use glommio.LocalChannel.Heard.{more, anew}
use glommio.LocalChannel.Awake.{Reach-no_lost_wake}

abbrev after : {B : Type 0} → Option (State ℕ × B) → State ℕ
after none = new (bounded 0) (λ i. fresh_node)
after (some (s, p)) = s

abbrev accepted : Result ℕ (State ℕ × List ℕ) → State ℕ
accepted (ok (s, p)) = s
accepted (err e) = new (bounded 0) (λ i. fresh_node)

-- A channel with one place and an item in it; two senders wait, and a receiver takes the item.
empty : State ℕ
empty = new (bounded 1) (λ i. fresh_node)

one_item : State ℕ
unfolding empty
one_item = accepted (try_send empty 7)

first_waits : State ℕ
unfolding one_item
first_waits = after (poll_send one_item 0 10 8)

second_waits : State ℕ
unfolding first_waits
second_waits = after (poll_send first_waits 2 12 9)

taken : State ℕ
unfolding second_waits
taken = after (poll_recv second_waits 1 11)

-- The wakers called for each waiter after one `try_send` and two polls of `send`: none.
abbrev sent_calls : ℕ → List ℕ
sent_calls = more (anew (more (anew (more (λ i. []) []) 0) []) 2) []

run : World ℕ
run = record {
  state = taken;
  accepted = 7 ∷ [];
  received = 7 ∷ [];
  last_waker = update (update (λ i. none) 0 (some 10)) 2 (some 12);
  calls = more (anew sent_calls 1) (10 ∷ []);
}

reached : Reach ℕ (bounded 1) run
unfolding run taken poll_send poll_recv try_send push new poll poll_end wake_receiver wake_sender
    recv_one recv_front wait_for_room unmark remember register_into_waiting_queue
    remove_from_the_waiting_queue is_linked register_as remove_as is_full wake_first
reached =
    later
      (later (later (later start (tries 7 refl)) (polls_send 0 10 8 (inl refl) refl))
        (polls_send 2 12 9 (inl refl) refl))
      (polls_recv 1 11 (inl refl) refl)

full_world : World ℕ
full_world = record {
  state = second_waits;
  accepted = 7 ∷ [];
  received = [];
  last_waker = update (update (λ i. none) 0 (some 10)) 2 (some 12);
  calls = sent_calls;
}

full_reached : Reach ℕ (bounded 1) full_world
unfolding full_world second_waits poll_send try_send push new poll poll_end wake_receiver wake_first
    wait_for_room unmark remember register_into_waiting_queue is_linked register_as is_full
full_reached =
    later (later (later start (tries 7 refl)) (polls_send 0 10 8 (inl refl) refl))
      (polls_send 2 12 9 (inl refl) refl)

Reach-in_order_example : run.accepted ≡ run.received ++ run.state.channel
Reach-in_order_example = Reach-in_order reached

Reach-no_lost_wake_example :
    (j : ℕ) × Woken (run.state.nodes j) sender
    × ((k : ℕ) × (run.last_waker j ≡ some k) × (elem k (run.calls j) ≡ true))
unfolding run taken poll_send poll_recv try_send push new poll poll_end wake_receiver wake_sender
    recv_one recv_front wait_for_room unmark remember register_into_waiting_queue
    remove_from_the_waiting_queue is_linked register_as remove_as is_full wake_first
Reach-no_lost_wake_example = Reach-no_lost_wake sender 2 reached refl refl

poll_recv_lem_example :
    (r : State ℕ × Poll (Option ℕ × List ℕ)) × (poll_recv full_world.state 1 11 ≡ some r)
    × IsValid r.0
    × SameEnds full_world.state r.0
    × Received full_world.state r full_world.state.channel
unfolding full_world second_waits poll_send try_send push new poll poll_end wake_receiver wake_first
    wait_for_room unmark remember register_into_waiting_queue is_linked register_as is_full
poll_recv_lem_example =
    poll_recv_lem full_world.state 1 11 (Reach-IsValid full_reached) (inl refl) refl

poll_send_lem_example :
    (r : State ℕ × Poll (Result ℕ (List ℕ))) × (poll_send full_world.state 0 13 8 ≡ some r)
    × IsValid r.0
    × SameEnds full_world.state r.0
    × Delivered full_world.state 8 r
unfolding full_world second_waits poll_send try_send push new poll poll_end wake_receiver wake_first
    wait_for_room unmark remember register_into_waiting_queue is_linked register_as is_full
poll_send_lem_example =
    poll_send_lem full_world.state 0 13 8 (Reach-IsValid full_reached) (inr refl) refl

try_send_lem_example : Offered full_world.state 5 (try_send full_world.state 5)
try_send_lem_example = try_send_lem full_world.state 5 (Reach-IsValid full_reached)

drop_waiter_lem_example :
    (r : State ℕ × List ℕ) × (drop_waiter full_world.state 0 ≡ some r)
    × IsValid (freed r.0 0)
    × Heir full_world.state 0 r
    × Alike full_world.state r.0
drop_waiter_lem_example = drop_waiter_lem full_world.state 0 (Reach-IsValid full_reached)
