-- ===== src/Gate.antt =====
-- glommio/src/sync/gate.rs. The channels that `close` makes are cells of a store, found by their
-- number; a sender and a receiver are the number of their channel. `Gate` and `Pass` share one
-- `GateInner` by `Rc`, and a call returns the wakers that it calls. `none` is a panic.
pub mod Leave
pub mod Sound
pub mod Closing
pub mod Reached
mod Tests
use glommio.Base.{
  ℕ, suc, ◌+◌, ◌-◌, ◌%◌, ◌^◌, Bool, true, false, not, ◌&&◌, List, [], ◌∷◌, ◌++◌, Option, none, some,
  ◌==◌, if◌then◌else◌, option_map, is_empty, update,
}
use glommio.Errors.{Result, ok, err, GlommioError, ResourceType}
use glommio.Errors
use glommio.LocalChannel
use glommio.LocalChannel.{Poll, waits, done, bounded, is_full, fresh_node}
use glommio.LocalChannel.Ends.{try_send, drop_sender, poll_recv, drop_waiter, drop_receiver}

pub data State : Type 0 where
  closing : List ℕ → State
  closed : State
  opened : State

abbrev pub Channel : Type 0
Channel = LocalChannel.State Bool

-- `struct GateInner`, with the store of channels and how many have been made. `count` is a usize.
pub record GateInner : Type 0 where
  pub count : ℕ
  pub state : State
  pub channels : ℕ → Channel
  pub made : ℕ

abbrev pub Outcome : Type 0 → Type 0
Outcome A = Result (Unit {0}) A

-- `Gate::new`
pub new : (ℕ → Channel) → GateInner
new channels = record { count = 0; state = opened; channels = channels; made = 0 }

abbrev pub is_opened : State → Bool
is_opened opened = true
is_opened closed = false
is_opened (closing senders) = false

abbrev pub is_shut : State → Bool
is_shut opened = false
is_shut closed = true
is_shut (closing senders) = false

pub is_open : GateInner → Bool
is_open g = is_opened g.state

pub is_closed : GateInner → Bool
is_closed g = is_shut g.state

-- Also `Pass::clone_ignoring_gate_closure`.
pub force_increment : GateInner → GateInner
force_increment g = record g { count = (g.count + 1) % 2 ^ 64 }

pub try_enter : GateInner → GateInner × Bool
unfolding force_increment is_open
try_enter g = if is_open g then (force_increment g, true) else (g, false)

pub enter_result : GateInner × Bool → GateInner × Outcome (Unit {0})
enter_result (g, true) = (g, ok tt)
enter_result (g, false) = (g, err (Errors.closed ResourceType.gate))

-- `GateInner::enter`, `Gate::enter` and `Pass::try_clone`; the pass is the count that it holds.
pub enter : GateInner → GateInner × Outcome (Unit {0})
unfolding enter_result try_enter
enter g = enter_result (try_enter g)

-- `let _ = sender.try_send(true)`
pub send_true : Channel → Result Bool (Channel × List ℕ) → Channel × List ℕ
send_true s (ok r) = r
send_true s (err e) = (s, [])

pub add_wakes : List ℕ → Channel × List ℕ → Channel × List ℕ
add_wakes first (s, wakes) = (s, first ++ wakes)

-- One round of the loop of `notify_closed`, at whose end the sender is dropped.
pub notify_one : Channel → Option (Channel × List ℕ)
unfolding send_true add_wakes
notify_one s =
    let (s', wakes) = send_true s (try_send s true) in option_map (add_wakes wakes) (drop_sender s')

pub notify_all : List ℕ → (ℕ → Channel) → Option ((ℕ → Channel) × List ℕ)
unfolding notify_one
notify_all [] channels = some (channels, [])
notify_all (c ∷ cs) channels = elim (notify_one (channels c)) [
  | none ↦ none
  | some (s, wakes) ↦
      option_map (λ (r : (ℕ → Channel) × List ℕ). (r.0, wakes ++ r.1))
        (notify_all cs (update channels c s))
]

notify_state : GateInner → State → Option (GateInner × List ℕ)
unfolding notify_all
notify_state g opened = none
notify_state g closed = none
notify_state g (closing senders) =
    option_map (λ (r : (ℕ → Channel) × List ℕ). (record g { state = closed; channels = r.0 }, r.1))
      (notify_all senders g.channels)

pub notify_closed : GateInner → Option (GateInner × List ℕ)
unfolding notify_state
notify_closed g = notify_state g g.state

-- `GateInner::leave`, the drop of a `Pass`; the subtraction wraps in a release build.
pub leave : GateInner → Option (GateInner × List ℕ)
unfolding notify_closed is_open
leave g =
    let g' = record g { count = (g.count + (2 ^ 64 - 1)) % 2 ^ 64 } in
    if g'.count == 0 && not (is_open g') then notify_closed g' else some (g', [])

-- A new channel for one Boolean: its number, and the gate that knows it.
new_channel : GateInner → GateInner
new_channel g = record g {
  channels = update g.channels g.made (LocalChannel.new (bounded 1) (λ i. fresh_node));
  made = suc g.made;
}

first_is_full : (ℕ → Channel) → List ℕ → Bool
first_is_full channels [] = true
first_is_full channels (c ∷ cs) = is_full (channels c)

close_state : GateInner → State → Option (GateInner × Outcome (Option ℕ))
unfolding new_channel first_is_full
close_state g opened =
    if g.count == 0
    then some (record g { state = closed }, ok none)
    else some (record (new_channel g) { state = closing (g.made ∷ []) }, ok (some g.made))
close_state g (closing senders) =
    if g.count == 0
    then none
    else if is_empty senders
    then none
    else if first_is_full g.channels senders
    then none
    else some
        (record (new_channel g) { state = closing (senders ++ (g.made ∷ [])) }, ok (some g.made))
close_state g closed = some (g, err (Errors.closed ResourceType.gate))

-- `close` up to its future, which waits for the channel that is returned.
pub close : GateInner → Option (GateInner × Outcome (Option ℕ))
unfolding close_state
close g = close_state g g.state

give_up_receiver : GateInner → ℕ → Option (Channel × List ℕ) → Option (GateInner × List ℕ)
give_up_receiver g c none = none
give_up_receiver g c (some (s, wakes)) = some (record g { channels = update g.channels c s }, wakes)

finished : GateInner × List ℕ → GateInner × Poll (Outcome (Unit {0})) × List ℕ
finished (g, wakes) = (g, done (ok tt), wakes)

-- When the `recv` is over, the receiver is dropped.
closure_end :
    GateInner
    → ℕ
    → Option (Channel × Poll (Option Bool × List ℕ))
    → Option (GateInner × Poll (Outcome (Unit {0})) × List ℕ)
unfolding give_up_receiver finished
closure_end g c none = none
closure_end g c (some (s, waits)) = some (record g { channels = update g.channels c s }, waits, [])
closure_end g c (some (s, done (item, wakes))) =
    option_map finished (give_up_receiver g c (option_map (add_wakes wakes) (drop_receiver s)))

-- One poll of `wait_for_closure`, whose `recv` waits with the node 0 of its channel.
pub poll_closure :
    GateInner → Outcome (Option ℕ) → ℕ → Option (GateInner × Poll (Outcome (Unit {0})) × List ℕ)
unfolding closure_end add_wakes
poll_closure g (err e) waker = some (g, done (err e), [])
poll_closure g (ok none) waker = some (g, done (ok tt), [])
poll_closure g (ok (some c)) waker = closure_end g c (poll_recv (g.channels c) 0 waker)

drop_both : Option (Channel × List ℕ) → Option (Channel × List ℕ)
unfolding add_wakes
drop_both none = none
drop_both (some (s, wakes)) = option_map (add_wakes wakes) (drop_receiver s)

-- The drop of the future before it is done: that of its `recv`, if there is one, and of the receiver.
pub drop_closure : GateInner → Outcome (Option ℕ) → Option (GateInner × List ℕ)
unfolding give_up_receiver drop_both
drop_closure g (err e) = some (g, [])
drop_closure g (ok none) = some (g, [])
drop_closure g (ok (some c)) = give_up_receiver g c (drop_both (drop_waiter (g.channels c) 0))
