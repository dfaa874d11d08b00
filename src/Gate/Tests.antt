-- ===== src/Gate/Tests.antt =====
-- A run of a gate of gate.rs, and instances of its theorems.
use glommio.Base.{ℕ, ◌≡◌, refl, false, List, [], ◌∷◌, Option, some, arith, update}
use glommio.LocalChannel
use glommio.LocalChannel.{bounded, fresh_node}
use glommio.Gate.{
  Channel, Outcome, GateInner, closing, closed, new, enter, enter_result, try_enter,
  force_increment, is_open, is_closed, leave, close, close_state, new_channel,
}
use glommio.Gate.Closing.{Closes, close_lem}
use glommio.Gate.Sound.{Sound, Left, leave_lem}
use glommio.Gate.Reached.{
  Reach-Sound, World, Reach, start, later, enters, closes, leaves, Reach-closed,
}

abbrev no_channels : ℕ → Channel
no_channels c = LocalChannel.new (bounded 1) (λ i. fresh_node)

-- One pass is out and the gate has been asked to close.
abbrev half_closed : GateInner
half_closed = record {
  count = 1;
  state = closing (0 ∷ []);
  channels = update no_channels 0 (LocalChannel.new (bounded 1) (λ i. fresh_node));
  made = 1;
}

half_closed_run : Reach no_channels (record { gate = half_closed; passes = 1 })
unfolding enter enter_result try_enter force_increment is_open close close_state new_channel new
half_closed_run = later (later start (enters (omega arith))) (closes refl)

-- A pass is taken and given back, and then the gate closes at once.
abbrev shut_world : World
shut_world = record {
  gate = record { count = 0; state = closed; channels = no_channels; made = 0 };
  passes = 0;
}

shut_run : Reach no_channels shut_world
unfolding enter enter_result try_enter force_increment is_open close close_state leave new
shut_run = later (later (later start (enters (omega arith))) (leaves refl refl)) (closes refl)

Reach-closed_example : shut_world.passes ≡ 0
unfolding is_closed
Reach-closed_example = Reach-closed shut_run refl

leave_lem_example :
    (r : GateInner × List ℕ) × (leave half_closed ≡ some r)
    × Sound r.0 0
    × Left half_closed.state half_closed 0 r
leave_lem_example = leave_lem half_closed 0 (Reach-Sound half_closed_run)

close_lem_example :
    (r : GateInner × Outcome (Option ℕ)) × (close half_closed ≡ some r)
    × Sound r.0 1
    × (is_open r.0 ≡ false)
    × Closes half_closed.state 1 r.0 r.1
close_lem_example = close_lem half_closed 1 (Reach-Sound half_closed_run)
