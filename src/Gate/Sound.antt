-- ===== src/Gate/Sound.antt =====
-- What holds of a gate of gate.rs between two calls, and the end of a pass.
use glommio.Base.{
  ℕ, zero, suc, ◌+◌, ◌%◌, ◌^◌, ◌<◌, ◌≡◌, refl, true, false, ◌-◌, ◌&&◌, List, [], some, arith, ◌==◌,
  is_empty, elem, Distinct,
}
use glommio.Gate.{
  State, closing, closed, opened, Channel, GateInner, is_open, leave, notify_closed, notify_state,
}
use glommio.Gate.Leave.{Untold, Told, notify_all_lem}

-- What the state says when there are `passes` passes.
abbrev pub Shape : State → ℕ → (ℕ → Channel) → ℕ → Type 0
Shape opened passes channels made = Unit {0}
Shape closed passes channels made = passes ≡ 0
Shape (closing cs) passes channels made =
    (0 < passes)
    × (is_empty cs ≡ false)
    × Distinct cs
    × ((c : ℕ) → elem c cs ≡ true → Untold (channels c))
    × ((c : ℕ) → elem c cs ≡ true → c < made)

pub record Sound (g : GateInner) (passes : ℕ) : Type 0 where
  pub counted : g.count ≡ passes
  pub small : passes < 2 ^ 64
  pub shape : Shape g.state passes g.channels g.made

-- The last pass of a gate that is closing: every closer is told and the gate is closed. Another pass
-- is only counted out.
abbrev pub Left : State → GateInner → ℕ → GateInner × List ℕ → Type 0
Left (closing cs) g zero (r, wakes) =
    (r.state ≡ closed) × ((c : ℕ) → elem c cs ≡ true → Told (g.channels c) (r.channels c) wakes)
Left (closing cs) g (suc passes) (r, wakes) =
    (r.state ≡ closing cs) × (r.channels ≡ g.channels) × (wakes ≡ [])
Left closed g passes r = Unit {0}
Left opened g passes (r, wakes) = (r.state ≡ opened) × (r.channels ≡ g.channels) × (wakes ≡ [])

left_count :
    (count passes : ℕ)
    → count ≡ suc passes
    → suc passes < 2 ^ 64
    → (count + (2 ^ 64 - 1)) % 2 ^ 64 ≡ passes
left_count count passes e h = omega arith

leave_by :
    (st : State) (count : ℕ) (channels : ℕ → Channel) (made passes : ℕ)
    → Sound (record { count = count; state = st; channels = channels; made = made }) (suc passes)
    → (r : GateInner × List ℕ) × (leave
          (record { count = count; state = st; channels = channels; made = made })
        ≡ some r)
      × Sound r.0 passes
      × Left st (record { count = count; state = st; channels = channels; made = made }) passes r
unfolding leave is_open notify_closed notify_state
leave_by opened count channels made passes v =
    let n = left_count count passes v.counted v.small in
    let stays : (((count + (2 ^ 64 - 1)) % 2 ^ 64 == 0) && false) ≡ false = ground arith in
    (
      (
        record {
          count = (count + (2 ^ 64 - 1)) % 2 ^ 64;
          state = opened;
          channels = channels;
          made = made;
        },
        [],
      ),
      rw stays,
      record { counted = n; small = omega (arith, v.small); shape = tt },
      (refl, refl, refl),
    )
leave_by closed count channels made passes v = absurd (omega (arith, v.shape))
leave_by (closing cs) count channels made zero v =
    let n = left_count count 0 v.counted v.small in
    let (r, e, told, others) = notify_all_lem cs channels v.shape.2 v.shape.3 in
    let last : (((count + (2 ^ 64 - 1)) % 2 ^ 64 == 0) && true) ≡ true = ground (arith, n) in
    (
      (
        record {
          count = (count + (2 ^ 64 - 1)) % 2 ^ 64;
          state = closed;
          channels = r.0;
          made = made;
        },
        r.1,
      ),
      rw (last, e),
      record { counted = n; small = omega arith; shape = refl },
      (refl, told),
    )
leave_by (closing cs) count channels made (suc passes) v =
    let n = left_count count (suc passes) v.counted v.small in
    let stays : (((count + (2 ^ 64 - 1)) % 2 ^ 64 == 0) && true) ≡ false = ground (arith, n) in
    (
      (
        record {
          count = (count + (2 ^ 64 - 1)) % 2 ^ 64;
          state = closing cs;
          channels = channels;
          made = made;
        },
        [],
      ),
      rw stays,
      record {
        counted = n;
        small = omega (arith, v.small);
        shape = (omega arith, v.shape.1, v.shape.2, v.shape.3, v.shape.4);
      },
      (refl, refl, refl),
    )

-- With a pass to give back, `leave` does not panic and counts it out. The last pass of a gate that
-- is closing closes it, and every closer in the list is told: the Boolean lies in its channel unless
-- the closer has gone, the waker of each waiter that stood in the list of the channel is called, nobody
-- waits there any more, and the sender is dropped. No waker is called by another pass.
pub leave_lem :
    (g : GateInner) (passes : ℕ)
    → Sound g (suc passes)
    → (r : GateInner × List ℕ) × (leave g ≡ some r) × Sound r.0 passes × Left g.state g passes r
leave_lem g passes v = leave_by g.state g.count g.channels g.made passes v
