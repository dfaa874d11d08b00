-- ===== src/Gate/Reached.antt =====
-- The worlds that a gate of gate.rs reaches: passes are taken, cloned and given back, the gate is
-- closed, and the channels of the closers change, in any order.
use glommio.Base.{
  ℕ, suc, ◌+◌, ◌^◌, ◌<◌, ◌≡◌, refl, sym, subst, true, List, Option, some, arith, update, Bool-cases,
  inl, inr, ==_iff, update_ne, update_self, same_result, ◌==◌,
}
use glommio.Errors.{ok, err}
use glommio.Gate.{
  State, closing, closed, opened, Channel, Outcome, GateInner, new, enter, enter_result, try_enter,
  force_increment, is_open, is_closed, is_shut, leave, close,
}
use glommio.Gate.Leave.{Untold}
use glommio.Gate.Closing.{close_lem}
use glommio.Gate.Sound.{Shape, Sound, leave_lem}

-- A gate with the number of its passes.
pub record World : Type 0 where
  pub gate : GateInner
  pub passes : ℕ

abbrev pub passed : Outcome (Unit {0}) → ℕ
passed (ok _) = 1
passed (err _) = 0

-- One call; the usize counter has room for one more pass. `awaits` is a call on a channel by its
-- closer, a poll or the drop of the receiver, which leaves what it has to leave.
pub data Step (w : World) : World → Type 0 where
  enters :
      suc w.passes < 2 ^ 64
      → Step w (record { gate = (enter w.gate).0; passes = w.passes + passed (enter w.gate).1 })
  clones :
      0 < w.passes
      → suc w.passes < 2 ^ 64
      → Step w (record { gate = force_increment w.gate; passes = suc w.passes })
  leaves :
      {p : ℕ} {g : GateInner} {wakes : List ℕ}
      → w.passes ≡ suc p
      → leave w.gate ≡ some (g, wakes)
      → Step w (record { gate = g; passes = p })
  closes :
      {g : GateInner} {out : Outcome (Option ℕ)}
      → close w.gate ≡ some (g, out)
      → Step w (record w { gate = g })
  awaits :
      (c : ℕ) (s : Channel)
      → Untold s
      → Step w (record w { gate = record (w.gate) { channels = update w.gate.channels c s } })

pub data Reach (channels : ℕ → Channel) : World → Type 0 where
  start : Reach channels (record { gate = new channels; passes = 0 })
  later : {w x : World} → Reach channels w → Step w x → Reach channels x

more_passes :
    (st : State) (p q : ℕ) (channels : ℕ → Channel) (made : ℕ)
    → 0 < p
    → p < q
    → Shape st p channels made
    → Shape st q channels made
more_passes opened p q channels made h k s = tt
more_passes closed p q channels made h k s = absurd (omega arith)
more_passes (closing cs) p q channels made h k s = (omega arith, s.1, s.2, s.3, s.4)

force_increment-Sound :
    (g : GateInner) (p : ℕ) → 0 < p → suc p < 2 ^ 64 → Sound g p → Sound (force_increment g) (suc p)
unfolding force_increment
force_increment-Sound g p h k v = record {
  counted = omega (arith, v.counted);
  small = k;
  shape = more_passes g.state p (suc p) g.channels g.made h (omega arith) v.shape;
}

enter_by :
    (st : State) (count : ℕ) (channels : ℕ → Channel) (made p : ℕ)
    → suc p < 2 ^ 64
    → Sound (record { count = count; state = st; channels = channels; made = made }) p
    → let r = enter (record { count = count; state = st; channels = channels; made = made }) in
      Sound r.0 (p + passed r.1)
unfolding enter try_enter enter_result force_increment is_open
enter_by opened count channels made p h v = record {
  counted = omega (arith, v.counted);
  small = omega arith;
  shape = tt;
}
enter_by closed count channels made p h v = record {
  counted = omega (arith, v.counted);
  small = omega arith;
  shape = omega (arith, v.shape);
}
enter_by (closing cs) count channels made p h v = record {
  counted = omega (arith, v.counted);
  small = omega arith;
  shape = (omega arith, v.shape.1, v.shape.2, v.shape.3, v.shape.4);
}

awaits-Shape :
    (st : State) (p : ℕ) (channels : ℕ → Channel) (made c : ℕ) (s : Channel)
    → Untold s
    → Shape st p channels made
    → Shape st p (update channels c s) made
awaits-Shape opened p channels made c s u h = tt
awaits-Shape closed p channels made c s u h = h
awaits-Shape (closing cs) p channels made c s u h = (
  h.0,
  h.1,
  h.2,
  λ j e. elim (Bool-cases (j == c)) [
    | inl same ↦
        subst (λ k. Untold (update channels c s k)) (sym ((==_iff j c).0 same))
          (subst Untold (sym (update_self channels c s)) u)
    | inr other ↦ subst Untold (sym (update_ne channels c j s other)) (h.3 j e)
  ],
  h.4,
)

Step-Sound : {w x : World} → Step w x → Sound w.gate w.passes → Sound x.gate x.passes
Step-Sound {w} (enters h) v =
    enter_by w.gate.state w.gate.count w.gate.channels w.gate.made w.passes h v
Step-Sound {w} (clones h k) v = force_increment-Sound w.gate w.passes h k v
Step-Sound {w} (leaves {p} {g} {wakes} n e) v =
    let (r, f, s, _) = leave_lem w.gate p (subst (Sound w.gate) n v) in
    subst (λ (r : GateInner × List ℕ). Sound r.0 p) (same_result f e) s
Step-Sound {w} (closes {g} {out} e) v =
    let (r, f, s, _, _) = close_lem w.gate w.passes v in
    subst (λ (r : GateInner × Outcome (Option ℕ)). Sound r.0 w.passes) (same_result f e) s
Step-Sound {w} (awaits c s u) v = record {
  counted = v.counted;
  small = v.small;
  shape = awaits-Shape w.gate.state w.passes w.gate.channels w.gate.made c s u v.shape;
}

pub Reach-Sound : {channels : ℕ → Channel} {w : World} → Reach channels w → Sound w.gate w.passes
unfolding new
Reach-Sound start = record { counted = refl; small = omega arith; shape = tt }
Reach-Sound (later r st) = Step-Sound st (Reach-Sound r)

closed-none :
    (st : State) (p : ℕ) (channels : ℕ → Channel) (made : ℕ)
    → is_shut st ≡ true
    → Shape st p channels made
    → p ≡ 0
closed-none opened p channels made h s = absurd (cc)
closed-none closed p channels made h s = s
closed-none (closing cs) p channels made h s = absurd (cc)

-- In every run of a gate a closed gate has no pass: the gate is closed only when the last pass has
-- been given back, and the cloned passes count too.
pub Reach-closed :
    {channels : ℕ → Channel} {w : World} → Reach channels w → is_closed w.gate ≡ true → w.passes ≡ 0
unfolding is_closed
Reach-closed {w = w} r h =
    closed-none w.gate.state w.passes w.gate.channels w.gate.made h (Reach-Sound r).shape
