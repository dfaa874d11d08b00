-- ===== src/Gate/Closing.antt =====
-- `close` of gate.rs in every state.
use glommio.Base.{
  ℕ, zero, suc, ◌<◌, ◌≡◌, refl, sym, subst, inl, inr, true, false, List, [], ◌∷◌, ◌++◌, Option,
  none, some, arith, ◌==◌, is_empty, elem, elem-append, Distinct-snoc, update, Bool-cases, ==_iff,
  update_ne, update_self,
}
use glommio.Errors.{Result, ok, err}
use glommio.Errors
use glommio.LocalChannel
use glommio.LocalChannel.{bounded, sender, receiver, is_full, fresh_node}
use glommio.LocalChannel.Runs.{new-IsValid}
use glommio.LocalChannel.Ending.{empty-not_full}
use glommio.Gate.{
  State, closing, closed, opened, Channel, Outcome, GateInner, is_open, close, close_state,
  new_channel, first_is_full,
}
use glommio.Gate.Leave.{Untold}
use glommio.Gate.Sound.{Sound}

new_channel-Untold :
    (channels : ℕ → Channel) (c : ℕ)
    → Untold (update channels c (LocalChannel.new (bounded 1) (λ i. fresh_node)) c)
unfolding LocalChannel.new
new_channel-Untold channels c =
    subst Untold (sym (update_self channels c (LocalChannel.new (bounded 1) (λ i. fresh_node))))
      (record {
        valid = new-IsValid (bounded 1);
        place = refl;
        nothing = refl;
        sender_alive = refl;
      })

-- What `close` returns.
abbrev pub Closes : State → ℕ → GateInner → Outcome (Option ℕ) → Type 0
Closes closed passes r out =
    (r.state ≡ closed) × (out ≡ err (Errors.closed Errors.ResourceType.gate))
Closes (closing cs) passes r out =
    (c : ℕ) × (r.state ≡ closing (cs ++ (c ∷ []))) × (out ≡ ok (some c))
Closes opened zero r out = (r.state ≡ closed) × (out ≡ ok none)
Closes opened (suc passes) r out = (c : ℕ) × (r.state ≡ closing (c ∷ [])) × (out ≡ ok (some c))

first_free :
    (cs : List ℕ) (channels : ℕ → Channel)
    → is_empty cs ≡ false
    → ((c : ℕ) → elem c cs ≡ true → Untold (channels c))
    → first_is_full channels cs ≡ false
unfolding first_is_full
first_free [] channels e h = absurd (cc)
first_free (c ∷ cs) channels e h =
    let u = h c (ground arith) in empty-not_full (channels c) u.place u.nothing

never_empty : (cs : List ℕ) (c : ℕ) → is_empty (cs ++ (c ∷ [])) ≡ false
never_empty [] c = refl
never_empty (x ∷ cs) c = refl

not_made : (cs : List ℕ) (made : ℕ) → ((c : ℕ) → elem c cs ≡ true → c < made) → elem made cs ≡ false
not_made cs made h = elim (Bool-cases (elem made cs)) [
  | inl e ↦ absurd (omega (arith, h made e))
  | inr e ↦ e
]

one_more-Untold :
    (cs : List ℕ) (channels : ℕ → Channel) (made : ℕ)
    → ((c : ℕ) → elem c cs ≡ true → Untold (channels c))
    → (c : ℕ) → elem c (cs ++ (made ∷ [])) ≡ true
    → Untold (update channels made (LocalChannel.new (bounded 1) (λ i. fresh_node)) c)
one_more-Untold cs channels made h c e = elim (Bool-cases (c == made)) [
  | inl same ↦
      subst (λ k. Untold (update channels made (LocalChannel.new (bounded 1) (λ i. fresh_node)) k))
        (sym ((==_iff c made).0 same)) (new_channel-Untold channels made)
  | inr other ↦
      subst Untold (sym (update_ne channels made c _ other))
        (h c (ground (arith, elem-append c cs (made ∷ []))))
]

close_by :
    (st : State) (count : ℕ) (channels : ℕ → Channel) (made passes : ℕ)
    → Sound (record { count = count; state = st; channels = channels; made = made }) passes
    → (r : GateInner × Outcome (Option ℕ)) × (close
          (record { count = count; state = st; channels = channels; made = made })
        ≡ some r)
      × Sound r.0 passes
      × (is_open r.0 ≡ false)
      × Closes st passes r.0 r.1
unfolding close close_state is_open new_channel
close_by closed count channels made passes v = (_, refl, v, refl, (refl, refl))
close_by opened count channels made zero v =
    let z : (count == 0) ≡ true = ground (arith, v.counted) in
    (
      (record { count = count; state = closed; channels = channels; made = made }, ok none),
      rw z,
      record { counted = v.counted; small = v.small; shape = refl },
      refl,
      (refl, refl),
    )
close_by opened count channels made (suc passes) v =
    let z : (count == 0) ≡ false = ground (arith, v.counted) in
    (
      (
        record {
          count = count;
          state = closing (made ∷ []);
          channels = update channels made (LocalChannel.new (bounded 1) (λ i. fresh_node));
          made = suc made;
        },
        ok (some made),
      ),
      rw z,
      record {
        counted = v.counted;
        small = v.small;
        shape = (
          omega arith,
          refl,
          (refl, tt),
          λ c e. one_more-Untold [] channels made (λ c e. absurd (cc)) c e,
          λ c e. ground arith,
        );
      },
      refl,
      (made, refl, refl),
    )
close_by (closing cs) count channels made passes v =
    let z : (count == 0) ≡ false = ground (arith, v.counted, v.shape.0) in
    (
      (
        record {
          count = count;
          state = closing (cs ++ (made ∷ []));
          channels = update channels made (LocalChannel.new (bounded 1) (λ i. fresh_node));
          made = suc made;
        },
        ok (some made),
      ),
      rw (z, v.shape.1, first_free cs channels v.shape.1 v.shape.3),
      record {
        counted = v.counted;
        small = v.small;
        shape = (
          v.shape.0,
          never_empty cs made,
          Distinct-snoc made cs (not_made cs made v.shape.4) v.shape.2,
          one_more-Untold cs channels made v.shape.3,
          λ c e. ground (arith, elem-append c cs (made ∷ []), v.shape.4 c),
        );
      },
      refl,
      (made, refl, refl),
    )

-- `close` does not panic, and no gate is open afterwards. A gate without passes is closed at once; a
-- gate with passes waits for the last one, with one more closer in its list; a closed gate is an
-- error.
pub close_lem :
    (g : GateInner) (passes : ℕ)
    → Sound g passes
    → (r : GateInner × Outcome (Option ℕ)) × (close g ≡ some r)
      × Sound r.0 passes
      × (is_open r.0 ≡ false)
      × Closes g.state passes r.0 r.1
close_lem g passes v = close_by g.state g.count g.channels g.made passes v
