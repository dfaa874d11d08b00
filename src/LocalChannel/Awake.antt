-- ===== src/LocalChannel/Awake.antt =====
-- No wake-up is lost in a run of local_channel.rs.
use glommio.Base.{
  ℕ, ◌≡◌, refl, sym, ap, ◌<◌, if◌then◌else◌, subst, ◌⊎◌, inl, inr, not, is_empty, true, false, some,
  List, [], ◌∷◌, arith, length, elem,
}
use glommio.LocalChannel.{
  ChannelCapacity, WaiterNode, WaiterKind, sender, receiver, is_full, full_for, unbounded, bounded,
}
use glommio.LocalChannel.Side.{Side, Woken}
use glommio.LocalChannel.Valid.{room}
use glommio.LocalChannel.Called.{waiting, may_go}
use glommio.LocalChannel.World.{World, Reach}
use glommio.LocalChannel.Runs.{Reach-Good}

somebody : (l : List ℕ) → 0 < length l → (j : ℕ) × (elem j l ≡ true)
somebody [] h = absurd (omega arith)
somebody (x ∷ l) h = (x, ground arith)

awake :
    {kind : WaiterKind} {list : List ℕ} {nodes : ℕ → WaiterNode} {due : ℕ} (i : ℕ)
    → Side kind list nodes due
    → elem i list ≡ true
    → 0 < due
    → (j : ℕ) × Woken (nodes j) kind
awake i v e h = elim v.enough [
  | inl nobody ↦ absurd (ground (arith, ap (elem i) nobody, e))
  | inr enough ↦ let (j, m) = somebody v.woken (omega arith) in (j, v.woken_marked j m)
]

length_pos {ℓ} : {A : Type ℓ} (l : List A) → not (is_empty l) ≡ true → 0 < length l
length_pos [] h = cc
length_pos (x ∷ l) h = omega arith

room_left : (c : ChannelCapacity) (n : ℕ) → full_for c n ≡ false → (c ≡ unbounded) ⊎ (0 < room c n)
unfolding full_for
room_left unbounded n f = inl refl
room_left (bounded x) n f = inr (ground arith)

module _ {ℓ} {A : Type ℓ} where
  -- Some waiter is marked.
  marked :
      {capacity : ChannelCapacity} {w : World A} (kind : WaiterKind) (i : ℕ)
      → Reach A capacity w
      → elem i (waiting kind w.state) ≡ true
      → may_go kind w.state ≡ true
      → (j : ℕ) × Woken (w.state.nodes j) kind
  unfolding is_full
  marked {w = w} receiver i r e h =
      awake i (Reach-Good r).valid.sides.receivers e (length_pos w.state.channel h)
  marked {w = w} sender i r e h =
      let g = Reach-Good r in
      elim (room_left w.state.capacity (length w.state.channel) (ground arith)) [
        | inl never ↦ absurd (ground (arith, ap (elem i) (g.valid.never_full never), e))
        | inr free ↦ awake i g.valid.sides.senders e (
            subst (λ b. 0 < (if b then room w.state.capacity (length w.state.channel) else 0))
              (sym g.can_recv) free)
      ]

  -- In every run of a channel with both ends alive no wake-up is lost: when a waiter stands in the
  -- list of its kind although it could go on, because there is an item to receive or a place to send
  -- to, some waiter of that kind has been marked as woken and not been polled since, and the waker
  -- of its last poll that waited has been called since its last poll.
  pub Reach-no_lost_wake :
      {capacity : ChannelCapacity} {w : World A} (kind : WaiterKind) (i : ℕ)
      → Reach A capacity w
      → elem i (waiting kind w.state) ≡ true
      → may_go kind w.state ≡ true
      → (j : ℕ) × Woken (w.state.nodes j) kind
        × ((k : ℕ) × (w.last_waker j ≡ some k) × (elem k (w.calls j) ≡ true))
  Reach-no_lost_wake {w = w} kind i r e h =
      let (j, m) = marked kind i r e h in (j, m, (Reach-Good r).heard.told j m.0)
