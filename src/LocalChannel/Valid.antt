-- ===== src/LocalChannel/Valid.antt =====
-- What holds of a channel of local_channel.rs between two calls.
use glommio.Base.{
  ℕ, suc, ◌-◌, ◌≤◌, ◌≡◌, refl, ◌⊎◌, true, List, [], ◌∷◌, Option, none, some, arith, if◌then◌else◌,
  is_some, length,
}
use glommio.LocalChannel.{
  State, ChannelCapacity, unbounded, bounded, WaiterNode, WaiterKind, sender, receiver, wake_first,
  listed, wake_receiver, wake_sender,
}
use glommio.LocalChannel.Side.{Side, Side-less, wake_first-Side, wake_first-Side_other}

-- How many items still fit.
abbrev pub room : ChannelCapacity → ℕ → ℕ
room unbounded n = 0
room (bounded x) n = x - n

-- The senders that should be awake: none when the receiver is gone.
abbrev pub due_senders {ℓ} : {A : Type ℓ} → State A → ℕ
due_senders s = if is_some s.recv_waiters then room s.capacity (length s.channel) else 0

-- Only known nodes are woken.
abbrev pub WokenKnown : (ℕ → WaiterNode) → Type 0
WokenKnown nodes =
    (j : ℕ)
    → (nodes j).woken ≡ true
    → ((nodes j).kind ≡ some sender) ⊎ ((nodes j).kind ≡ some receiver)

module _ {ℓ} {A : Type ℓ} where
  pub record Sides (s : State A) (n m : ℕ) : Type 0 where
    pub receivers : Side receiver (listed s.recv_waiters) s.nodes n
    pub senders : Side sender (listed s.send_waiters) s.nodes m
    pub woken_known : WokenKnown s.nodes

  -- If somebody waits to receive, at least as many others have been woken as there are items; if
  -- somebody waits to send, at least as many as there are free places.
  pub record IsValid (s : State A) : Type 0 where
    pub sides : Sides s (length s.channel) (due_senders s)
    pub never_full : s.capacity ≡ unbounded → listed s.send_waiters ≡ []
    pub fits : (x : ℕ) → s.capacity ≡ bounded x → length s.channel ≤ x

wake_first-WokenKnown :
    (kind : WaiterKind) (o : Option (List ℕ)) (nodes : ℕ → WaiterNode) (n : ℕ)
    → Side kind (listed o) nodes n
    → WokenKnown nodes
    → WokenKnown (wake_first o nodes).1
unfolding wake_first
wake_first-WokenKnown kind none nodes n v k = k
wake_first-WokenKnown kind (some []) nodes n v k = k
wake_first-WokenKnown sender (some (w ∷ ws)) nodes n v k =
    let q = v.queued w (ground arith) in λ j e. ground (arith, q.known, k j)
wake_first-WokenKnown receiver (some (w ∷ ws)) nodes n v k =
    let q = v.queued w (ground arith) in λ j e. ground (arith, q.known, k j)

pub wake_first-is_some :
    (o : Option (List ℕ)) (nodes : ℕ → WaiterNode) → is_some (wake_first o nodes).0 ≡ is_some o
unfolding wake_first
wake_first-is_some none nodes = refl
wake_first-is_some (some []) nodes = refl
wake_first-is_some (some (w ∷ ws)) nodes = refl

pub wake_first-kind :
    (o : Option (List ℕ)) (nodes : ℕ → WaiterNode) (j : ℕ)
    → ((wake_first o nodes).1 j).kind ≡ (nodes j).kind
unfolding wake_first
wake_first-kind none nodes j = refl
wake_first-kind (some []) nodes j = refl
wake_first-kind (some (w ∷ ws)) nodes j = ground arith

pub wake_first-nil :
    (o : Option (List ℕ)) (nodes : ℕ → WaiterNode)
    → listed o ≡ []
    → listed (wake_first o nodes).0 ≡ []
unfolding wake_first
wake_first-nil none nodes e = refl
wake_first-nil (some []) nodes e = refl
wake_first-nil (some (w ∷ ws)) nodes e = absurd (cc)

module _ {ℓ} {A : Type ℓ} where
  pub wake_receiver-Sides :
      (s : State A) {n m : ℕ} → Sides s n m → Sides (wake_receiver s).0 (suc n) m
  unfolding wake_receiver
  wake_receiver-Sides s {n} {m} v = record {
    receivers = wake_first-Side receiver s.recv_waiters s.nodes n v.receivers;
    senders =
        wake_first-Side_other receiver sender s.recv_waiters s.nodes n m (listed s.send_waiters)
          (λ e. cc) v.receivers v.senders;
    woken_known = wake_first-WokenKnown receiver s.recv_waiters s.nodes n v.receivers v.woken_known;
  }

  pub wake_sender-Sides : (s : State A) {n m : ℕ} → Sides s n m → Sides (wake_sender s).0 n (suc m)
  unfolding wake_sender
  wake_sender-Sides s {n} {m} v = record {
    receivers =
        wake_first-Side_other sender receiver s.send_waiters s.nodes m n (listed s.recv_waiters)
          (λ e. cc) v.senders v.receivers;
    senders = wake_first-Side sender s.send_waiters s.nodes m v.senders;
    woken_known = wake_first-WokenKnown sender s.send_waiters s.nodes m v.senders v.woken_known;
  }

  -- Neither changes anything but the list and the store.
  pub wake_receiver-send_waiters :
      (s : State A)
      → ((wake_receiver s).0.send_waiters ≡ s.send_waiters)
        × (is_some (wake_receiver s).0.recv_waiters ≡ is_some s.recv_waiters)
  unfolding wake_receiver
  wake_receiver-send_waiters s = (refl, wake_first-is_some s.recv_waiters s.nodes)

  pub Sides-less : (s : State A) {n m n' m' : ℕ} → n' ≤ n → m' ≤ m → Sides s n m → Sides s n' m'
  Sides-less s h k v = record {
    receivers = Side-less h v.receivers;
    senders = Side-less k v.senders;
    woken_known = v.woken_known;
  }
