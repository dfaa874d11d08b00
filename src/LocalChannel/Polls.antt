-- ===== src/LocalChannel/Polls.antt =====
-- The steps of a poll in local_channel.rs and the two sides of the channel.
use glommio.Base.{ℕ, ◌-◌, ◌≡◌, refl, ◌⊎◌, false, none, some, arith, is_some}
use glommio.LocalChannel.{State, WaiterNode, WaiterKind, sender, receiver, unmark, remember}
use glommio.LocalChannel.Side.{Side-frame, Side-write, Side-rewrite}
use glommio.LocalChannel.Valid.{Sides}

-- The node is not a waiter of the other kind.
abbrev pub Mine : WaiterNode → WaiterKind → Type 0
Mine n kind = (n.kind ≡ none) ⊎ (n.kind ≡ some kind)

module _ {ℓ} {A : Type ℓ} where
  pub unmark-Sides_receiver :
      (s : State A) (i : ℕ) {n m : ℕ}
      → Mine (s.nodes i) receiver
      → Sides s n m
      → Sides (unmark s i) (n - 1) m
  unfolding unmark
  unmark-Sides_receiver s i mine v = record {
    receivers =
        Side-write i (record (s.nodes i) { woken = false })
          (λ e.
            let q = v.receivers.queued i e in
            record { known = q.known; unwoken = refl; has_waker = q.has_waker })
          v.receivers;
    senders = Side-frame (λ j e. ground (arith, e, mine)) v.senders;
    woken_known = λ j e. ground (arith, v.woken_known j);
  }

  pub unmark-Sides_sender :
      (s : State A) (i : ℕ) {n m : ℕ}
      → Mine (s.nodes i) sender
      → Sides s n m
      → Sides (unmark s i) n (m - 1)
  unfolding unmark
  unmark-Sides_sender s i mine v = record {
    receivers = Side-frame (λ j e. ground (arith, e, mine)) v.receivers;
    senders =
        Side-write i (record (s.nodes i) { woken = false })
          (λ e.
            let q = v.senders.queued i e in
            record { known = q.known; unwoken = refl; has_waker = q.has_waker })
          v.senders;
    woken_known = λ j e. ground (arith, v.woken_known j);
  }

  -- A poll that waits: the node is remembered and put into its list.
  pub remember-Sides_receiver :
      (s : State A) (i waker : ℕ) {n m : ℕ}
      → Mine (s.nodes i) receiver
      → (s.nodes i).woken ≡ false
      → Sides s n m
      → Sides (remember s i receiver waker) n m
  unfolding remember
  remember-Sides_receiver s i waker mine u v = record {
    receivers =
        Side-rewrite i (record (s.nodes i) { kind = some receiver; waker = some waker }) u
          (λ e. record { known = refl; unwoken = u; has_waker = (waker, refl) }) v.receivers;
    senders = Side-frame (λ j e. ground (arith, e, mine)) v.senders;
    woken_known = λ j e. ground (arith, v.woken_known j);
  }

  pub remember-Sides_sender :
      (s : State A) (i waker : ℕ) {n m : ℕ}
      → Mine (s.nodes i) sender
      → (s.nodes i).woken ≡ false
      → Sides s n m
      → Sides (remember s i sender waker) n m
  unfolding remember
  remember-Sides_sender s i waker mine u v = record {
    receivers = Side-frame (λ j e. ground (arith, e, mine)) v.receivers;
    senders =
        Side-rewrite i (record (s.nodes i) { kind = some sender; waker = some waker }) u
          (λ e. record { known = refl; unwoken = u; has_waker = (waker, refl) }) v.senders;
    woken_known = λ j e. ground (arith, v.woken_known j);
  }

  -- What a change of the lists leaves alone.
  abbrev pub Alike : State A → State A → Type ℓ
  Alike s t =
      (t.capacity ≡ s.capacity)
      × (t.channel ≡ s.channel)
      × (is_some t.recv_waiters ≡ is_some s.recv_waiters)
      × (is_some t.send_waiters ≡ is_some s.send_waiters)

  -- Neither end was dropped.
  abbrev pub SameEnds : State A → State A → Type 0
  SameEnds s t =
      (is_some t.recv_waiters ≡ is_some s.recv_waiters)
      × (is_some t.send_waiters ≡ is_some s.send_waiters)
