-- ===== src/LocalChannel/Drops.antt =====
-- The drop of a waiter in local_channel.rs.
use glommio.Base.{
  ℕ, ◌-◌, ◌≡◌, refl, ◌∙◌, ap, inl, inr, true, false, List, [], ◌∷◌, Option, none, some, arith,
  length, elem, elem-remove_self, remove, is_empty, update, Bool-cases,
}
use glommio.LocalChannel.{
  State, WaiterNode, WaiterKind, sender, receiver, wake_first, listed, wake_receiver, wake_receiver,
  wake_sender, pass_on_wakeup, is_full, fresh_node, called, is_linked,
}
use glommio.LocalChannel.Ends.{drop_waiter, pass_on_as, passed}
use glommio.LocalChannel.Side.{Queued, Side-frame, Side-write, Side-rewrite}
use glommio.LocalChannel.Valid.{
  Sides, IsValid, wake_receiver-Sides, wake_sender-Sides, wake_first-is_some, wake_first-kind,
}
use glommio.LocalChannel.Heirs.{Heir, drop_waiter-Heir}
use glommio.LocalChannel.Polls.{Alike}
use glommio.LocalChannel.Links.{
  linked-receiver, linked-sender, remove_as-receiver, remove_as-sender,
}
use glommio.LocalChannel.Calls.{wake_sender-Alike, wake_sender-kind, settle}
use glommio.LocalChannel.Sends.{full_room}

no_fresh : {kind : WaiterKind} {n : WaiterNode} {P : Type 0} → n.woken ≡ true → Queued n kind → P
no_fresh u q = absurd (ground (arith, u, q.unwoken))

length_nothing {ℓ} : {A : Type ℓ} (l : List A) → is_empty l ≡ true → length l ≡ 0
length_nothing [] h = refl
length_nothing (x ∷ l) h = cc

still_woken :
    (o : Option (List ℕ)) (nodes : ℕ → WaiterNode) (j : ℕ)
    → (nodes j).woken ≡ true
    → ((wake_first o nodes).1 j).woken ≡ true
unfolding wake_first
still_woken none nodes j u = u
still_woken (some []) nodes j u = u
still_woken (some (w ∷ ws)) nodes j u = ground (arith, u)

module _ {ℓ} {A : Type ℓ} where
  -- The memory of a dropped node is free again.
  abbrev pub freed : State A → ℕ → State A
  freed s i = record s { nodes = update s.nodes i fresh_node }

  freed-Sides_sender :
      (s : State A) (i : ℕ) {n m : ℕ}
      → (s.nodes i).woken ≡ true
      → (s.nodes i).kind ≡ some sender
      → Sides s n m
      → Sides (freed s i) n (m - 1)
  freed-Sides_sender s i u k v = record {
    receivers = Side-frame (λ j e. ground (arith, e, k)) v.receivers;
    senders = Side-write i fresh_node (λ e. no_fresh u (v.senders.queued i e)) v.senders;
    woken_known = λ j e. ground (arith, v.woken_known j);
  }

  freed-Sides_receiver :
      (s : State A) (i : ℕ) {n m : ℕ}
      → (s.nodes i).woken ≡ true
      → (s.nodes i).kind ≡ some receiver
      → Sides s n m
      → Sides (freed s i) (n - 1) m
  freed-Sides_receiver s i u k v = record {
    receivers = Side-write i fresh_node (λ e. no_fresh u (v.receivers.queued i e)) v.receivers;
    senders = Side-frame (λ j e. ground (arith, e, k)) v.senders;
    woken_known = λ j e. ground (arith, v.woken_known j);
  }

  freed-Sides_unwoken :
      (s : State A) (i : ℕ) {n m : ℕ}
      → (s.nodes i).woken ≡ false
      → elem i (listed s.recv_waiters) ≡ false
      → elem i (listed s.send_waiters) ≡ false
      → Sides s n m
      → Sides (freed s i) n m
  freed-Sides_unwoken s i u h k v = record {
    receivers = Side-rewrite i fresh_node u (λ e. absurd (ground arith)) v.receivers;
    senders = Side-rewrite i fresh_node u (λ e. absurd (ground arith)) v.senders;
    woken_known = λ j e. ground (arith, v.woken_known j);
  }

  not_both :
      (s : State A) (i : ℕ) {n m : ℕ}
      → Sides s n m
      → elem i (listed s.recv_waiters) ≡ true
      → elem i (listed s.send_waiters) ≡ false
  not_both s i v h = elim (Bool-cases (elem i (listed s.send_waiters))) [
    | inl both ↦
        let p = v.receivers.queued i h in
        let q = v.senders.queued i both in absurd (ground (arith, p.known, q.known))
    | inr apart ↦ apart
  ]

  -- A dropped waiter that was not woken, linked to receive or to send, or not linked.
  drop_unwoken :
      (s : State A) (i : ℕ)
      → IsValid s
      → (s.nodes i).woken ≡ false
      → (t : State A) × (drop_waiter s i ≡ some (t, [])) × IsValid (freed t i) × Alike s t
  unfolding drop_waiter is_linked
  drop_unwoken s i v u = elim (Bool-cases (elem i (listed s.recv_waiters))) [
    | inl there ↦
        let q = v.sides.receivers.queued i there in
        let (q', (ws, e)) = linked-receiver s i (inr q.known) v.sides (rw there) in
        let (t, f, y, a, b, c, d) = remove_as-receiver s i ws q.known e v.sides in
        let gone =
          ap (elem i) d ∙ elem-remove_self i (listed s.recv_waiters) v.sides.receivers.distinct in
        (
          t,
          rw (u, there, f),
          settle s (freed t i) a
              (freed-Sides_unwoken t i (ap (λ f. (f i).woken) c ∙ u) gone
                (ap (λ o. elem i (listed o)) b ∙ not_both s i v.sides there) y)
              (omega arith) (omega arith) (λ k. ap listed b ∙ v.never_full k) v.fits,
          a,
        )
    | inr not_there ↦ elim (Bool-cases (elem i (listed s.send_waiters))) [
      | inl also ↦
          let q = v.sides.senders.queued i also in
          let (q', (ws, e)) = linked-sender s i (inr q.known) v.sides (rw (not_there, also)) in
          let (t, f, y, a, b, c, d) = remove_as-sender s i ws q.known e v.sides in
          let gone =
            ap (elem i) d ∙ elem-remove_self i (listed s.send_waiters) v.sides.senders.distinct in
          (
            t,
            rw (u, not_there, also, f),
            settle s (freed t i) a
                (freed-Sides_unwoken t i (ap (λ f. (f i).woken) c ∙ u)
                  (ap (λ o. elem i (listed o)) b ∙ not_there) gone y)
                (omega arith) (omega arith) (λ k. d ∙ ap (remove i) (v.never_full k)) v.fits,
            a,
          )
      | inr neither ↦ (
        s,
        rw (u, not_there, neither),
        settle s (freed s i) (refl, refl, refl, refl)
            (freed-Sides_unwoken s i u not_there neither v.sides) (omega arith) (omega arith)
            v.never_full v.fits,
        (refl, refl, refl, refl),
      )
    ]
  ]

  wake_receiver-Alike :
      (s : State A)
      → Alike s (wake_receiver s).0 × ((wake_receiver s).0.send_waiters ≡ s.send_waiters)
  unfolding wake_receiver
  wake_receiver-Alike s = ((refl, refl, wake_first-is_some s.recv_waiters s.nodes, refl), refl)

  drop_woken_sender :
      (s : State A) (i : ℕ)
      → IsValid s
      → (s.nodes i).woken ≡ true
      → (s.nodes i).kind ≡ some sender
      → (r : State A × List ℕ) × (drop_waiter s i ≡ some r) × IsValid (freed r.0 i) × Alike s r.0
  unfolding drop_waiter pass_on_as pass_on_wakeup passed is_full wake_sender
  drop_woken_sender s i v u k = elim (Bool-cases (is_full s)) [
    | inl full ↦ (
      (s, []),
      rw (u, k, full),
      settle s (freed s i) (refl, refl, refl, refl) (freed-Sides_sender s i u k v.sides)
          (omega arith) (ground (arith, full_room s.capacity (length s.channel) full)) v.never_full
          v.fits,
      (refl, refl, refl, refl),
    )
    | inr free ↦
        let (al, nil) = wake_sender-Alike s in
        (
          ((wake_sender s).0, called (wake_sender s).1),
          rw (u, k, free),
          settle s (freed (wake_sender s).0 i) al
              (freed-Sides_sender (wake_sender s).0 i (still_woken s.send_waiters s.nodes i u)
                (wake_sender-kind s i ∙ k) (wake_sender-Sides s v.sides))
              (omega arith) (omega arith) (λ c. nil (v.never_full c)) v.fits,
          al,
        )
  ]

  drop_woken_receiver :
      (s : State A) (i : ℕ)
      → IsValid s
      → (s.nodes i).woken ≡ true
      → (s.nodes i).kind ≡ some receiver
      → (r : State A × List ℕ) × (drop_waiter s i ≡ some r) × IsValid (freed r.0 i) × Alike s r.0
  unfolding drop_waiter pass_on_as pass_on_wakeup passed wake_receiver
  drop_woken_receiver s i v u k = elim (Bool-cases (is_empty s.channel)) [
    | inl nothing ↦ (
      (s, []),
      rw (u, k, nothing),
      settle s (freed s i) (refl, refl, refl, refl) (freed-Sides_receiver s i u k v.sides)
          (omega (arith, length_nothing s.channel nothing)) (omega arith) v.never_full v.fits,
      (refl, refl, refl, refl),
    )
    | inr items ↦
        let (al, same) = wake_receiver-Alike s in
        (
          ((wake_receiver s).0, called (wake_receiver s).1),
          rw (u, k, items),
          settle s (freed (wake_receiver s).0 i) al
              (freed-Sides_receiver (wake_receiver s).0 i (still_woken s.recv_waiters s.nodes i u)
                (wake_first-kind s.recv_waiters s.nodes i ∙ k) (wake_receiver-Sides s v.sides))
              (omega arith) (omega arith) (λ c. ap listed same ∙ v.never_full c) v.fits,
          al,
        )
  ]

  drop_waiter-IsValid :
      (s : State A) (i : ℕ)
      → IsValid s
      → (r : State A × List ℕ) × (drop_waiter s i ≡ some r) × IsValid (freed r.0 i) × Alike s r.0
  drop_waiter-IsValid s i v = elim (Bool-cases (s.nodes i).woken) [
    | inr u ↦ let (t, e, w, a) = drop_unwoken s i v u in ((t, []), e, w, a)
    | inl u ↦ elim (v.sides.woken_known i u) [
      | inl k ↦ drop_woken_sender s i v u k
      | inr k ↦ drop_woken_receiver s i v u k
    ]
  ]

  -- On a valid channel the drop of a waiter, woken or not, to send or to receive, does not panic and
  -- takes no item. When its node is given up the channel is valid. If the waiter had been woken and
  -- not been polled since, and what it was woken for is still there, exactly the waker of the first
  -- waiter of its kind is called and that waiter is marked; a waiter that was not woken wakes nobody.
  pub drop_waiter_lem :
      (s : State A) (i : ℕ)
      → IsValid s
      → (r : State A × List ℕ) × (drop_waiter s i ≡ some r)
        × IsValid (freed r.0 i)
        × Heir s i r
        × Alike s r.0
  drop_waiter_lem s i v =
      let (r, e, w, a) = drop_waiter-IsValid s i v in (r, e, w, drop_waiter-Heir s i r v e, a)
