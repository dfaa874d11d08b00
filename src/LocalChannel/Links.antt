-- ===== src/LocalChannel/Links.antt =====
-- Registration and removal of waiters in local_channel.rs.
use glommio.Base.{
  ℕ, ◌≡◌, refl, sym, ◌∙◌, ap, inl, inr, true, false, List, [], ◌∷◌, ◌++◌, some, arith, is_some,
  elem, remove, Bool-cases, Option-cases,
}
use glommio.LocalChannel.{
  State, sender, receiver, listed, is_linked, register_into_waiting_queue,
  remove_from_the_waiting_queue, register_as, remove_as,
}
use glommio.LocalChannel.Side.{Queued, Side, Side-remove, Side-snoc}
use glommio.LocalChannel.Valid.{Sides}
use glommio.LocalChannel.Polls.{Mine, Alike}

module _ {ℓ} {A : Type ℓ} where
  pub register-receiver :
      (s : State A) (i : ℕ) {m : ℕ}
      → is_some s.recv_waiters ≡ true
      → Queued (s.nodes i) receiver
      → Sides s 0 m
      → (t : State A) × (register_into_waiting_queue s i ≡ some t)
        × Sides t 0 m
        × Alike s t
        × (t.send_waiters ≡ s.send_waiters)
  unfolding register_into_waiting_queue is_linked register_as
  register-receiver s i h q v = elim (Bool-cases (is_linked s i)) [
    | inl linked ↦ (s, rw linked, v, (refl, refl, refl, refl), refl)
    | inr apart ↦ elim (Option-cases s.recv_waiters) [
      | inl gone ↦ absurd (ground (arith, gone, h))
      | inr (ws, e) ↦ (
        record s { recv_waiters = some (ws ++ (i ∷ [])) },
        rw (apart, q.known, e),
        record {
          receivers =
              let v' : Side receiver ws s.nodes 0 = rw e at v.receivers in
              Side-snoc i (ground (arith, apart, ap (λ o. elem i (listed o)) e)) q v';
          senders = v.senders;
          woken_known = v.woken_known;
        },
        (refl, refl, sym h, refl),
        refl,
      )
    ]
  ]

  pub register-sender :
      (s : State A) (i : ℕ) {n : ℕ}
      → is_some s.send_waiters ≡ true
      → Queued (s.nodes i) sender
      → Sides s n 0
      → (t : State A) × (register_into_waiting_queue s i ≡ some t) × Sides t n 0 × Alike s t
  unfolding register_into_waiting_queue is_linked register_as
  register-sender s i h q v = elim (Bool-cases (is_linked s i)) [
    | inl linked ↦ (s, rw linked, v, (refl, refl, refl, refl))
    | inr apart ↦ elim (Option-cases s.send_waiters) [
      | inl gone ↦ absurd (ground (arith, gone, h))
      | inr (ws, e) ↦ (
        record s { send_waiters = some (ws ++ (i ∷ [])) },
        rw (apart, q.known, e),
        record {
          receivers = v.receivers;
          senders =
              let v' : Side sender ws s.nodes 0 = rw e at v.senders in
              Side-snoc i (ground (arith, apart, ap (λ o. elem i (listed o)) e)) q v';
          woken_known = v.woken_known;
        },
        (refl, refl, refl, sym h),
      )
    ]
  ]

  -- A node that is no waiter of the other kind is linked in the list of its own kind only.
  pub linked-receiver :
      (s : State A) (i : ℕ) {n m : ℕ}
      → Mine (s.nodes i) receiver
      → Sides s n m
      → is_linked s i ≡ true
      → Queued (s.nodes i) receiver × ((ws : List ℕ) × (s.recv_waiters ≡ some ws))
  unfolding is_linked
  linked-receiver s i mine v l = elim (Option-cases s.recv_waiters) [
    | inl gone ↦
        let none_there : elem i (listed s.recv_waiters) ≡ false =
          ap (λ o. elem i (listed o)) gone in
        let q = v.senders.queued i (ground (arith, none_there)) in
        absurd (ground (arith, q.known, mine))
    | inr (ws, e) ↦ elim (Bool-cases (elem i (listed s.recv_waiters))) [
      | inl there ↦ (v.receivers.queued i there, (ws, e))
      | inr not_there ↦
          let q = v.senders.queued i (ground (arith, not_there)) in
          absurd (ground (arith, q.known, mine))
    ]
  ]

  pub linked-sender :
      (s : State A) (i : ℕ) {n m : ℕ}
      → Mine (s.nodes i) sender
      → Sides s n m
      → is_linked s i ≡ true
      → Queued (s.nodes i) sender × ((ws : List ℕ) × (s.send_waiters ≡ some ws))
  unfolding is_linked
  linked-sender s i mine v l = elim (Option-cases s.send_waiters) [
    | inl gone ↦
        let none_there : elem i (listed s.send_waiters) ≡ false =
          ap (λ o. elem i (listed o)) gone in
        let q = v.receivers.queued i (ground (arith, none_there)) in
        absurd (ground (arith, q.known, mine))
    | inr (ws, e) ↦ elim (Bool-cases (elem i (listed s.send_waiters))) [
      | inl there ↦ (v.senders.queued i there, (ws, e))
      | inr not_there ↦
          let q = v.receivers.queued i (ground (arith, not_there)) in
          absurd (ground (arith, q.known, mine))
    ]
  ]

  -- The removal of a node from the list that it is in.
  pub remove_as-receiver :
      (s : State A) (i : ℕ) {n m : ℕ} (ws : List ℕ)
      → (s.nodes i).kind ≡ some receiver
      → s.recv_waiters ≡ some ws
      → Sides s n m
      → (t : State A) × (remove_as s i (s.nodes i).kind ≡ some t)
        × Sides t n m
        × Alike s t
        × (t.send_waiters ≡ s.send_waiters)
        × (t.nodes ≡ s.nodes)
        × (listed t.recv_waiters ≡ remove i (listed s.recv_waiters))
  unfolding remove_as
  remove_as-receiver s i ws k e v = (
    record s { recv_waiters = some (remove i ws) },
    rw (k, e),
    record {
      receivers = let v' : Side receiver ws s.nodes _ = rw e at v.receivers in Side-remove i v';
      senders = v.senders;
      woken_known = v.woken_known;
    },
    (refl, refl, sym (ap is_some e), refl),
    refl,
    refl,
    sym (ap (λ o. remove i (listed o)) e),
  )

  pub remove_as-sender :
      (s : State A) (i : ℕ) {n m : ℕ} (ws : List ℕ)
      → (s.nodes i).kind ≡ some sender
      → s.send_waiters ≡ some ws
      → Sides s n m
      → (t : State A) × (remove_as s i (s.nodes i).kind ≡ some t)
        × Sides t n m
        × Alike s t
        × (t.recv_waiters ≡ s.recv_waiters)
        × (t.nodes ≡ s.nodes)
        × (listed t.send_waiters ≡ remove i (listed s.send_waiters))
  unfolding remove_as
  remove_as-sender s i ws k e v = (
    record s { send_waiters = some (remove i ws) },
    rw (k, e),
    record {
      receivers = v.receivers;
      senders = let v' : Side sender ws s.nodes _ = rw e at v.senders in Side-remove i v';
      woken_known = v.woken_known;
    },
    (refl, refl, refl, sym (ap is_some e)),
    refl,
    refl,
    sym (ap (λ o. remove i (listed o)) e),
  )

  pub remove-receiver :
      (s : State A) (i : ℕ) {n m : ℕ}
      → Mine (s.nodes i) receiver
      → Sides s n m
      → (t : State A) × (remove_from_the_waiting_queue s i ≡ some t)
        × Sides t n m
        × Alike s t
        × (t.send_waiters ≡ s.send_waiters)
  unfolding remove_from_the_waiting_queue
  remove-receiver s i mine v = elim (Bool-cases (is_linked s i)) [
    | inl l ↦
        let (q, (ws, e)) = linked-receiver s i mine v l in
        let (t, f, y, a, b, c, d) = remove_as-receiver s i ws q.known e v in (t, rw (l, f), y, a, b)
    | inr apart ↦ (s, rw apart, v, (refl, refl, refl, refl), refl)
  ]

  pub remove-sender :
      (s : State A) (i : ℕ) {n m : ℕ}
      → Mine (s.nodes i) sender
      → Sides s n m
      → (t : State A) × (remove_from_the_waiting_queue s i ≡ some t)
        × Sides t n m
        × Alike s t
        × (listed s.send_waiters ≡ [] → listed t.send_waiters ≡ [])
  unfolding remove_from_the_waiting_queue
  remove-sender s i mine v = elim (Bool-cases (is_linked s i)) [
    | inl l ↦
        let (q, (ws, e)) = linked-sender s i mine v l in
        let (t, f, y, a, b, c, d) = remove_as-sender s i ws q.known e v in
        (t, rw (l, f), y, a, λ nil. d ∙ ap (remove i) nil)
    | inr apart ↦ (s, rw apart, v, (refl, refl, refl, refl), λ nil. nil)
  ]
