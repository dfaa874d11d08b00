-- ===== src/LocalChannel/Ending.antt =====
-- The drop of the sender in local_channel.rs.
use glommio.Base.{
  ℕ, suc, inl, inr, ◌≡◌, refl, sym, ◌∙◌, ap, ap₂, true, false, List, [], ◌∷◌, none, some, arith,
  is_some, length, elem, Distinct, update, Option-cases, ne_of_elem, Bool-cases, ==_iff, some_inj,
  ◌==◌,
}
use glommio.LocalChannel.{
  State, is_full, full_for, bounded, add_wake, WaiterNode, receiver, wake_up_list, listed,
}
use glommio.LocalChannel.Ends.{drop_sender, wake_up_receivers, and_drop, drop_channel}
use glommio.LocalChannel.Side.{Queued}
use glommio.LocalChannel.Valid.{IsValid}

wake_up_list-run :
    (w : ℕ) (ws : List ℕ) (nodes : ℕ → WaiterNode) (k : ℕ) (r : (ℕ → WaiterNode) × List ℕ)
    → (nodes w).waker ≡ some k
    → wake_up_list ws (update nodes w (record (nodes w) { waker = none })) ≡ some r
    → wake_up_list (w ∷ ws) nodes ≡ some (r.0, k ∷ r.1)
unfolding wake_up_list add_wake
wake_up_list-run w ws nodes k r e f = rw (e, wake_up_list, f)

first_called :
    (j w k k' : ℕ) (wakes : List ℕ) (nodes : ℕ → WaiterNode)
    → (j == w) ≡ true
    → (nodes w).waker ≡ some k
    → (nodes j).waker ≡ some k'
    → elem k' (k ∷ wakes) ≡ true
first_called j w k k' wakes nodes at e h =
    let same : k' ≡ k = some_inj (sym h ∙ ap (λ i. (nodes i).waker) ((==_iff j w).0 at) ∙ e) in
    ground (arith, same)

later_called : (k' k : ℕ) (wakes : List ℕ) → elem k' wakes ≡ true → elem k' (k ∷ wakes) ≡ true
later_called k' k wakes h = ground arith

-- Every waiter of the list has a waker: all are called, one each.
wake_up_list_lem :
    (ws : List ℕ) (nodes : ℕ → WaiterNode)
    → Distinct ws
    → ((j : ℕ) → elem j ws ≡ true → (k : ℕ) × ((nodes j).waker ≡ some k))
    → (r : (ℕ → WaiterNode) × List ℕ) × (wake_up_list ws nodes ≡ some r)
      × (length r.1 ≡ length ws)
      × ((j k : ℕ) → elem j ws ≡ true → (nodes j).waker ≡ some k → elem k r.1 ≡ true)
unfolding wake_up_list
wake_up_list_lem [] nodes d h = ((nodes, []), refl, refl, λ j k m e. absurd (cc))
wake_up_list_lem (w ∷ ws) nodes d h =
    let (k, e) = h w (ground arith) in
    let (r, f, n, c) =
      wake_up_list_lem ws (update nodes w (record (nodes w) { waker = none })) d.1 (λ j m.
        let (k', e') = h j (ground arith) in (k', ground (arith, e', ne_of_elem j w ws d.0 m))) in
    (
      (r.0, k ∷ r.1),
      wake_up_list-run w ws nodes k r e f,
      ap suc n,
      λ j k' m h. elim (Bool-cases (j == w)) [
        | inl at ↦ first_called j w k k' r.1 nodes at e h
        | inr other ↦ later_called k' k r.1 (c j k' (ground arith) (ground (arith, h)))
      ],
    )

module _ {ℓ} {A : Type ℓ} where
  -- The drop of the sender of a valid channel does not panic: it calls one waker for each waiting
  -- receiver, leaves the items where they are, and nobody waits to receive any more.
  pub drop_sender_lem :
      (s : State A)
      → IsValid s
      → (r : State A × List ℕ) × (drop_sender s ≡ some r)
        × (length r.1 ≡ length (listed s.recv_waiters))
        × (r.0.channel ≡ s.channel)
        × (is_some r.0.recv_waiters ≡ is_some s.recv_waiters)
        × (listed r.0.recv_waiters ≡ [])
        × (r.0.send_waiters ≡ none)
        × ((j k : ℕ)
            → elem j (listed s.recv_waiters) ≡ true
            → (s.nodes j).waker ≡ some k
            → elem k r.1 ≡ true)
  unfolding drop_sender wake_up_receivers and_drop drop_channel
  drop_sender_lem s v = elim (Option-cases s.recv_waiters) [
    | inl gone ↦ (
      (record s { send_waiters = none }, []),
      rw gone,
      sym (ap (λ o. length (listed o)) gone),
      refl,
      refl,
      ap listed gone,
      refl,
      λ j k m h. absurd (cc (sym m ∙ ap (λ o. elem j (listed o)) gone)),
    )
    | inr (ws, e) ↦
        let d : Distinct ws = rw e at v.sides.receivers.distinct in
        let q : (j : ℕ) → elem j ws ≡ true → Queued (s.nodes j) receiver =
          rw e at v.sides.receivers.queued in
        let (r, f, n, c) = wake_up_list_lem ws s.nodes d (λ j m. (q j m).has_waker) in
        (
          (record s { send_waiters = none; recv_waiters = some []; nodes = r.0 }, r.1),
          rw (e, f),
          n ∙ sym (ap (λ o. length (listed o)) e),
          refl,
          sym (ap is_some e),
          refl,
          refl,
          λ j k m h. c j k (sym (ap (λ o. elem j (listed o)) e) ∙ m) h,
        )
  ]

  pub empty-not_full : (s : State A) → s.capacity ≡ bounded 1 → s.channel ≡ [] → is_full s ≡ false
  unfolding is_full full_for
  empty-not_full s c e = ap₂ (λ c l. full_for c (length l)) c e
