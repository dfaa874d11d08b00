-- ===== src/LocalChannel/Sends.antt =====
-- try_send and the polls of send in local_channel.rs.
use glommio.Base.{
  ℕ, suc, ◌-◌, ◌≤◌, ◌<◌, ◌≡◌, refl, sym, ◌∙◌, ap, ap₂, subst, ◌⊎◌, inl, inr, true, false, List, [],
  ◌∷◌, ◌++◌, some, arith, if◌then◌else◌, is_some, length, length-append, Bool-cases,
}
use glommio.LocalChannel.{
  State, ChannelCapacity, unbounded, bounded, sender, listed, wake_receiver, wake_receiver, push,
  wait_for_room, is_full, full_for, Poll, waits, done, poll, poll_end, called, unmark, remember,
  register_into_waiting_queue, remove_from_the_waiting_queue,
}
use glommio.Errors.{Result, ok, err, closed, would_block, ResourceType}
use glommio.LocalChannel.Ends.{poll_send, try_send, call_result, sent, send_end}
use glommio.LocalChannel.Valid.{
  room, due_senders, Sides, IsValid, wake_receiver-Sides, Sides-less, wake_first-is_some,
}
use glommio.LocalChannel.Polls.{Mine, Alike, SameEnds, unmark-Sides_sender, remember-Sides_sender}
use glommio.LocalChannel.Links.{register-sender, remove-sender}
use glommio.LocalChannel.Calls.{settle, same_due, remembered}

-- What a channel that is not full has room for.
not_full : (c : ChannelCapacity) (n x : ℕ) → full_for c n ≡ false → c ≡ bounded x → n < x
unfolding full_for
not_full unbounded n x f e = absurd (cc)
not_full (bounded y) n x f e = ground (arith, e)

one_more : (c : ChannelCapacity) (n m : ℕ) → room c n ≤ suc m → room c (suc n) ≤ m
one_more unbounded n m h = omega arith
one_more (bounded x) n m h = omega arith

pub full_room : (c : ChannelCapacity) (n : ℕ) → full_for c n ≡ true → room c n ≡ 0
unfolding full_for
full_room unbounded n f = refl
full_room (bounded x) n f = ground arith

full_bounded : (c : ChannelCapacity) (n : ℕ) → full_for c n ≡ true → c ≡ unbounded → ⊥
unfolding full_for
full_bounded unbounded n f e = absurd (cc f)
full_bounded (bounded x) n f e = cc

module _ {ℓ} {A : Type ℓ} where
  abbrev with_item : State A → A → State A
  with_item s item = record s { channel = s.channel ++ (item ∷ []) }

  pub pushed-IsValid :
      (s : State A) (item : A) (m : ℕ)
      → is_some s.recv_waiters ≡ true
      → is_full s ≡ false
      → Sides s (length s.channel) m
      → due_senders s ≤ suc m
      → (s.capacity ≡ unbounded → listed s.send_waiters ≡ [])
      → IsValid (wake_receiver (with_item s item)).0
  unfolding wake_receiver is_full
  pushed-IsValid s item m r f v d nf =
      let s' = with_item s item in
      let w =
        wake_receiver-Sides s'
          (record { receivers = v.receivers; senders = v.senders; woken_known = v.woken_known }) in
      let longer = length-append s.channel (item ∷ []) in
      let alive = wake_first-is_some s.recv_waiters s.nodes ∙ r in
      record {
        sides =
            Sides-less _ (omega (arith, longer))
              (subst (λ n. n ≤ m)
                (sym (
                  ap (λ b. if b then room s.capacity (length s'.channel) else 0) alive
                  ∙ ap (room s.capacity) (longer ∙ omega arith)))
                (one_more s.capacity (length s.channel) m
                  (subst (λ b. (if b then room s.capacity (length s.channel) else 0) ≤ suc m) r d)))
              w;
        never_full = nf;
        fits = λ x c. omega (arith, longer, not_full s.capacity (length s.channel) x f c);
      }

  -- What `try_send` returns, and the state after it.
  abbrev pub Offered : State A → A → Result A (State A × List ℕ) → Type ℓ
  Offered s item (ok (t, wakes)) =
      (is_some s.recv_waiters ≡ true)
      × (is_full s ≡ false)
      × (t.channel ≡ s.channel ++ (item ∷ []))
      × IsValid t
      × SameEnds s t
  Offered s item (err e) =
      ((is_some s.recv_waiters ≡ false) × (e ≡ closed (ResourceType.channel item)))
      ⊎ ((is_some s.recv_waiters ≡ true)
          × (is_full s ≡ true)
          × (e ≡ would_block (ResourceType.channel item)))

  -- `try_send` puts the item at the end when the receiver is alive and the channel is not full, and
  -- a valid channel stays valid; otherwise it returns the item in the error for the reason.
  pub try_send_lem : (s : State A) (item : A) → IsValid s → Offered s item (try_send s item)
  unfolding try_send call_result push wake_receiver
  try_send_lem s item v = elim (Bool-cases (is_some s.recv_waiters)) [
    | inr gone ↦ rw gone (inl (gone, refl))
    | inl there ↦ elim (Bool-cases (is_full s)) [
      | inl full ↦ rw (there, full) (inr (there, full, refl))
      | inr room_left ↦
          rw (there, room_left)
            (
              there,
              room_left,
              refl,
              pushed-IsValid s item (due_senders s) there room_left v.sides (omega arith)
                  v.never_full,
              (wake_first-is_some s.recv_waiters s.nodes, refl),
            )
    ]
  ]

  -- What a poll of `send` returns, and the channel after it.
  abbrev pub Delivered : State A → A → State A × Poll (Result A (List ℕ)) → Type ℓ
  Delivered s item (t, p) =
      ((is_full s ≡ true) × (p ≡ waits) × (t.channel ≡ s.channel))
      ⊎ (((is_full s ≡ false) × (is_some s.recv_waiters ≡ true))
          × ((wakes : List ℕ) × (p ≡ done (ok wakes)))
          × (t.channel ≡ s.channel ++ (item ∷ [])))
      ⊎ (((is_full s ≡ false) × (is_some s.recv_waiters ≡ false))
          × (p ≡ done (err (closed (ResourceType.channel item))))
          × (t.channel ≡ s.channel))

  send_waits-run :
      (s : State A) (i waker : ℕ) (item : A) (t : State A)
      → is_full s ≡ true
      → register_into_waiting_queue (remember (unmark s i) i sender waker) i ≡ some t
      → poll_send s i waker item ≡ some (t, waits)
  unfolding poll_send send_end poll poll_end wait_for_room unmark is_full
  send_waits-run s i waker item t f e = rw (f, e)

  send_ready-run :
      (s : State A) (i waker : ℕ) (item : A) (t : State A)
      → is_full s ≡ false
      → remove_from_the_waiting_queue (unmark s i) i ≡ some t
      → poll_send s i waker item ≡ some (sent t (try_send t item))
  unfolding poll_send send_end poll poll_end wait_for_room unmark is_full
  send_ready-run s i waker item t f e = rw (f, e)

  still_full : (s t : State A) → Alike s t → is_full t ≡ is_full s
  unfolding is_full
  still_full s t a = ap₂ (λ c l. full_for c (length l)) a.0 a.1

  send_full :
      (s : State A) (i waker : ℕ) (item : A)
      → IsValid s
      → Mine (s.nodes i) sender
      → is_some s.send_waiters ≡ true
      → is_full s ≡ true
      → (r : State A × Poll (Result A (List ℕ))) × (poll_send s i waker item ≡ some r)
        × IsValid r.0
        × SameEnds s r.0
        × Delivered s item r
  unfolding unmark remember is_full
  send_full s i waker item v mine h f =
      let u = unmark-Sides_sender s i mine v.sides in
      let mine₁ : Mine ((unmark s i).nodes i) sender = ground (arith, mine) in
      let no_room = full_room s.capacity (length s.channel) f in
      let (t, e, y, a) =
        register-sender (remember (unmark s i) i sender waker) i {n = length s.channel} h
          (remembered s i waker sender)
          (Sides-less _ (omega arith) (omega arith)
            (remember-Sides_sender (unmark s i) i waker mine₁ (ground arith) u)) in
      (
        (t, waits),
        send_waits-run s i waker item t f e,
        settle s t a y (omega arith) (ground (arith, no_room))
            (λ c. absurd (full_bounded s.capacity (length s.channel) f c)) v.fits,
        (a.2, a.3),
        inl (f, refl, a.1),
      )

  send_room :
      (s : State A) (i waker : ℕ) (item : A)
      → IsValid s
      → Mine (s.nodes i) sender
      → is_full s ≡ false
      → (r : State A × Poll (Result A (List ℕ))) × (poll_send s i waker item ≡ some r)
        × IsValid r.0
        × SameEnds s r.0
        × Delivered s item r
  unfolding unmark try_send call_result push wake_receiver sent
  send_room s i waker item v mine f =
      let u = unmark-Sides_sender s i mine v.sides in
      let mine₁ : Mine ((unmark s i).nodes i) sender = ground (arith, mine) in
      let (t, e, y, a, nil) = remove-sender (unmark s i) i mine₁ u in
      elim (Bool-cases (is_some s.recv_waiters)) [
        | inl there ↦
            let alive = a.2 ∙ there in
            let free = still_full s t a ∙ f in
            let due = same_due s t a in
            (
              (
                (wake_receiver (with_item t item)).0,
                done (ok (called (wake_receiver (with_item t item)).1)),
              ),
              send_ready-run s i waker item t f e ∙ rw (alive, free),
              pushed-IsValid t item (due_senders s - 1) alive free
                  (Sides-less t (omega (arith, ap length a.1)) (omega arith) y) (omega (arith, due))
                  (λ c. nil (v.never_full (sym a.0 ∙ c))),
              (wake_first-is_some t.recv_waiters t.nodes ∙ a.2, a.3),
              inr (inl ((f, there), (_, refl), ap (λ l. l ++ (item ∷ [])) a.1)),
            )
        | inr gone ↦ (
          (t, done (err (closed (ResourceType.channel item)))),
          send_ready-run s i waker item t f e ∙ rw (a.2 ∙ gone),
          settle s t a y (omega arith)
              (omega (arith, ap (λ b. if b then room s.capacity (length s.channel) else 0) gone))
              (λ c. nil (v.never_full c)) v.fits,
          (a.2, a.3),
          inr (inr ((f, gone), refl, a.1)),
        )
      ]

  -- On a valid channel whose sender is alive a poll of `send` does not panic and keeps the channel
  -- valid. It waits while the channel is full; otherwise it puts the item at the end, or hands it
  -- back if the receiver is gone.
  pub poll_send_lem :
      (s : State A) (i waker : ℕ) (item : A)
      → IsValid s
      → Mine (s.nodes i) sender
      → is_some s.send_waiters ≡ true
      → (r : State A × Poll (Result A (List ℕ))) × (poll_send s i waker item ≡ some r)
        × IsValid r.0
        × SameEnds s r.0
        × Delivered s item r
  poll_send_lem s i waker item v mine h = elim (Bool-cases (is_full s)) [
    | inl f ↦ send_full s i waker item v mine h f
    | inr f ↦ send_room s i waker item v mine f
  ]
