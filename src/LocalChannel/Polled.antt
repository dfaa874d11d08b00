-- ===== src/LocalChannel/Polled.antt =====
-- What the polls of local_channel.rs do to wakers and marks.
use glommio.Base.{
  ℕ, ◌≡◌, refl, sym, ◌∙◌, ap, subst, inl, inr, Bool, true, false, List, [], ◌∷◌, Option, none, some,
  arith, Bool-cases, if◌then◌else◌, is_some,
}
use glommio.Errors.{Result, ok, err}
use glommio.LocalChannel.{
  State, WaiterKind, sender, receiver, listed, called, wake_sender, is_full, Poll, waits, done,
  pending, ready, unmark, remember, poll_end, poll, wait_for_room, recv_one, recv_front,
  register_into_waiting_queue, remove_from_the_waiting_queue,
}
use glommio.LocalChannel.Ends.{try_send, send_end, sent, poll_send, receive, wake_sent, poll_recv}
use glommio.LocalChannel.Called.{
  AllTouched, untouched, HasWakers, mapped, Within, remove-Within, register-nodes,
  wake_sender-AllTouched, try_send-AllTouched,
}

abbrev pub is_waiting {ℓ} : {R : Type ℓ} → Poll R → Bool
is_waiting waits = true
is_waiting (done r) = false

abbrev pub wakes_of_send {ℓ} : {A : Type ℓ} → Poll (Result A (List ℕ)) → List ℕ
wakes_of_send waits = []
wakes_of_send (done (ok wakes)) = wakes
wakes_of_send (done (err _)) = []

abbrev pub wakes_of_recv {ℓ} : {A : Type ℓ} → Poll (Option A × List ℕ) → List ℕ
wakes_of_recv waits = []
wakes_of_recv (done (_, wakes)) = wakes

module _ {ℓ} {A : Type ℓ} where
  -- A poll that waits remembers the new waker and calls nobody; one that is done touches nodes.
  abbrev pub Polled : State A → ℕ → ℕ → State A → Bool → List ℕ → Type 0
  Polled s i waker t true wakes =
      (wakes ≡ []) × ((kind : WaiterKind) × (t.nodes ≡ (remember (unmark s i) i kind waker).nodes))
  Polled s i waker t false wakes = AllTouched (unmark s i).nodes t.nodes wakes

  poll_end-pending {κ} :
      {R : Type κ} (i waker : ℕ) (s : State A) (kind : WaiterKind) (r : State A × Poll R)
      → poll_end i waker (s, pending kind) ≡ some r
      → (t : State A) × ((t, waits) ≡ r) × (t.nodes ≡ (remember s i kind waker).nodes)
  unfolding poll_end
  poll_end-pending i waker s kind r e =
      let (t, f, g) =
        mapped (λ (t : State A). (t, waits))
          (register_into_waiting_queue (remember s i kind waker) i) r e in
      (t, g, register-nodes (remember s i kind waker) t i f)

  poll_end-ready {κ} :
      {R : Type κ} (i waker : ℕ) (s : State A) (x : R) (r : State A × Poll R)
      → poll_end i waker (s, ready x) ≡ some r
      → (t : State A) × ((t, done x) ≡ r) × Within s t
  unfolding poll_end
  poll_end-ready i waker s x r e =
      let (t, f, g) =
        mapped (λ (t : State A). (t, done x)) (remove_from_the_waiting_queue s i) r e in
      (t, g, remove-Within s t i f)

  unmark-HasWakers :
      (s : State A) (i : ℕ) (ws : List ℕ) → HasWakers ws s.nodes → HasWakers ws (unmark s i).nodes
  unfolding unmark
  unmark-HasWakers s i ws h j e = let (k, f) = h j e in (k, ground (arith, f))

  abbrev SendPolled : State A → ℕ → ℕ → State A × Poll (Result A (List ℕ)) → Type 0
  SendPolled s i waker r = Polled s i waker r.0 (is_waiting r.1) (wakes_of_send r.1)

  abbrev RecvPolled : State A → ℕ → ℕ → State A × Poll (Option A × List ℕ) → Type 0
  RecvPolled s i waker r = Polled s i waker r.0 (is_waiting r.1) (wakes_of_recv r.1)

  sent-Polled :
      (s t : State A) (i waker : ℕ) (item : A) (res : Result A (State A × List ℕ))
      → HasWakers (listed s.recv_waiters) s.nodes
      → Within (unmark s i) t
      → try_send t item ≡ res
      → SendPolled s i waker (sent t res)
  unfolding sent unmark
  sent-Polled s t i waker item (ok (u, wakes)) h w e =
      let u_h = unmark-HasWakers s i (listed s.recv_waiters) h in
      subst (λ nodes. AllTouched nodes u.nodes wakes) w.0
        (try_send-AllTouched t u item wakes
          (λ j m. let (k, f) = u_h j (w.1 j m) in (k, ap (λ g. (g j).waker) w.0 ∙ f)) e)
  sent-Polled s t i waker item (err x) h w e = untouched (unmark s i).nodes t.nodes w.0

  pub poll_send-Polled :
      (s : State A) (i waker : ℕ) (item : A) (r : State A × Poll (Result A (List ℕ)))
      → HasWakers (listed s.recv_waiters) s.nodes
      → poll_send s i waker item ≡ some r
      → Polled s i waker r.0 (is_waiting r.1) (wakes_of_send r.1)
  unfolding poll_send poll wait_for_room send_end
  poll_send-Polled s i waker item r h e =
      let u = unmark s i in
      let (q, f, g) = mapped (send_end item) (poll wait_for_room s i waker) r e in
      let by =
        λ (b : Bool). poll_end i waker (u, if b then pending sender else ready tt) ≡ some q in
      elim (Bool-cases (is_full u)) [
        | inl full ↦
            let (t, k, n) = poll_end-pending i waker u sender q (subst by full f) in
            subst (SendPolled s i waker) (ap (send_end item) k ∙ g) (refl, (sender, n))
        | inr free ↦
            let (t, k, w) = poll_end-ready i waker u tt q (subst by free f) in
            subst (SendPolled s i waker) (ap (send_end item) k ∙ g)
              (sent-Polled s t i waker item (try_send t item) h w refl)
      ]

  received-Polled :
      (s : State A) (i waker : ℕ) (l : List A) (r : State A × Poll (Option A × List ℕ))
      → HasWakers (listed s.send_waiters) s.nodes
      → poll_end i waker (receive (recv_front (unmark s i) l)) ≡ some r
      → RecvPolled s i waker r
  unfolding recv_front receive wake_sent unmark
  received-Polled s i waker [] r h e =
      let u = unmark s i in
      let by = λ (b : Bool).
        poll_end i waker (receive (u, if b then pending receiver else ready none)) ≡ some r in
      elim (Bool-cases (is_some u.send_waiters)) [
        | inl alive ↦
            let (t, k, n) = poll_end-pending i waker u receiver r (subst by alive e) in
            subst (RecvPolled s i waker) k (refl, (receiver, n))
        | inr gone ↦
            let (t, k, w) = poll_end-ready i waker u (none, []) r (subst by gone e) in
            subst (RecvPolled s i waker) k (untouched u.nodes t.nodes w.0)
      ]
  received-Polled s i waker (item ∷ rest) r h e =
      let u = record (unmark s i) { channel = rest } in
      let (t, k, w) =
        poll_end-ready i waker (wake_sender u).0 (some item, called (wake_sender u).1) r e in
      subst (RecvPolled s i waker) k (
        subst (λ nodes. AllTouched u.nodes nodes (called (wake_sender u).1)) (sym w.0)
          (wake_sender-AllTouched u (unmark-HasWakers s i (listed s.send_waiters) h)))

  pub poll_recv-Polled :
      (s : State A) (i waker : ℕ) (r : State A × Poll (Option A × List ℕ))
      → HasWakers (listed s.send_waiters) s.nodes
      → poll_recv s i waker ≡ some r
      → Polled s i waker r.0 (is_waiting r.1) (wakes_of_recv r.1)
  unfolding poll_recv poll recv_one
  poll_recv-Polled s i waker r h e = received-Polled s i waker (unmark s i).channel r h e
