-- ===== src/LocalChannel/Calls.antt =====
-- The polls of the two ends of local_channel.rs: they return, what they return, and validity.
use glommio.Base.{
  ℕ, suc, ◌-◌, ◌≤◌, ◌≡◌, refl, sym, ◌∙◌, ap, subst, ◌⊎◌, inl, inr, Bool, true, false, List, [], ◌∷◌,
  Option, none, some, arith, if◌then◌else◌, is_some, option_map, length, update, Bool-cases,
}
use glommio.LocalChannel.{
  State, ChannelCapacity, unbounded, bounded, WaiterKind, receiver, listed, wake_sender, Poll,
  waits, done, PollResult, pending, ready, poll, poll_end, recv_one, recv_front, called, unmark,
  remember, register_into_waiting_queue, remove_from_the_waiting_queue,
}
use glommio.LocalChannel.Ends.{poll_next, next, poll_recv, receive, wake_sent}
use glommio.LocalChannel.Side.{Queued}
use glommio.LocalChannel.Valid.{
  room, due_senders, Sides, IsValid, wake_sender-Sides, Sides-less, wake_first-nil,
  wake_first-is_some, wake_first-kind,
}
use glommio.LocalChannel.Polls.{
  Mine, Alike, SameEnds, unmark-Sides_receiver, remember-Sides_receiver,
}
use glommio.LocalChannel.Links.{register-receiver, remove-receiver}

pub one_less :
    (c : ChannelCapacity) (b : Bool) (n : ℕ)
    → (if b then room c n else 0) ≤ suc (if b then room c (suc n) else 0)
one_less unbounded true n = omega arith
one_less unbounded false n = omega arith
one_less (bounded x) true n = omega arith
one_less (bounded x) false n = omega arith

module _ {ℓ} {A : Type ℓ} where
  pub same_due : (s t : State A) → Alike s t → due_senders t ≡ due_senders s
  same_due s t a =
      ap (λ c. if is_some t.recv_waiters then room c (length t.channel) else 0) a.0
      ∙ ap (λ l. if is_some t.recv_waiters then room s.capacity (length l) else 0) a.1
      ∙ ap (λ b. if b then room s.capacity (length s.channel) else 0) a.2

  -- A state is valid if it is like one for which enough waiters are awake.
  pub settle :
      (s t : State A) {n m : ℕ}
      → Alike s t
      → Sides t n m
      → length s.channel ≤ n
      → due_senders s ≤ m
      → (s.capacity ≡ unbounded → listed t.send_waiters ≡ [])
      → ((x : ℕ) → s.capacity ≡ bounded x → length s.channel ≤ x)
      → IsValid t
  settle s t {n} {m} a v h k nf fits =
      let same = same_due s t a in
      record {
        sides =
            Sides-less t (subst (λ l. length l ≤ n) (sym a.1) h) (subst (λ d. d ≤ m) (sym same) k)
              v;
        never_full = λ e. nf (sym a.0 ∙ e);
        fits = λ x e. subst (λ l. length l ≤ x) (sym a.1) (fits x (sym a.0 ∙ e));
      }

  -- What a poll of `recv` or of the stream returns.
  abbrev pub Received : State A → State A × Poll (Option A × List ℕ) → List A → Type ℓ
  Received s (t, p) [] =
      (p ≡ (if is_some s.send_waiters then waits else done (none, []))) × (t.channel ≡ [])
  Received s (t, p) (item ∷ rest) =
      ((wakes : List ℕ) × (p ≡ done (some item, wakes))) × (t.channel ≡ rest)

  pub wake_sender-kind : (s : State A) (j : ℕ) → ((wake_sender s).0.nodes j).kind ≡ (s.nodes j).kind
  unfolding wake_sender
  wake_sender-kind s j = wake_first-kind s.send_waiters s.nodes j

  pub wake_sender-Alike :
      (s : State A)
      → Alike s (wake_sender s).0
        × (listed s.send_waiters ≡ [] → listed (wake_sender s).0.send_waiters ≡ [])
  unfolding wake_sender
  wake_sender-Alike s = (
    (refl, refl, refl, wake_first-is_some s.send_waiters s.nodes),
    wake_first-nil s.send_waiters s.nodes,
  )

  -- The state in which a receiver has taken the first item.
  abbrev taken : State A → ℕ → List A → State A
  taken s i rest = record s {
    channel = rest;
    nodes = update s.nodes i (record (s.nodes i) { woken = false });
  }

  taken-Sides :
      (s : State A) (i : ℕ) (rest : List A) {n m : ℕ}
      → Mine (s.nodes i) receiver
      → Sides s n m
      → Sides (taken s i rest) (n - 1) m
  unfolding unmark
  taken-Sides s i rest mine v =
      let w = unmark-Sides_receiver s i mine v in
      record { receivers = w.receivers; senders = w.senders; woken_known = w.woken_known }

  taken-kind :
      (s : State A) (i : ℕ) (rest : List A) → ((taken s i rest).nodes i).kind ≡ (s.nodes i).kind
  taken-kind s i rest = ground arith

  recv_some-run :
      (s : State A) (i waker : ℕ) (item : A) (rest : List A) (t : State A)
      → s.channel ≡ item ∷ rest
      → remove_from_the_waiting_queue (wake_sender (taken s i rest)).0 i ≡ some t
      → poll_recv s i waker ≡ some (t, done (some item, called (wake_sender (taken s i rest)).1))
  unfolding poll_recv receive recv_one poll recv_front wake_sent poll_end unmark
  recv_some-run s i waker item rest t e f = rw (e, f)

  recv_some :
      (s : State A) (i waker : ℕ) (item : A) (rest : List A)
      → IsValid s
      → Mine (s.nodes i) receiver
      → s.channel ≡ item ∷ rest
      → (r : State A × Poll (Option A × List ℕ)) × (poll_recv s i waker ≡ some r)
        × IsValid r.0
        × SameEnds s r.0
        × Received s r (item ∷ rest)
  recv_some s i waker item rest v mine e =
      let s₁ = taken s i rest in
      let v₁ = wake_sender-Sides s₁ (taken-Sides s i rest mine v.sides) in
      let kind = wake_sender-kind s₁ i ∙ taken-kind s i rest in
      let mine₁ = subst (λ k. (k ≡ none) ⊎ (k ≡ some receiver)) (sym kind) mine in
      let (t, f, y, a, b) = remove-receiver (wake_sender s₁).0 i mine₁ v₁ in
      let (al, nil) = wake_sender-Alike s₁ in
      let longer = ap length e in
      (
        (t, done (some item, called (wake_sender s₁).1)),
        recv_some-run s i waker item rest t e f,
        settle s₁ t (a.0 ∙ al.0, a.1 ∙ al.1, a.2 ∙ al.2, a.3 ∙ al.3) y (omega (arith, longer))
            (subst
              (λ n. due_senders s₁ ≤ suc (if is_some s.recv_waiters then room s.capacity n else 0))
              (sym longer) (one_less s.capacity (is_some s.recv_waiters) (length rest)))
            (λ c. ap listed b ∙ nil (v.never_full c)) (λ x c. omega (arith, v.fits x c, longer)),
        (a.2 ∙ al.2, a.3 ∙ al.3),
        ((_, refl), a.1 ∙ al.1),
      )

  recv_none-run :
      (s : State A) (i waker : ℕ) (t : State A)
      → s.channel ≡ []
      → is_some s.send_waiters ≡ false
      → remove_from_the_waiting_queue (unmark s i) i ≡ some t
      → poll_recv s i waker ≡ some (t, done (none, []))
  unfolding poll_recv receive recv_one poll recv_front wake_sent poll_end unmark
  recv_none-run s i waker t e g f =
      ap (λ l. poll_end i waker (receive (recv_front (unmark s i) l))) e ∙ rw (g, f)

  recv_waits-run :
      (s : State A) (i waker : ℕ) (t : State A)
      → s.channel ≡ []
      → is_some s.send_waiters ≡ true
      → register_into_waiting_queue (remember (unmark s i) i receiver waker) i ≡ some t
      → poll_recv s i waker ≡ some (t, waits)
  unfolding poll_recv receive recv_one poll recv_front wake_sent poll_end unmark
  recv_waits-run s i waker t e g f =
      ap (λ l. poll_end i waker (receive (recv_front (unmark s i) l))) e ∙ rw (g, f)

  pub remembered :
      (s : State A) (i waker : ℕ) (kind : WaiterKind)
      → Queued ((remember (unmark s i) i kind waker).nodes i) kind
  unfolding remember unmark
  remembered s i waker kind = record {
    known = ground arith;
    unwoken = ground arith;
    has_waker = (waker, ground arith);
  }

  recv_empty :
      (s : State A) (i waker : ℕ)
      → IsValid s
      → Mine (s.nodes i) receiver
      → is_some s.recv_waiters ≡ true
      → s.channel ≡ []
      → (r : State A × Poll (Option A × List ℕ)) × (poll_recv s i waker ≡ some r)
        × IsValid r.0
        × SameEnds s r.0
        × Received s r []
  unfolding unmark remember
  recv_empty s i waker v mine h e =
      let u = unmark-Sides_receiver s i mine v.sides in
      let mine₁ : Mine ((unmark s i).nodes i) receiver = ground (arith, mine) in
      let nothing = ap length e in
      elim (Bool-cases (is_some s.send_waiters)) [
        | inl g ↦
            let (t, f, y, a, b) =
              register-receiver (remember (unmark s i) i receiver waker) i {m = due_senders s} h
                (remembered s i waker receiver)
                (Sides-less _ (omega arith) (omega arith)
                  (remember-Sides_receiver (unmark s i) i waker mine₁ (ground arith) u)) in
            (
              (t, waits),
              recv_waits-run s i waker t e g f,
              settle s t a y (omega arith) (omega arith) (λ c. ap listed b ∙ v.never_full c) v.fits,
              (a.2, a.3),
              (rw g, a.1 ∙ e),
            )
        | inr g ↦
            let (t, f, y, a, b) = remove-receiver (unmark s i) i mine₁ u in
            (
              (t, done (none, [])),
              recv_none-run s i waker t e g f,
              settle s t a y (omega arith) (omega arith) (λ c. ap listed b ∙ v.never_full c) v.fits,
              (a.2, a.3),
              (rw g, a.1 ∙ e),
            )
      ]

  recv_by :
      (s : State A) (i waker : ℕ) (l : List A)
      → IsValid s
      → Mine (s.nodes i) receiver
      → is_some s.recv_waiters ≡ true
      → s.channel ≡ l
      → (r : State A × Poll (Option A × List ℕ)) × (poll_recv s i waker ≡ some r)
        × IsValid r.0
        × SameEnds s r.0
        × Received s r l
  recv_by s i waker [] v mine h e = recv_empty s i waker v mine h e
  recv_by s i waker (item ∷ rest) v mine h e = recv_some s i waker item rest v mine e

  -- On a valid channel whose receiver is alive a poll of `recv` does not panic and keeps the channel
  -- valid. It returns the first item and takes it out; if there is none it waits while the sender is
  -- alive and returns nothing when the sender is gone.
  pub poll_recv_lem :
      (s : State A) (i waker : ℕ)
      → IsValid s
      → Mine (s.nodes i) receiver
      → is_some s.recv_waiters ≡ true
      → (r : State A × Poll (Option A × List ℕ)) × (poll_recv s i waker ≡ some r)
        × IsValid r.0
        × SameEnds s r.0
        × Received s r s.channel
  poll_recv_lem s i waker v mine h = recv_by s i waker s.channel v mine h refl

  next-end :
      (i waker : ℕ) (r : State A × PollResult (Option (A × Option ℕ)))
      → option_map next (poll_end i waker r) ≡ poll_end i waker (receive r)
  unfolding next poll_end receive
  next-end i waker (s, pending kind) =
      elim (register_into_waiting_queue (remember s i kind waker) i)
        as (λ o.
          option_map next (option_map (λ t. (t, waits)) o) ≡ option_map (λ t. (t, waits)) o) [
            | none ↦ refl
            | some t ↦ refl
          ]
  next-end i waker (s, ready r) =
      elim (remove_from_the_waiting_queue s i)
        as (λ o.
          option_map next (option_map (λ t. (t, done r)) o)
          ≡ option_map (λ t. (t, done (wake_sent r))) o) [ none ↦ refl | some t ↦ refl ]

  -- The stream and `recv` do the same on a poll.
  pub poll_next-poll_recv : (s : State A) (i waker : ℕ) → poll_next s i waker ≡ poll_recv s i waker
  unfolding poll_next poll_recv poll
  poll_next-poll_recv s i waker = next-end i waker (recv_one (unmark s i))
