-- ===== src/LocalChannel/Runs.antt =====
-- What holds in every run of a channel of local_channel.rs.
use glommio.Base.{
  ℕ, ◌≡◌, refl, sym, ◌∙◌, ap, ap₂, if◌then◌else◌, subst, inl, inr, true, List, [], ◌∷◌, ◌++◌,
  Option, none, arith, is_some, same_result,
}
use mathlib.Core.List.{append-nil, append_assoc}
use glommio.Errors.{Result, ok}
use glommio.LocalChannel.{
  State, ChannelCapacity, WaiterKind, sender, receiver, Poll, waits, done, new, fresh_node, listed,
}
use glommio.LocalChannel.Side.{Side}
use glommio.LocalChannel.Valid.{room, IsValid}
use glommio.LocalChannel.Calls.{Received, poll_recv_lem}
use glommio.LocalChannel.Sends.{Delivered, Offered, try_send_lem, poll_send_lem}
use glommio.LocalChannel.Drops.{freed, drop_waiter_lem}
use glommio.LocalChannel.World.{
  World, Step, Reach, start, later, polls_send, polls_recv, tries, drops, sent_by, got_by,
}
use glommio.LocalChannel.Called.{HasWakers, try_send-AllTouched, drop_waiter-AllTouched}
use glommio.LocalChannel.Polled.{
  is_waiting, wakes_of_send, wakes_of_recv, poll_send-Polled, poll_recv-Polled,
}
use glommio.LocalChannel.Heard.{Heard, touched-Heard, freed-Heard, polled-Heard}

pub empty-Side : (kind : WaiterKind) (n : ℕ) → Side kind [] (λ i. fresh_node) n
empty-Side kind n = record {
  distinct = tt;
  queued = λ j e. absurd (cc);
  woken = [];
  woken_distinct = tt;
  woken_marked = λ j e. absurd (cc);
  enough = inl refl;
}

module _ {ℓ} {A : Type ℓ} where
  -- What holds in every reached world.
  pub record Good (w : World A) : Type ℓ where
    pub valid : IsValid w.state
    pub can_recv : is_some w.state.recv_waiters ≡ true
    pub can_send : is_some w.state.send_waiters ≡ true
    pub in_order : w.accepted ≡ w.received ++ w.state.channel
    pub heard : Heard w.state.nodes w.last_waker w.calls

  snoc_ledger :
      (l r c : List A) (item : A) → l ≡ r ++ c → l ++ (item ∷ []) ≡ r ++ (c ++ (item ∷ []))
  snoc_ledger l r c item e = ap (λ k. k ++ (item ∷ [])) e ∙ append_assoc r c (item ∷ [])

  send-Good :
      (w : World A) (item : A) (t : State A) (p : Poll (Result A (List ℕ)))
      → Good w
      → Delivered w.state item (t, p)
      → w.accepted ++ sent_by item p ≡ w.received ++ t.channel
  send-Good w item t p g (inl (f, e, c)) =
      ap (λ q. w.accepted ++ sent_by item q) e
      ∙ append-nil w.accepted
      ∙ g.in_order
      ∙ ap (λ l. w.received ++ l) (sym c)
  send-Good w item t p g (inr (inl (f, (wakes, e), c))) =
      ap (λ q. w.accepted ++ sent_by item q) e
      ∙ snoc_ledger w.accepted w.received w.state.channel item g.in_order
      ∙ ap (λ l. w.received ++ l) (sym c)
  send-Good w item t p g (inr (inr (f, e, c))) =
      ap (λ q. w.accepted ++ sent_by item q) e
      ∙ append-nil w.accepted
      ∙ g.in_order
      ∙ ap (λ l. w.received ++ l) (sym c)

  recv-Good :
      (w : World A) (t : State A) (p : Poll (Option A × List ℕ)) (l : List A)
      → Good w
      → w.state.channel ≡ l
      → Received w.state (t, p) l
      → w.accepted ≡ (w.received ++ got_by p) ++ t.channel
  recv-Good w t p [] g c (e, d) =
      g.in_order
      ∙ ap₂ (λ r l. r ++ l)
          (sym (
            ap (λ q. w.received ++ got_by q)
              (e ∙ ap (λ b. if b then waits else done (none, [])) g.can_send)
            ∙ append-nil w.received))
          (c ∙ sym d)
  recv-Good w t p (item ∷ rest) g c ((wakes, e), d) =
      g.in_order
      ∙ ap (λ l. w.received ++ l) c
      ∙ sym (append_assoc w.received (item ∷ []) rest)
      ∙ ap₂ (λ q l. (w.received ++ got_by q) ++ l) (sym e) (sym d)

  receivers-HasWakers :
      (w : World A) → Good w → HasWakers (listed w.state.recv_waiters) w.state.nodes
  receivers-HasWakers w g j e = (g.valid.sides.receivers.queued j e).has_waker

  senders-HasWakers : (w : World A) → Good w → HasWakers (listed w.state.send_waiters) w.state.nodes
  senders-HasWakers w g j e = (g.valid.sides.senders.queued j e).has_waker

  Step-Good : {w x : World A} → Step A w x → Good w → Good x
  Step-Good {w} (polls_send i waker item {t} {p} mine e) g =
      let (r, f, v, ends, d) = poll_send_lem w.state i waker item g.valid mine g.can_send in
      let same = same_result f e in
      record {
        valid = subst (λ (r : State A × Poll (Result A (List ℕ))). IsValid r.0) same v;
        can_recv =
            ap (λ (r : State A × Poll (Result A (List ℕ))). is_some r.0.recv_waiters) (sym same)
            ∙ ends.0
            ∙ g.can_recv;
        can_send =
            ap (λ (r : State A × Poll (Result A (List ℕ))). is_some r.0.send_waiters) (sym same)
            ∙ ends.1
            ∙ g.can_send;
        in_order = send-Good w item t p g (subst (Delivered w.state item) same d);
        heard =
            polled-Heard w.state t i waker (is_waiting p) (wakes_of_send p)
              (poll_send-Polled w.state i waker item (t, p) (receivers-HasWakers w g) e) g.heard;
      }
  Step-Good {w} (polls_recv i waker {t} {p} mine e) g =
      let (r, f, v, ends, d) = poll_recv_lem w.state i waker g.valid mine g.can_recv in
      let same = same_result f e in
      record {
        valid = subst (λ (r : State A × Poll (Option A × List ℕ)). IsValid r.0) same v;
        can_recv =
            ap (λ (r : State A × Poll (Option A × List ℕ)). is_some r.0.recv_waiters) (sym same)
            ∙ ends.0
            ∙ g.can_recv;
        can_send =
            ap (λ (r : State A × Poll (Option A × List ℕ)). is_some r.0.send_waiters) (sym same)
            ∙ ends.1
            ∙ g.can_send;
        in_order = recv-Good w t p w.state.channel g refl (
            subst (λ (r : State A × Poll (Option A × List ℕ)). Received w.state r w.state.channel)
              same d);
        heard =
            polled-Heard w.state t i waker (is_waiting p) (wakes_of_recv p)
              (poll_recv-Polled w.state i waker (t, p) (senders-HasWakers w g) e) g.heard;
      }
  Step-Good {w} (tries item {t} {wakes} e) g =
      let o = try_send_lem w.state item g.valid in
      let (a, b, c, v, ends) : Offered w.state item (ok (t, wakes)) =
        subst (Offered w.state item) e o in
      record {
        valid = v;
        can_recv = ends.0 ∙ g.can_recv;
        can_send = ends.1 ∙ g.can_send;
        in_order =
            snoc_ledger w.accepted w.received w.state.channel item g.in_order
            ∙ ap (λ l. w.received ++ l) (sym c);
        heard =
            touched-Heard wakes
              (try_send-AllTouched w.state t item wakes (receivers-HasWakers w g) e) g.heard;
      }
  Step-Good {w} (drops i {t} {wakes} e) g =
      let (r, f, v, _, a) = drop_waiter_lem w.state i g.valid in
      let same = same_result f e in
      record {
        valid = subst (λ (r : State A × List ℕ). IsValid (freed r.0 i)) same v;
        can_recv =
            ap (λ (r : State A × List ℕ). is_some r.0.recv_waiters) (sym same) ∙ a.2 ∙ g.can_recv;
        can_send =
            ap (λ (r : State A × List ℕ). is_some r.0.send_waiters) (sym same) ∙ a.3 ∙ g.can_send;
        in_order =
            g.in_order
            ∙ ap (λ l. w.received ++ l) (sym a.1 ∙ ap (λ (r : State A × List ℕ). r.0.channel) same);
        heard = freed-Heard i (
            touched-Heard wakes
              (drop_waiter-AllTouched w.state i (t, wakes) (receivers-HasWakers w g)
                (senders-HasWakers w g) e)
              g.heard);
      }

  new-Good :
      (capacity : ChannelCapacity)
      → Good (record {
        state = new capacity (λ i. fresh_node);
        accepted = [];
        received = [];
        last_waker = λ i. none;
        calls = λ i. [];
      })
  unfolding new
  new-Good capacity = record {
    valid = record {
      sides = record {
        receivers = empty-Side receiver 0;
        senders = empty-Side sender (room capacity 0);
        woken_known = λ j e. absurd (cc);
      };
      never_full = λ c. refl;
      fits = λ x c. omega arith;
    };
    can_recv = refl;
    can_send = refl;
    in_order = refl;
    heard = record { remembered = λ j k e. absurd (cc); told = λ j e. absurd (cc) };
  }

  pub Reach-Good : {capacity : ChannelCapacity} {w : World A} → Reach A capacity w → Good w
  Reach-Good {capacity} start = new-Good capacity
  Reach-Good (later r st) = Step-Good st (Reach-Good r)

  pub new-IsValid : (capacity : ChannelCapacity) → IsValid (new {A = A} capacity (λ i. fresh_node))
  new-IsValid capacity = (new-Good capacity).valid

  -- Every reached channel is valid.
  pub Reach-IsValid :
      {capacity : ChannelCapacity} {w : World A} → Reach A capacity w → IsValid w.state
  Reach-IsValid r = (Reach-Good r).valid

  -- In every run of a channel with both ends alive, the items received, followed by those in the
  -- channel, are the items accepted, in order: none is lost, doubled or overtaken.
  pub Reach-in_order :
      {capacity : ChannelCapacity} {w : World A}
      → Reach A capacity w
      → w.accepted ≡ w.received ++ w.state.channel
  Reach-in_order r = (Reach-Good r).in_order
