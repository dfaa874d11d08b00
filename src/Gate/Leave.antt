-- ===== src/Gate/Leave.antt =====
-- The end of the last pass in gate.rs: every closer is told.
use glommio.Base.{
  ℕ, ◌≡◌, refl, sym, ◌∙◌, ap, subst, inl, inr, Bool, true, false, List, [], ◌∷◌, ◌++◌, none, some,
  arith, ◌==◌, is_some, elem, elem-append, Distinct, update, Bool-cases, ==_iff, ne_of_elem,
  update_ne, update_self,
}
use glommio.Errors.{Result, ok, err}
use glommio.LocalChannel.{bounded, listed}
use glommio.LocalChannel.Ends.{try_send, drop_sender}
use glommio.LocalChannel.Valid.{IsValid}
use glommio.LocalChannel.Offers.{try_send-called}
use glommio.LocalChannel.Sends.{Offered, try_send_lem}
use glommio.LocalChannel.Ending.{drop_sender_lem, empty-not_full}
use glommio.Gate.{Channel, notify_one, notify_all, send_true, add_wakes}

abbrev LocalSend : Type 0
LocalSend = Result Bool (Channel × List ℕ)

-- A channel whose closer has not been told yet.
pub record Untold (s : Channel) : Type 0 where
  pub valid : IsValid s
  pub place : s.capacity ≡ bounded 1
  pub nothing : s.channel ≡ []
  pub sender_alive : is_some s.send_waiters ≡ true

-- A channel whose closer has been told: the Boolean is there if the receiver is, every waiter that
-- stood in the list has been called, nobody waits there any more, and the sender is gone.
pub record Told (before s : Channel) (wakes : List ℕ) : Type 0 where
  pub same_receiver : is_some s.recv_waiters ≡ is_some before.recv_waiters
  pub news : is_some s.recv_waiters ≡ true → s.channel ≡ true ∷ []
  pub called :
      (j : ℕ)
      → elem j (listed before.recv_waiters) ≡ true
      → (k : ℕ) × ((before.nodes j).waker ≡ some k) × (elem k wakes ≡ true)
  pub nobody_waits : listed s.recv_waiters ≡ []
  pub sender_gone : s.send_waiters ≡ none

notify_one-run :
    (s s' : Channel) (wakes : List ℕ) (r : Channel × List ℕ)
    → send_true s (try_send s true) ≡ (s', wakes)
    → drop_sender s' ≡ some r
    → notify_one s ≡ some (r.0, wakes ++ r.1)
unfolding notify_one add_wakes
notify_one-run s s' wakes r e f = rw (e, f)

in_front : (k : ℕ) (l wakes : List ℕ) → elem k l ≡ true → elem k (l ++ wakes) ≡ true
in_front k l wakes h = ground (arith, elem-append k l wakes)

in_back : (k : ℕ) (l wakes : List ℕ) → elem k wakes ≡ true → elem k (l ++ wakes) ≡ true
in_back k l wakes h = ground (arith, elem-append k l wakes)

-- More wakers have been called.
Told-more :
    {before s : Channel} {wakes : List ℕ} (more : List ℕ)
    → ((k : ℕ) → elem k wakes ≡ true → elem k more ≡ true)
    → Told before s wakes
    → Told before s more
Told-more more f t = record {
  same_receiver = t.same_receiver;
  news = t.news;
  called = λ j m. let (k, e, c) = t.called j m in (k, e, f k c);
  nobody_waits = t.nobody_waits;
  sender_gone = t.sender_gone;
}

notify_one_by :
    (s : Channel) (res : LocalSend)
    → Untold s
    → try_send s true ≡ res
    → Offered s true res
    → (r : Channel × List ℕ) × (notify_one s ≡ some r) × Told s r.0 r.1
unfolding send_true
notify_one_by s (ok (t, wakes)) u e (alive, free, c, v, ends) =
    let (r, f, n, k, a, l, g, heard) = drop_sender_lem t v in
    (
      (r.0, wakes ++ r.1),
      notify_one-run s t wakes r (ap (send_true s) e) f,
      record {
        same_receiver = a ∙ ends.0;
        news = λ h. k ∙ c ∙ ap (λ q. q ++ (true ∷ [])) u.nothing;
        called = λ j m.
            let (key, h) = (u.valid.sides.receivers.queued j m).has_waker in
            (
              key,
              h,
              elim (try_send-called s t true wakes
                  (λ i q. (u.valid.sides.receivers.queued i q).has_waker) e j key m h) [
                    | inl c ↦ in_front key wakes r.1 c
                    | inr (stays, same) ↦ in_back key wakes r.1 (heard j key stays same)
                  ],
            );
        nobody_waits = l;
        sender_gone = g;
      },
    )
notify_one_by s (err x) u e (inl (gone, _)) =
    let (r, f, n, k, a, l, g, heard) = drop_sender_lem s u.valid in
    (
      (r.0, [] ++ r.1),
      notify_one-run s s [] r (ap (send_true s) e) f,
      record {
        same_receiver = a;
        news = λ h. absurd (cc (sym a ∙ h, gone));
        called = λ j m.
            let (key, h) = (u.valid.sides.receivers.queued j m).has_waker in
            (key, h, heard j key m h);
        nobody_waits = l;
        sender_gone = g;
      },
    )
notify_one_by s (err x) u e (inr (alive, full, _)) =
    let free = empty-not_full s u.place u.nothing in absurd (cc (full, free))

notify_one_lem :
    (s : Channel) → Untold s → (r : Channel × List ℕ) × (notify_one s ≡ some r) × Told s r.0 r.1
notify_one_lem s u = notify_one_by s (try_send s true) u refl (try_send_lem s true u.valid)

notify_all-run :
    (c : ℕ) (cs : List ℕ) (channels : ℕ → Channel) (s : Channel × List ℕ)
    (r : (ℕ → Channel) × List ℕ)
    → notify_one (channels c) ≡ some s
    → notify_all cs (update channels c s.0) ≡ some r
    → notify_all (c ∷ cs) channels ≡ some (r.0, s.1 ++ r.1)
unfolding notify_all
notify_all-run c cs channels s r e f = rw (e, notify_all, f)

-- The loop tells every closer in the list and leaves other channels alone.
pub notify_all_lem :
    (cs : List ℕ) (channels : ℕ → Channel)
    → Distinct cs
    → ((c : ℕ) → elem c cs ≡ true → Untold (channels c))
    → (r : (ℕ → Channel) × List ℕ) × (notify_all cs channels ≡ some r)
      × ((c : ℕ) → elem c cs ≡ true → Told (channels c) (r.0 c) r.1)
      × ((c : ℕ) → elem c cs ≡ false → r.0 c ≡ channels c)
unfolding notify_all
notify_all_lem [] channels d u = ((channels, []), refl, (λ c e. absurd (cc)), λ c e. refl)
notify_all_lem (c ∷ cs) channels d u =
    let (s, e, told) = notify_one_lem (channels c) (u c (ground arith)) in
    let rest : (j : ℕ) → elem j cs ≡ true → update channels c s.0 j ≡ channels j =
      λ j m. update_ne channels c j s.0 (ne_of_elem j c cs d.0 m) in
    let (r, f, all, others) =
      notify_all_lem cs (update channels c s.0) d.1
        (λ j m. subst Untold (sym (rest j m)) (u j (ground arith))) in
    (
      (r.0, s.1 ++ r.1),
      notify_all-run c cs channels s r e f,
      λ j m. elim (Bool-cases (j == c)) [
        | inl same ↦
            subst (λ x. Told (channels x) (r.0 x) (s.1 ++ r.1)) (sym ((==_iff j c).0 same))
              (subst (λ y. Told (channels c) y (s.1 ++ r.1))
                (sym (others c d.0 ∙ update_self channels c s.0))
                (Told-more (s.1 ++ r.1) (λ k. in_front k s.1 r.1) told))
        | inr other ↦
            subst (λ y. Told y (r.0 j) (s.1 ++ r.1)) (update_ne channels c j s.0 other)
              (Told-more (s.1 ++ r.1) (λ k. in_back k s.1 r.1) (all j (ground arith)))
      ],
      λ j m. others j (ground arith) ∙ update_ne channels c j s.0 (ground arith),
    )
