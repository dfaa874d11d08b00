-- ===== src/LocalChannel/Heirs.antt =====
-- To whom the drop of a waiter in local_channel.rs passes a wake-up on.
use glommio.Base.{
  ℕ, ◌≡◌, sym, ◌∙◌, ap, subst, inl, inr, true, false, List, [], ◌∷◌, Option, none, some, arith,
  elem, some_inj, Bool-cases, if◌then◌else◌, is_empty,
}
use glommio.LocalChannel.{
  State, WaiterNode, WaiterKind, sender, receiver, wake_first, listed, called, wake_receiver,
  wake_sender, is_full, is_linked, remove_as, pass_on_wakeup,
}
use glommio.LocalChannel.Ends.{passed, pass_on_as, drop_waiter}
use glommio.LocalChannel.Valid.{IsValid}
use glommio.LocalChannel.Called.{HasWakers, mapped, if_true, if_false, waiting, may_go}

wake_first-head :
    (o : Option (List ℕ)) (nodes : ℕ → WaiterNode) (w k : ℕ) (ws : List ℕ)
    → listed o ≡ w ∷ ws
    → (nodes w).waker ≡ some k
    → ((wake_first o nodes).2 ≡ some k) × (((wake_first o nodes).1 w).woken ≡ true)
unfolding wake_first
wake_first-head none nodes w k ws e h = absurd (cc)
wake_first-head (some []) nodes w k ws e h = absurd (cc)
wake_first-head (some (x ∷ xs)) nodes w k ws e h =
    let same : x ≡ w = cc in (ap (λ j. (nodes j).waker) same ∙ h, ground (arith, same))

module _ {ℓ} {A : Type ℓ} where
  -- Who gets the wake-up of a waiter that is dropped: one that was woken and has not been polled
  -- since passes it on to the first waiter of its kind, if what it was woken for is still there; any
  -- other waiter wakes nobody.
  abbrev pub Heir : State A → ℕ → State A × List ℕ → Type 0
  Heir s i (t, wakes) =
      ((kind : WaiterKind) (w : ℕ) (ws : List ℕ)
        → (s.nodes i).woken ≡ true
        → (s.nodes i).kind ≡ some kind
        → may_go kind s ≡ true
        → waiting kind s ≡ w ∷ ws
        → (k : ℕ) × ((s.nodes w).waker ≡ some k) × (wakes ≡ k ∷ []) × ((t.nodes w).woken ≡ true))
      × ((s.nodes i).woken ≡ false → wakes ≡ [])

  GoesTo : State A → ℕ → ℕ → State A × List ℕ → Type 0
  GoesTo s w k r = (r.1 ≡ k ∷ []) × ((r.0.nodes w).woken ≡ true)

  pass_on-GoesTo :
      (s : State A) (kind : WaiterKind) (w k : ℕ) (ws : List ℕ)
      → may_go kind s ≡ true
      → waiting kind s ≡ w ∷ ws
      → (s.nodes w).waker ≡ some k
      → GoesTo s w k (passed (pass_on_wakeup s kind))
  unfolding GoesTo pass_on_wakeup passed wake_sender wake_receiver
  pass_on-GoesTo s sender w k ws go e h =
      let free : is_full s ≡ false = ground (arith, go) in
      let (a, b) = wake_first-head s.send_waiters s.nodes w k ws e h in
      subst (λ c. GoesTo s w k (passed (if c then (s, none) else wake_sender s))) (sym free)
        (ap called a, b)
  pass_on-GoesTo s receiver w k ws go e h =
      let items : is_empty s.channel ≡ false = ground (arith, go) in
      let (a, b) = wake_first-head s.recv_waiters s.nodes w k ws e h in
      subst (λ c. GoesTo s w k (passed (if c then (s, none) else wake_receiver s))) (sym items)
        (ap called a, b)

  waiting-HasWakers :
      (s : State A) (kind : WaiterKind) → IsValid s → HasWakers (waiting kind s) s.nodes
  waiting-HasWakers s sender v j e = (v.sides.senders.queued j e).has_waker
  waiting-HasWakers s receiver v j e = (v.sides.receivers.queued j e).has_waker

  pub drop_waiter-Heir :
      (s : State A) (i : ℕ) (r : State A × List ℕ)
      → IsValid s
      → drop_waiter s i ≡ some r
      → Heir s i r
  unfolding drop_waiter pass_on_as GoesTo
  drop_waiter-Heir s i r v e = (
    λ kind w ws woken known go there.
        let (k, h) =
          waiting-HasWakers s kind v w (subst (λ l. elem w l ≡ true) (sym there) (ground arith)) in
        let f = if_true (s.nodes i).woken _ _ _ woken e in
        let g = some_inj (sym (ap (pass_on_as s) known) ∙ f) in
        let (a, b) = subst (GoesTo s w k) g (pass_on-GoesTo s kind w k ws go there h) in
        (k, h, a, b),
    λ calm.
        let f = if_false (s.nodes i).woken _ _ _ calm e in
        elim (Bool-cases (is_linked s i)) [
          | inl linked ↦
              let (t, g, k) =
                mapped (λ (u : State A). (u, [])) (remove_as s i (s.nodes i).kind) r
                  (if_true (is_linked s i) _ _ _ linked f) in
              sym (ap (λ (q : State A × List ℕ). q.1) k)
          | inr free ↦ sym (
              ap (λ (q : State A × List ℕ). q.1) (some_inj (if_false (is_linked s i) _ _ _ free f)))
        ],
  )
