-- ===== src/LocalChannel/Called.antt =====
-- Whose wakers the calls of local_channel.rs call: a waker stays in its node until it is called.
use glommio.Base.{
  ℕ, ◌≡◌, refl, sym, ap, subst, ◌⊎◌, inl, inr, Bool, true, false, List, [], ◌∷◌, ◌++◌, Option, none,
  some, arith, elem, ◌==◌, elem_of-elem-remove, remove, option_map, some_inj, Bool-cases,
  if◌then◌else◌, is_some, is_empty, not,
}
use glommio.Errors.{GlommioError, ok, err}
use glommio.LocalChannel.{
  State, WaiterNode, WaiterKind, sender, receiver, wake_first, listed, called, wake_receiver,
  wake_sender, is_full, is_linked, register_as, register_into_waiting_queue, remove_as,
  remove_from_the_waiting_queue, push, pass_on_wakeup,
}
use glommio.LocalChannel.Ends.{try_send, call_result, passed, pass_on_as, drop_waiter}

-- What a call that calls `wakes` does to a node: it leaves waker and mark alone, or takes the waker,
-- which is one of those called.
abbrev pub Touched : WaiterNode → WaiterNode → List ℕ → Type 0
Touched m n wakes =
    ((n.waker ≡ m.waker) × (n.woken ≡ m.woken))
    ⊎ ((k : ℕ) × (m.waker ≡ some k) × (n.waker ≡ none) × (elem k wakes ≡ true))

abbrev pub AllTouched : (ℕ → WaiterNode) → (ℕ → WaiterNode) → List ℕ → Type 0
AllTouched before after wakes = (j : ℕ) → Touched (before j) (after j) wakes

pub untouched : (nodes nodes' : ℕ → WaiterNode) → nodes' ≡ nodes → AllTouched nodes nodes' []
untouched nodes nodes' e j = inl (ap (λ f. (f j).waker) e, ap (λ f. (f j).woken) e)

-- The waiters of a list have wakers.
abbrev pub HasWakers : List ℕ → (ℕ → WaiterNode) → Type 0
HasWakers ws nodes = (j : ℕ) → elem j ws ≡ true → (k : ℕ) × ((nodes j).waker ≡ some k)

wake_first-AllTouched :
    (o : Option (List ℕ)) (nodes : ℕ → WaiterNode)
    → HasWakers (listed o) nodes
    → AllTouched nodes (wake_first o nodes).1 (called (wake_first o nodes).2)
unfolding wake_first
wake_first-AllTouched none nodes h j = inl (refl, refl)
wake_first-AllTouched (some []) nodes h j = inl (refl, refl)
wake_first-AllTouched (some (w ∷ ws)) nodes h j =
    let (k, e) = h w (ground arith) in
    elim (Bool-cases (j == w)) [
      | inl m ↦ inr (k, ground (arith, e), ground arith, ground arith)
      | inr m ↦ inl (ground arith, ground arith)
    ]

pub mapped {ℓ κ} :
    {A : Type ℓ} {B : Type κ} (f : A → B) (o : Option A) (b : B)
    → option_map f o ≡ some b
    → (a : A) × (o ≡ some a) × (f a ≡ b)
mapped f none b e = absurd (cc)
mapped f (some a) b e = (a, refl, some_inj e)

shorter :
    (i j : ℕ) (o : Option (List ℕ)) (ws : List ℕ)
    → o ≡ some ws
    → elem j (remove i ws) ≡ true
    → elem j (listed o) ≡ true
shorter i j o ws e h =
    subst (λ l. elem j l ≡ true) (sym (ap listed e)) (elem_of-elem-remove j i ws h)

pub if_true {ℓ} : {A : Type ℓ} (b : Bool) (x y z : A) → b ≡ true → (if b then x else y) ≡ z → x ≡ z
if_true true x y z h e = e
if_true false x y z h e = absurd (cc)

pub if_false {ℓ} :
    {A : Type ℓ} (b : Bool) (x y z : A) → b ≡ false → (if b then x else y) ≡ z → y ≡ z
if_false true x y z h e = absurd (cc)
if_false false x y z h e = e

module _ {ℓ} {A : Type ℓ} where
  -- The lists of `t` are part of those of `s`, and its nodes are those of `s`.
  abbrev pub Within : State A → State A → Type 0
  Within s t =
      (t.nodes ≡ s.nodes)
      × ((j : ℕ) → elem j (listed t.recv_waiters) ≡ true → elem j (listed s.recv_waiters) ≡ true)
      × ((j : ℕ) → elem j (listed t.send_waiters) ≡ true → elem j (listed s.send_waiters) ≡ true)

  Within-self : (s t : State A) → s ≡ t → Within s t
  Within-self s t e = subst (Within s) e (refl, (λ j h. h), λ j h. h)

  remove_as-Within :
      (s t : State A) (i : ℕ) (o : Option WaiterKind) → remove_as s i o ≡ some t → Within s t
  unfolding remove_as
  remove_as-Within s t i none e = absurd (cc)
  remove_as-Within s t i (some sender) e =
      let (ws, f, g) =
        mapped (λ ws. record s { send_waiters = some (remove i ws) }) s.send_waiters t e in
      subst (Within s) g (refl, (λ j h. h), λ j h. shorter i j s.send_waiters ws f h)
  remove_as-Within s t i (some receiver) e =
      let (ws, f, g) =
        mapped (λ ws. record s { recv_waiters = some (remove i ws) }) s.recv_waiters t e in
      subst (Within s) g (refl, (λ j h. shorter i j s.recv_waiters ws f h), λ j h. h)

  pub remove-Within :
      (s t : State A) (i : ℕ) → remove_from_the_waiting_queue s i ≡ some t → Within s t
  unfolding remove_from_the_waiting_queue
  remove-Within s t i e = elim (Bool-cases (is_linked s i)) [
    | inl h ↦ remove_as-Within s t i (s.nodes i).kind (if_true (is_linked s i) _ _ _ h e)
    | inr h ↦ Within-self s t (some_inj (if_false (is_linked s i) _ _ _ h e))
  ]

  register_as-nodes :
      (s t : State A) (i : ℕ) (o : Option WaiterKind)
      → register_as s i o ≡ some t
      → t.nodes ≡ s.nodes
  unfolding register_as
  register_as-nodes s t i none e = absurd (cc)
  register_as-nodes s t i (some sender) e =
      let (ws, f, g) =
        mapped (λ ws. record s { send_waiters = some (ws ++ (i ∷ [])) }) s.send_waiters t e in
      sym (ap (λ (u : State A). u.nodes) g)
  register_as-nodes s t i (some receiver) e =
      let (ws, f, g) =
        mapped (λ ws. record s { recv_waiters = some (ws ++ (i ∷ [])) }) s.recv_waiters t e in
      sym (ap (λ (u : State A). u.nodes) g)

  pub register-nodes :
      (s t : State A) (i : ℕ) → register_into_waiting_queue s i ≡ some t → t.nodes ≡ s.nodes
  unfolding register_into_waiting_queue
  register-nodes s t i e = elim (Bool-cases (is_linked s i)) [
    | inl h ↦ sym (ap (λ (u : State A). u.nodes) (some_inj (if_true (is_linked s i) _ _ _ h e)))
    | inr h ↦ register_as-nodes s t i (s.nodes i).kind (if_false (is_linked s i) _ _ _ h e)
  ]

  wake_receiver-AllTouched :
      (s : State A)
      → HasWakers (listed s.recv_waiters) s.nodes
      → AllTouched s.nodes (wake_receiver s).0.nodes (called (wake_receiver s).1)
  unfolding wake_receiver
  wake_receiver-AllTouched s h = wake_first-AllTouched s.recv_waiters s.nodes h

  pub wake_sender-AllTouched :
      (s : State A)
      → HasWakers (listed s.send_waiters) s.nodes
      → AllTouched s.nodes (wake_sender s).0.nodes (called (wake_sender s).1)
  unfolding wake_sender
  wake_sender-AllTouched s h = wake_first-AllTouched s.send_waiters s.nodes h

  -- The nodes after a call with its wakers.
  -- The list in which the waiters of a kind wait, and whether one of them could go on.
  abbrev pub waiting : WaiterKind → State A → List ℕ
  waiting receiver s = listed s.recv_waiters
  waiting sender s = listed s.send_waiters

  abbrev pub may_go : WaiterKind → State A → Bool
  may_go receiver s = not (is_empty s.channel)
  may_go sender s = not (is_full s)

  abbrev After : (ℕ → WaiterNode) → State A × List ℕ → Type 0
  After nodes r = AllTouched nodes r.0.nodes r.1

  pub accepted :
      (b c : Bool) (x y : GlommioError A) (w : State A × Option ℕ) (r : State A × List ℕ)
      → call_result (if b then (if c then err x else ok w) else err y) ≡ ok r
      → passed w ≡ r
  unfolding call_result passed
  accepted true true x y w r e = absurd (cc)
  accepted true false x y w r e = cc
  accepted false c x y w r e = absurd (cc)

  pub try_send-AllTouched :
      (s t : State A) (item : A) (wakes : List ℕ)
      → HasWakers (listed s.recv_waiters) s.nodes
      → try_send s item ≡ ok (t, wakes)
      → AllTouched s.nodes t.nodes wakes
  unfolding try_send push passed
  try_send-AllTouched s t item wakes h e =
      let u = record s { channel = s.channel ++ (item ∷ []) } in
      subst (After s.nodes)
        (accepted (is_some s.recv_waiters) (is_full s) _ _ (wake_receiver u) (t, wakes) e)
        (wake_receiver-AllTouched u h)

  pass_on-AllTouched :
      (s : State A) (kind : WaiterKind)
      → HasWakers (listed s.recv_waiters) s.nodes
      → HasWakers (listed s.send_waiters) s.nodes
      → After s.nodes (passed (pass_on_wakeup s kind))
  unfolding pass_on_wakeup passed
  pass_on-AllTouched s sender h h' = elim (Bool-cases (is_full s)) [
    | inl full ↦
        subst (λ b. After s.nodes (passed (if b then (s, none) else wake_sender s))) (sym full)
          (untouched s.nodes s.nodes refl)
    | inr free ↦
        subst (λ b. After s.nodes (passed (if b then (s, none) else wake_sender s))) (sym free)
          (wake_sender-AllTouched s h')
  ]
  pass_on-AllTouched s receiver h h' = elim (Bool-cases (is_empty s.channel)) [
    | inl empty ↦
        subst (λ b. After s.nodes (passed (if b then (s, none) else wake_receiver s))) (sym empty)
          (untouched s.nodes s.nodes refl)
    | inr items ↦
        subst (λ b. After s.nodes (passed (if b then (s, none) else wake_receiver s))) (sym items)
          (wake_receiver-AllTouched s h)
  ]

  pass_on_as-AllTouched :
      (s : State A) (o : Option WaiterKind) (r : State A × List ℕ)
      → HasWakers (listed s.recv_waiters) s.nodes
      → HasWakers (listed s.send_waiters) s.nodes
      → pass_on_as s o ≡ some r
      → After s.nodes r
  unfolding pass_on_as
  pass_on_as-AllTouched s none r h h' e = absurd (cc)
  pass_on_as-AllTouched s (some kind) r h h' e =
      subst (After s.nodes) (some_inj e) (pass_on-AllTouched s kind h h')

  pub drop_waiter-AllTouched :
      (s : State A) (i : ℕ) (r : State A × List ℕ)
      → HasWakers (listed s.recv_waiters) s.nodes
      → HasWakers (listed s.send_waiters) s.nodes
      → drop_waiter s i ≡ some r
      → AllTouched s.nodes r.0.nodes r.1
  unfolding drop_waiter
  drop_waiter-AllTouched s i r h h' e = elim (Bool-cases (s.nodes i).woken) [
    | inl woken ↦
        pass_on_as-AllTouched s (s.nodes i).kind r h h' (if_true (s.nodes i).woken _ _ _ woken e)
    | inr calm ↦
        let f = if_false (s.nodes i).woken _ _ _ calm e in
        elim (Bool-cases (is_linked s i)) [
          | inl linked ↦
              let (t, g, k) =
                mapped (λ (u : State A). (u, [])) (remove_as s i (s.nodes i).kind) r
                  (if_true (is_linked s i) _ _ _ linked f) in
              subst (After s.nodes) k
                (untouched s.nodes t.nodes (remove_as-Within s t i (s.nodes i).kind g).0)
          | inr free ↦
              subst (After s.nodes) (some_inj (if_false (is_linked s i) _ _ _ free f))
                (untouched s.nodes s.nodes refl)
        ]
  ]
