-- ===== src/LocalChannel/Heard.antt =====
-- Who has been called in a run of local_channel.rs: what is remembered of each waiter.
use glommio.Base.{
  ℕ, ◌≡◌, sym, ◌∙◌, ap, inl, inr, Bool, true, false, List, [], ◌++◌, Option, some, arith, elem,
  elem-append, ◌==◌, update, Bool-cases, if◌then◌else◌,
}
use glommio.LocalChannel.{State, WaiterNode, WaiterKind, unmark, remember, fresh_node}
use glommio.LocalChannel.Called.{AllTouched}
use glommio.LocalChannel.Polled.{Polled}

-- The waker in a node is that of the last poll that waited, and a node that is marked has been
-- called: that waker is among those called since the last poll of the node.
pub record Heard (nodes : ℕ → WaiterNode) (last_waker : ℕ → Option ℕ) (calls : ℕ → List ℕ)
    : Type 0 where
  pub remembered : (j k : ℕ) → (nodes j).waker ≡ some k → last_waker j ≡ some k
  pub told :
      (j : ℕ)
      → (nodes j).woken ≡ true
      → (k : ℕ) × (last_waker j ≡ some k) × (elem k (calls j) ≡ true)

-- The wakers called are added for each node; a poll begins anew for the node that is polled.
abbrev pub more : (ℕ → List ℕ) → List ℕ → ℕ → List ℕ
more calls wakes j = calls j ++ wakes

abbrev pub anew : (ℕ → List ℕ) → ℕ → ℕ → List ℕ
anew calls i j = if j == i then [] else calls j

abbrev pub new_last : Bool → (ℕ → Option ℕ) → ℕ → ℕ → ℕ → Option ℕ
new_last true last i waker = update last i (some waker)
new_last false last i waker = last

calls_more : (k : ℕ) (calls wakes : List ℕ) → elem k calls ≡ true → elem k (calls ++ wakes) ≡ true
calls_more k calls wakes h = ground (arith, elem-append k calls wakes)

calls_new : (k : ℕ) (calls wakes : List ℕ) → elem k wakes ≡ true → elem k (calls ++ wakes) ≡ true
calls_new k calls wakes h = ground (arith, elem-append k calls wakes)

pub touched-Heard :
    {nodes nodes' : ℕ → WaiterNode} {last_waker : ℕ → Option ℕ} {calls : ℕ → List ℕ}
    (wakes : List ℕ)
    → AllTouched nodes nodes' wakes
    → Heard nodes last_waker calls
    → Heard nodes' last_waker (more calls wakes)
touched-Heard {calls = calls} wakes t v = record {
  remembered = λ j k e. elim (t j) [
    | inl (same, _) ↦ v.remembered j k (sym same ∙ e)
    | inr (_, _, gone, _) ↦ absurd (cc (gone, e))
  ];
  told = λ j e. elim (t j) [
    | inl (_, same) ↦
        let (k, l, c) = v.told j (sym same ∙ e) in (k, l, calls_more k (calls j) wakes c)
    | inr (k, had, _, c) ↦ (k, v.remembered j k had, calls_new k (calls j) wakes c)
  ];
}

pub freed-Heard :
    {nodes : ℕ → WaiterNode} {last_waker : ℕ → Option ℕ} {calls : ℕ → List ℕ} (i : ℕ)
    → Heard nodes last_waker calls
    → Heard (update nodes i fresh_node) last_waker calls
freed-Heard i v = record {
  remembered = λ j k e. ground (arith, v.remembered j k);
  told = λ j e. elim (Bool-cases (j == i)) [
    | inl m ↦ absurd (ground arith)
    | inr m ↦ v.told j (ground arith)
  ];
}

module _ {ℓ} {A : Type ℓ} where
  unmark-Heard :
      (s : State A) (i : ℕ) {last_waker : ℕ → Option ℕ} {calls : ℕ → List ℕ}
      → Heard s.nodes last_waker calls
      → Heard (unmark s i).nodes last_waker (anew calls i)
  unfolding unmark
  unmark-Heard s i v = record {
    remembered = λ j k e. v.remembered j k (ground arith);
    told = λ j e. elim (Bool-cases (j == i)) [
      | inl m ↦ absurd (ground arith)
      | inr m ↦ let (k, l, c) = v.told j (ground arith) in (k, l, ground (arith, c))
    ];
  }

  remember-Heard :
      (s : State A) (i : ℕ) (kind : WaiterKind) (waker : ℕ) {last_waker : ℕ → Option ℕ}
      {calls : ℕ → List ℕ}
      → Heard (unmark s i).nodes last_waker calls
      → Heard (remember (unmark s i) i kind waker).nodes (update last_waker i (some waker)) calls
  unfolding unmark remember
  remember-Heard s i kind waker v = record {
    remembered = λ j k e. ground (arith, v.remembered j k);
    told = λ j e. elim (Bool-cases (j == i)) [
      | inl m ↦ absurd (ground arith)
      | inr m ↦ let (k, l, c) = v.told j (ground arith) in (k, ground (arith, l), c)
    ];
  }

  pub polled-Heard :
      (s t : State A) (i waker : ℕ) (waiting : Bool) (wakes : List ℕ) {last_waker : ℕ → Option ℕ}
      {calls : ℕ → List ℕ}
      → Polled s i waker t waiting wakes
      → Heard s.nodes last_waker calls
      → Heard t.nodes (new_last waiting last_waker i waker) (more (anew calls i) wakes)
  polled-Heard s t i waker true wakes {last_waker} {calls} (e, (kind, n)) v =
      touched-Heard wakes (λ j. inl (ap (λ f. (f j).waker) n, ap (λ f. (f j).woken) n))
        (remember-Heard s i kind waker (unmark-Heard s i v))
  polled-Heard s t i waker false wakes p v = touched-Heard wakes p (unmark-Heard s i v)
