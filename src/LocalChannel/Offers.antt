-- ===== src/LocalChannel/Offers.antt =====
-- Whom a `try_send` of local_channel.rs calls, and who goes on waiting.
use glommio.Base.{
  ℕ, ◌≡◌, sym, ◌∙◌, subst, ◌⊎◌, inl, inr, true, List, [], ◌∷◌, ◌++◌, Option, none, some, arith,
  elem, ◌==◌, some_inj, Bool-cases, is_some,
}
use glommio.Errors.{ok}
use glommio.LocalChannel.{State, WaiterNode, wake_first, listed, wake_receiver, is_full, push}
use glommio.LocalChannel.Ends.{try_send, passed}
use glommio.LocalChannel.Called.{HasWakers, accepted, try_send-AllTouched}

-- A waiter that leaves the list has lost its waker.
wake_first-left :
    (o : Option (List ℕ)) (nodes : ℕ → WaiterNode) (j : ℕ)
    → elem j (listed o) ≡ true
    → (elem j (listed (wake_first o nodes).0) ≡ true) ⊎ (((wake_first o nodes).1 j).waker ≡ none)
unfolding wake_first
wake_first-left none nodes j e = absurd (cc)
wake_first-left (some []) nodes j e = absurd (cc)
wake_first-left (some (w ∷ ws)) nodes j e = elim (Bool-cases (j == w)) [
  | inl at ↦ inr (ground arith)
  | inr other ↦ inl (ground arith)
]

module _ {ℓ} {A : Type ℓ} where
  Left : State A → ℕ → State A × List ℕ → Type 0
  Left s j r = (elem j (listed r.0.recv_waiters) ≡ true) ⊎ ((r.0.nodes j).waker ≡ none)

  try_send-Left :
      (s t : State A) (item : A) (wakes : List ℕ) (j : ℕ)
      → elem j (listed s.recv_waiters) ≡ true
      → try_send s item ≡ ok (t, wakes)
      → (elem j (listed t.recv_waiters) ≡ true) ⊎ ((t.nodes j).waker ≡ none)
  unfolding try_send push passed wake_receiver Left
  try_send-Left s t item wakes j m e =
      let u = record s { channel = s.channel ++ (item ∷ []) } in
      subst (Left s j)
        (accepted (is_some s.recv_waiters) (is_full s) _ _ (wake_receiver u) (t, wakes) e)
        (wake_first-left s.recv_waiters s.nodes j m)

  -- After a `try_send` a waiting receiver has been called, or it still waits, with its waker.
  pub try_send-called :
      (s t : State A) (item : A) (wakes : List ℕ)
      → HasWakers (listed s.recv_waiters) s.nodes
      → try_send s item ≡ ok (t, wakes)
      → (j k : ℕ) → elem j (listed s.recv_waiters) ≡ true
      → (s.nodes j).waker ≡ some k
      → (elem k wakes ≡ true)
        ⊎ ((elem j (listed t.recv_waiters) ≡ true) × ((t.nodes j).waker ≡ some k))
  try_send-called s t item wakes h e j k m f = elim (try_send-AllTouched s t item wakes h e j) [
    | inl (same, _) ↦ elim (try_send-Left s t item wakes j m e) [
      | inl stays ↦ inr (stays, same ∙ f)
      | inr lost ↦ absurd (cc (lost, same, f))
    ]
    | inr (k', had, _, c) ↦ inl (subst (λ n. elem n wakes ≡ true) (some_inj (sym had ∙ f)) c)
  ]
