-- ===== src/Registry/Chain.antt =====
-- The list that a registry of glommio/src/task/registry.rs stands for.
use glommio.Base.{
  ℕ, ◌≡◌, sym, subst, ◌∙◌, true, false, List, [], ◌∷◌, Option, none, some, arith, elem, Distinct,
}
use glommio.Registry.{Link, head_link, next_of, Registry}

-- From the link `p`, whose value is `cur`, the tasks of the list follow, and each points back.
unfoldable pub Chain : (ℕ → Option ℕ) → (ℕ → Option Link) → Link → Option ℕ → List ℕ → Type 0
Chain next prev p cur [] = cur ≡ none
Chain next prev p cur (x ∷ xs) =
    (cur ≡ some x) × (prev x ≡ some p) × Chain next prev (next_of x) (next x) xs

pub record Represents (r : Registry) (l : List ℕ) : Type 0 where
  pub chain : Chain r.next r.prev_link head_link r.head l
  pub distinct : Distinct l
  pub others : (i : ℕ) → elem i l ≡ false → r.prev_link i ≡ none

-- A chain does not depend on what other tasks hold.
pub Chain-frame :
    (next next' : ℕ → Option ℕ) (prev prev' : ℕ → Option Link) (p : Link) (cur : Option ℕ)
    (l : List ℕ)
    → ((i : ℕ) → elem i l ≡ true → (next' i ≡ next i) × (prev' i ≡ prev i))
    → Chain next prev p cur l
    → Chain next' prev' p cur l
unfolding Chain
Chain-frame next next' prev prev' p cur [] f c = c
Chain-frame next next' prev prev' p cur (x ∷ xs) f (e, b, c) =
    let (n, q) = f x (ground arith) in
    (
      e,
      q ∙ b,
      subst (λ o. Chain next' prev' (next_of x) o xs) (sym n)
          (Chain-frame next next' prev prev' (next_of x) (next x) xs
            (λ i h. f i (ground (arith, h))) c),
    )
