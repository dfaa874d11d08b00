-- ===== src/FreeList/Chain.antt =====
-- The free list of free_list.rs as a chain through the slots.
use glommio.Base.{
  ℕ, ◌≡◌, ◌∙◌, true, false, List, [], ◌∷◌, Option, none, some, arith, get_elem?, elem, ◌==◌,
}
use glommio.FreeList.{Slot, free, FreeList}

module _ {ℓ} {A : Type ℓ} where
  -- From `first` the chain visits exactly the slots of `path`, each once, and ends.
  abbrev pub Chain : (ℕ → Option (Slot A)) → Option ℕ → List ℕ → Type ℓ
  Chain slot first [] = (first ≡ none) × Unit {ℓ}
  Chain slot first (i ∷ path) =
      (first ≡ some i)
      × (elem i path ≡ false)
      × ((next : Option ℕ) × (slot i ≡ some (free next)) × Chain slot next path)

  -- A write to a slot that the chain does not visit leaves it alone.
  pub Chain-frame :
      (s t : ℕ → Option (Slot A)) (k : ℕ)
      → ((j : ℕ) → (j == k) ≡ false → t j ≡ s j)
      → (first : Option ℕ) (path : List ℕ) → elem k path ≡ false
      → Chain s first path
      → Chain t first path
  Chain-frame s t k same first [] h c = c
  Chain-frame s t k same first (i ∷ path) h c = (
    c.0,
    c.1,
    (c.2.0, same i (ground arith) ∙ c.2.1, Chain-frame s t k same c.2.0 path (ground arith) c.2.2),
  )

  -- The chain covers all free slots.
  pub record IsValid (fl : FreeList A) : Type ℓ where
    pub path : List ℕ
    pub chain : Chain (get_elem? fl.slots) fl.first_free path
    pub covers :
        (i : ℕ) (next : Option ℕ) → get_elem? fl.slots i ≡ some (free next) → elem i path ≡ true
