-- ===== src/FreeList/Laws.antt =====
-- alloc and dealloc of free_list.rs against the partial map that `index` reads.
use glommio.Base.{
  ℕ, ◌≡◌, refl, true, false, List, [], ◌∷◌, ◌++◌, Option, none, some, arith, length, get_elem?, set,
  get_elem?-set, get_elem?-snoc, get_elem?-length, lt_of_get_elem?, elem, ◌==◌, if◌then◌else◌,
}
use glommio.FreeList.{Slot, free, full, FreeList, alloc, dealloc, index}
use glommio.FreeList.Chain.{Chain, Chain-frame, IsValid}

module _ {ℓ} {A : Type ℓ} where
  -- What `alloc` promises: it never panics on a valid list, the index it returns was unused, it
  -- holds the item and all other indices hold what they held.
  abbrev pub Allocated : FreeList A → A → FreeList A × ℕ → Type ℓ
  Allocated fl item (fl', idx) =
      (index fl idx ≡ none)
      × ((j : ℕ) → index fl' j ≡ (if j == idx then some item else index fl j))
      × IsValid fl'

  no_free :
      (slot : ℕ → Option (Slot A)) (path : List ℕ) (i : ℕ)
      → Chain slot none path
      → elem i path ≡ true
      → ⊥
  no_free slot [] i c h = cc
  no_free slot (x ∷ path) i c h = cc c.0

  alloc_fresh-IsValid :
      (slots : List (Slot A)) (item : A)
      → IsValid (record { first_free = none; slots = slots })
      → IsValid (record { first_free = none; slots = slots ++ (full item ∷ []) })
  alloc_fresh-IsValid slots item v = record {
    path = [];
    chain = (refl, tt);
    covers = λ i next e. absurd (
        no_free (get_elem? slots) v.path i v.chain
          (v.covers i next (ground (arith, get_elem?-snoc slots i (full item)))));
  }

  alloc_fresh :
      (slots : List (Slot A)) (item : A)
      → IsValid (record { first_free = none; slots = slots })
      → Allocated
          (record { first_free = none; slots = slots })
          item
          (record { first_free = none; slots = slots ++ (full item ∷ []) }, length slots)
  unfolding index
  alloc_fresh slots item v = (
    ground (arith, get_elem?-length slots),
    λ j. ground (arith, get_elem?-snoc slots j (full item)),
    alloc_fresh-IsValid slots item v,
  )

  alloc_reuse-IsValid :
      (slots : List (Slot A)) (item : A) (i : ℕ) (next : Option ℕ) (path : List ℕ)
      → elem i path ≡ false
      → get_elem? slots i ≡ some (free next)
      → Chain (get_elem? slots) next path
      → ((j : ℕ) (n : Option ℕ) → get_elem? slots j ≡ some (free n) → elem j (i ∷ path) ≡ true)
      → IsValid (record { first_free = next; slots = set slots i (full item) })
  alloc_reuse-IsValid slots item i next path h e c cov = record {
    path = path;
    chain =
        Chain-frame (get_elem? slots) (get_elem? (set slots i (full item))) i
          (λ j ne. ground (arith, get_elem?-set slots i j (full item) (lt_of_get_elem? slots i e)))
          next path h c;
    covers = λ j n q.
        ground (arith, cov j n, get_elem?-set slots i j (full item) (lt_of_get_elem? slots i e));
  }

  alloc_path :
      (first : Option ℕ) (slots : List (Slot A)) (item : A) (path : List ℕ)
      → Chain (get_elem? slots) first path
      → ((j : ℕ) (n : Option ℕ) → get_elem? slots j ≡ some (free n) → elem j path ≡ true)
      → (r : FreeList A × ℕ) × (alloc (record { first_free = first; slots = slots }) item ≡ some r)
        × Allocated (record { first_free = first; slots = slots }) item r
  unfolding alloc index
  alloc_path none slots item [] c cov =
      (_, refl, alloc_fresh slots item (record { path = []; chain = c; covers = cov }))
  alloc_path (some k) slots item [] c cov = absurd (cc c.0)
  alloc_path first slots item (i ∷ path) c cov = (
    (record { first_free = c.2.0; slots = set slots i (full item) }, i),
    rw (c.0, alloc, c.2.1),
    (
      ground (arith, c.2.1),
      λ j. ground (arith, get_elem?-set slots i j (full item) (lt_of_get_elem? slots i c.2.1)),
      alloc_reuse-IsValid slots item i c.2.0 path c.1 c.2.1 c.2.2 cov,
    ),
  )

  -- On a valid free list `alloc` never panics. The index it returns was unused, holds the item
  -- afterwards, every other index holds what it held, and the list stays valid.
  pub alloc_lem :
      (fl : FreeList A) (item : A)
      → IsValid fl
      → (r : FreeList A × ℕ) × (alloc fl item ≡ some r) × Allocated fl item r
  alloc_lem fl item v = alloc_path fl.first_free fl.slots item v.path v.chain v.covers

  index_full :
      (fl : FreeList A) (idx : ℕ) (item : A)
      → index fl idx ≡ some item
      → get_elem? fl.slots idx ≡ some (full item)
  unfolding index
  index_full fl idx item e = ground arith

  Chain-unused :
      (slot : ℕ → Option (Slot A)) (k : ℕ) (item : A) (first : Option ℕ) (path : List ℕ)
      → slot k ≡ some (full item)
      → Chain slot first path
      → elem k path ≡ false
  Chain-unused slot k item first [] u c = refl
  Chain-unused slot k item first (i ∷ path) u c =
      ground (arith, c.2.1, Chain-unused slot k item c.2.0 path u c.2.2)

  dealloc-IsValid :
      (fl : FreeList A) (idx : ℕ) (item : A)
      → IsValid fl
      → get_elem? fl.slots idx ≡ some (full item)
      → IsValid (record { first_free = some idx; slots = set fl.slots idx (free fl.first_free) })
  dealloc-IsValid fl idx item v u =
      let inside = lt_of_get_elem? fl.slots idx u in
      let unused = Chain-unused (get_elem? fl.slots) idx item fl.first_free v.path u v.chain in
      record {
        path = idx ∷ v.path;
        chain = (
          refl,
          unused,
          (
            fl.first_free,
            ground (arith, get_elem?-set fl.slots idx idx (free fl.first_free) inside),
            Chain-frame (get_elem? fl.slots) (get_elem? (set fl.slots idx (free fl.first_free))) idx
                (λ j ne. ground (arith, get_elem?-set fl.slots idx j (free fl.first_free) inside))
                fl.first_free v.path unused v.chain,
          ),
        );
        covers = λ j n q.
            ground (arith, v.covers j n, get_elem?-set fl.slots idx j (free fl.first_free) inside);
      }

  -- On a valid free list `dealloc` of an index in use returns its item, frees exactly this index,
  -- and keeps the list valid.
  pub dealloc_lem :
      (fl : FreeList A) (idx : ℕ) (item : A)
      → IsValid fl
      → index fl idx ≡ some item
      → (fl' : FreeList A) × (dealloc fl idx ≡ some (fl', item))
        × ((j : ℕ) → index fl' j ≡ (if j == idx then none else index fl j))
        × IsValid fl'
  unfolding dealloc index
  dealloc_lem fl idx item v e =
      let used = index_full fl idx item e in
      (
        record { first_free = some idx; slots = set fl.slots idx (free fl.first_free) },
        ground (arith, used),
        λ j. ground (
          arith,
          get_elem?-set fl.slots idx j (free fl.first_free) (lt_of_get_elem? fl.slots idx used),
        ),
        dealloc-IsValid fl idx item v used,
      )
