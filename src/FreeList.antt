-- ===== src/FreeList.antt =====
-- glommio/src/free_list.rs: a slab whose free slots are threaded into a list. `Idx<T>` is its `raw`
-- number. `none` is a panic: a read out of range, or `unreachable!`.
pub mod Chain
pub mod Laws
mod Tests
use glommio.Base.{ℕ, List, [], ◌∷◌, ◌++◌, Option, none, some, length, get_elem?, set}

pub data Slot {ℓ} (A : Type ℓ) : Type ℓ where
  free : (next_free : Option ℕ) → Slot A
  full : (item : A) → Slot A

pub record FreeList {ℓ} (A : Type ℓ) : Type ℓ where
  pub first_free : Option ℕ
  pub slots : List (Slot A)

module _ {ℓ} {A : Type ℓ} where
  -- `Default::default`; the capacity that it reserves is not observed.
  pub default : FreeList A
  default = record { first_free = none; slots = [] }

  -- What `alloc` does with the slot that it found at the head of the free list.
  alloc_at : FreeList A → A → ℕ → Option (Slot A) → Option (FreeList A × ℕ)
  alloc_at fl item idx (some (free next_free)) =
      some (record { first_free = next_free; slots = set fl.slots idx (full item) }, idx)
  alloc_at fl item idx (some (full _)) = none
  alloc_at fl item idx none = none

  pub alloc : FreeList A → A → Option (FreeList A × ℕ)
  unfolding alloc_at
  alloc fl item = elim fl.first_free [
    | some idx ↦ alloc_at fl item idx (get_elem? fl.slots idx)
    | none ↦ some (record fl { slots = fl.slots ++ (full item ∷ []) }, length fl.slots)
  ]

  dealloc_at : FreeList A → ℕ → Option (Slot A) → Option (FreeList A × A)
  dealloc_at fl idx (some (full item)) =
      some (record { first_free = some idx; slots = set fl.slots idx (free fl.first_free) }, item)
  dealloc_at fl idx (some (free _)) = none
  dealloc_at fl idx none = none

  pub dealloc : FreeList A → ℕ → Option (FreeList A × A)
  unfolding dealloc_at
  dealloc fl idx = dealloc_at fl idx (get_elem? fl.slots idx)

  index_at : Option (Slot A) → Option A
  index_at (some (full item)) = some item
  index_at (some (free _)) = none
  index_at none = none

  -- `Index::index` and `IndexMut::index_mut`: the place that the two return a reference to.
  pub index : FreeList A → ℕ → Option A
  unfolding index_at
  index fl idx = index_at (get_elem? fl.slots idx)
