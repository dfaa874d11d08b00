-- ===== src/FreeList/Tests.antt =====
-- The free list on concrete inputs.
use glommio.Base.{
  ◌==◌, if◌then◌else◌, zero, suc, ℕ, ◌≡◌, refl, true, [], ◌∷◌, Option, none, some, get_elem?, elem,
}
use glommio.FreeList.{free, full, FreeList, default, alloc, dealloc, index}
use glommio.FreeList.Chain.{IsValid}
use glommio.FreeList.Laws.{Allocated, alloc_lem, dealloc_lem}

-- Slot 1 is free, slots 0 and 2 are in use.
abbrev holed : FreeList ℕ
holed = record { first_free = some 1; slots = full 7 ∷ free none ∷ full 9 ∷ [] }

holed_covers :
    (i : ℕ) (next : Option ℕ) → get_elem? holed.slots i ≡ some (free next) → elem i (1 ∷ []) ≡ true
holed_covers zero next e = cc
holed_covers (suc zero) next e = refl
holed_covers (suc (suc zero)) next e = cc
holed_covers (suc (suc (suc i))) next e = cc

holed-IsValid : IsValid holed
holed-IsValid = record {
  path = 1 ∷ [];
  chain = (refl, refl, (none, refl, (refl, tt)));
  covers = holed_covers;
}

-- The smoke test of free_list.rs.
smoke : alloc (default {A = ℕ}) 5 ≡ some (record { first_free = none; slots = full 5 ∷ [] }, 0)
unfolding alloc default
smoke = refl

reuse :
    alloc holed 8 ≡ some (record { first_free = none; slots = full 7 ∷ full 8 ∷ full 9 ∷ [] }, 1)
unfolding alloc
reuse = refl

alloc_lem_example : (r : FreeList ℕ × ℕ) × (alloc holed 8 ≡ some r) × Allocated holed 8 r
alloc_lem_example = alloc_lem holed 8 holed-IsValid

dealloc_lem_example :
    (fl' : FreeList ℕ) × (dealloc holed 2 ≡ some (fl', 9))
    × ((j : ℕ) → index fl' j ≡ (if j == 2 then none else index holed j))
    × IsValid fl'
unfolding index
dealloc_lem_example = dealloc_lem holed 2 9 holed-IsValid refl
