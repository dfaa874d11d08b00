-- ===== src/Base/Queues.antt =====
-- Intrusive queues: lists of the numbers of distinct nodes. A node is linked when it is an element.
use Prim.Native.Nat.{ℕ, suc, ◌≤◌}
use mathlib.Core.Path.{◌≡◌, refl}
use mathlib.Core.Bool.{Bool, true, false, ◌||◌}
use mathlib.Core.List.{List, [], ◌∷◌, ◌++◌}
use native.Mathlib.Omega.{arith}
use glommio.Base.Lists.{length}
use glommio.Base.Tests.{◌==◌, if◌then◌else◌}

abbrev pub elem : ℕ → List ℕ → Bool
elem j [] = false
elem j (x ∷ xs) = j == x || elem j xs

abbrev pub remove : ℕ → List ℕ → List ℕ
remove j [] = []
remove j (x ∷ xs) = if j == x then xs else x ∷ remove j xs

abbrev pub Distinct : List ℕ → Type 0
Distinct [] = Unit {0}
Distinct (x ∷ xs) = (elem x xs ≡ false) × Distinct xs

abbrev pub is_empty {ℓ} : {A : Type ℓ} → List A → Bool
is_empty [] = true
is_empty (x ∷ xs) = false

pub elem-append : (j : ℕ) (xs ys : List ℕ) → elem j (xs ++ ys) ≡ (elem j xs || elem j ys)
elem-append j [] ys = refl
elem-append j (x ∷ xs) ys = ground (arith, elem-append j xs ys)

pub elem-remove_ne : (j i : ℕ) (xs : List ℕ) → (j == i) ≡ false → elem j (remove i xs) ≡ elem j xs
elem-remove_ne j i [] h = refl
elem-remove_ne j i (x ∷ xs) h = ground (arith, elem-remove_ne j i xs h)

pub elem-remove_self : (i : ℕ) (xs : List ℕ) → Distinct xs → elem i (remove i xs) ≡ false
elem-remove_self i [] d = refl
elem-remove_self i (x ∷ xs) d = ground (arith, elem-remove_self i xs d.1)

pub elem_of-elem-remove : (j i : ℕ) (xs : List ℕ) → elem j (remove i xs) ≡ true → elem j xs ≡ true
elem_of-elem-remove j i [] h = h
elem_of-elem-remove j i (x ∷ xs) h = ground (arith, elem_of-elem-remove j i xs)

pub Distinct-remove : (i : ℕ) (xs : List ℕ) → Distinct xs → Distinct (remove i xs)
Distinct-remove i [] d = tt
Distinct-remove i (x ∷ xs) d = ground (arith, Distinct-remove i xs d.1, elem-remove_ne x i xs)

pub Distinct-snoc :
    (i : ℕ) (xs : List ℕ) → elem i xs ≡ false → Distinct xs → Distinct (xs ++ (i ∷ []))
Distinct-snoc i [] h d = (refl, tt)
Distinct-snoc i (x ∷ xs) h d = ground (arith, Distinct-snoc i xs, elem-append x xs (i ∷ []))

pub ne_of_elem : (j w : ℕ) (ws : List ℕ) → elem w ws ≡ false → elem j ws ≡ true → (j == w) ≡ false
ne_of_elem j w ws h e = ground arith

pub nil_of_no_elem : (xs : List ℕ) → ((j : ℕ) → elem j xs ≡ true → elem j [] ≡ true) → xs ≡ []
nil_of_no_elem [] h = refl
nil_of_no_elem (x ∷ xs) h = ground (arith, h x)

pub not_elem_front :
    (w : ℕ) (front back : List ℕ) → elem w (front ++ back) ≡ false → elem w front ≡ false
not_elem_front w [] back h = refl
not_elem_front w (x ∷ front) back h = ground (arith, not_elem_front w front back)

pub Distinct-append_right : (front back : List ℕ) → Distinct (front ++ back) → Distinct back
Distinct-append_right [] back d = d
Distinct-append_right (x ∷ front) back d = Distinct-append_right front back d.1

-- An element of the back part is not in the front part.
pub not_elem_front_of_back :
    (j : ℕ) (front back : List ℕ)
    → Distinct (front ++ back)
    → elem j back ≡ true
    → elem j front ≡ false
not_elem_front_of_back j [] back d e = refl
not_elem_front_of_back j (x ∷ front) back d e =
    ground (arith, not_elem_front_of_back j front back d.1 e, elem-append x front back)

pub length-remove : (i : ℕ) (xs : List ℕ) → length xs ≤ suc (length (remove i xs))
length-remove i [] = omega arith
length-remove i (x ∷ xs) = ground (arith, length-remove i xs)
