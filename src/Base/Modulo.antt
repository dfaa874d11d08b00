-- ===== src/Base/Modulo.antt =====
-- Positions on a ring of `c` places.
use Prim.Native.Nat.{ℕ, ◌+◌, ◌-◌, ◌%◌, ◌<◌, ◌∣◌}
use mathlib.Core.Path.{◌≡◌, sym, ap, ◌∙◌}
use native.Mathlib.Nat.{mod-add-mod, mod-eq_of_lt, mod-eq-sub-mod, mod-mod_of_dvd, mod-lt}
use native.Mathlib.Decide.{dec_lt}
use native.Mathlib.Omega.{arith}
use glommio.Base.Tests.{ltb, if◌then◌else◌}

-- One round at most.
pub add-mod_small :
    (r i c : ℕ) → r < c → i < c → (r + i) % c ≡ (if ltb (r + i) c then r + i else r + i - c)
add-mod_small r i c hr hi = elim (dec_lt (r + i) c) [
  | yes p ↦ ground (arith, mod-eq_of_lt p)
  | no p ↦ ground (
    arith,
    mod-eq-sub-mod {n = r + i} {m = c} (omega arith),
    mod-eq_of_lt {n = r + i - c} {m = c} (omega arith),
  )
]

-- Different offsets are different places.
pub add-mod_inj : (h i j c : ℕ) → i < c → j < c → (h + i) % c ≡ (h + j) % c → i ≡ j
add-mod_inj h i j c hi hj e = ground (
  arith,
  mod-lt h {m = c} (omega arith),
  mod-add-mod h c i,
  mod-add-mod h c j,
  add-mod_small (h % c) i c (mod-lt h (omega arith)) hi,
  add-mod_small (h % c) j c (mod-lt h (omega arith)) hj,
)

-- A counter that wraps at a multiple of `c` does not change places.
pub wrap-mod : (c m x i : ℕ) → c ∣ m → (x % m + i) % c ≡ (x + i) % c
wrap-mod c m x i d =
    sym (mod-add-mod (x % m) c i) ∙ ap (λ k. (k + i) % c) (mod-mod_of_dvd c x d) ∙ mod-add-mod x c i
