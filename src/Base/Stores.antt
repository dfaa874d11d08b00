-- ===== src/Base/Stores.antt =====
-- Stores: memory cells by number. A write changes one cell.
use Prim.Native.Nat.{ℕ}
use mathlib.Core.Path.{◌≡◌}
use mathlib.Core.Bool.{false}
use native.Mathlib.Omega.{arith}
use glommio.Base.Tests.{◌==◌, if◌then◌else◌}

abbrev pub update {ℓ} : {A : Type ℓ} → (ℕ → A) → ℕ → A → ℕ → A
update f i v j = if j == i then v else f j

pub update_self {ℓ} : {A : Type ℓ} (f : ℕ → A) (i : ℕ) (v : A) → update f i v i ≡ v
update_self f i v = ground arith

pub update_ne {ℓ} :
    {A : Type ℓ} (f : ℕ → A) (i j : ℕ) (v : A) → (j == i) ≡ false → update f i v j ≡ f j
update_ne f i j v h = ground arith
