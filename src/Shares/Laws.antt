-- ===== src/Shares/Laws.antt =====
-- Bounds and order of the reciprocal shares of shares.rs.
use native.Mathlib.Nat.{le-div_iff_mul-le, div-mul-le_self, div-le_self}
use glommio.Base.{ℕ, ◌/◌, ◌^◌, ◌≤◌, ◌<◌, min, max, arith}
use glommio.Shares.{Shares, reciprocal_shares, shares_of}

smaller_part : (x k m : ℕ) → 0 < k → k ≤ m → x / m ≤ x / k
smaller_part x k m h l = (le-div_iff_mul-le h).1 (grind (arith, div-mul-le_self x m))

-- More shares never have a larger reciprocal, and every reciprocal lies between 2 ^ 22 / 1000 and
-- 2 ^ 22, so it is never 0, whatever number a task queue or its manager asks for.
pub reciprocal_shares_lem :
    (s t : Shares)
    → shares_of s ≤ shares_of t
    → (reciprocal_shares t ≤ reciprocal_shares s)
      × (4194 ≤ reciprocal_shares t)
      × (reciprocal_shares s ≤ 2 ^ 22)
unfolding reciprocal_shares
reciprocal_shares_lem s t h = (
  smaller_part (2 ^ 22) (min (max (shares_of s) 1) 1000) (min (max (shares_of t) 1) 1000)
      (omega arith) (omega arith),
  smaller_part (2 ^ 22) (min (max (shares_of t) 1) 1000) 1000 (omega arith) (omega arith),
  div-le_self (2 ^ 22) (min (max (shares_of s) 1) 1000),
)
