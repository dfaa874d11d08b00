-- ===== src/Shares.antt =====
-- glommio/src/shares.rs: the reciprocal of a task queue's shares. A `SharesManager` is the number
-- that its `shares` returns.
pub mod Laws
mod Tests
use glommio.Base.{ℕ, ◌/◌, ◌^◌, min, max}

pub data Shares : Type 0 where
  static : ℕ → Shares
  dynamic : ℕ → Shares

-- `Default for Shares`
pub default : Shares
default = static 1000

unfoldable pub shares_of : Shares → ℕ
shares_of (static shares) = shares
shares_of (dynamic shares) = shares

unfoldable pub reciprocal_shares : Shares → ℕ
unfolding shares_of
reciprocal_shares s = 2 ^ 22 / min (max (shares_of s) 1) 1000
