-- ===== src/Shares/Tests.antt =====
-- Reciprocals of concrete shares.
use glommio.Base.{◌≤◌, ◌^◌, ◌≡◌, refl, arith}
use glommio.Shares.{static, dynamic, default, reciprocal_shares, shares_of}
use glommio.Shares.Laws.{reciprocal_shares_lem}

default_reciprocal : reciprocal_shares default ≡ 4194
unfolding reciprocal_shares default
default_reciprocal = refl

reciprocal_shares_lem_example :
    (reciprocal_shares (dynamic 5000) ≤ reciprocal_shares (static 0))
    × (4194 ≤ reciprocal_shares (dynamic 5000))
    × (reciprocal_shares (static 0) ≤ 2 ^ 22)
unfolding shares_of
reciprocal_shares_lem_example = reciprocal_shares_lem (static 0) (dynamic 5000) (omega arith)
