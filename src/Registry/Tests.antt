-- ===== src/Registry/Tests.antt =====
-- A run of the registry of glommio/src/task/registry.rs.
use glommio.Base.{List, [], ◌∷◌, some}
use glommio.Registry.{new}
use glommio.Registry.Runs.{Call, inserts, removes, call, list_call, calls, Agree, registry_run}

-- The task in the middle is taken out, and put in again.
abbrev middle_out : List Call
middle_out = inserts 1 ∷ inserts 2 ∷ inserts 3 ∷ removes 2 ∷ inserts 2 ∷ removes 1 ∷ []

registry_run_example : Agree (calls call middle_out (some new)) (some (2 ∷ 3 ∷ []))
unfolding calls list_call
registry_run_example = registry_run middle_out
