-- ===== src/Managers/Examples.antt =====
-- The snapshots of the patches 0, 4 and 9, with their triples.
use ostrich.Base.{ℕ, ◌≡◌, List, [], ◌∷◌, arith}
use ostrich.Managers.{get_latest_snapshot, get_patch_tree_id}
use ostrich.Managers.Latest.{IsLatest, look_ups-IsLatest}

abbrev snapshots : List (ℕ × ℕ)
snapshots = (0, 10) ∷ (4, 20) ∷ (9, 30) ∷ []

look_ups-IsLatest_example :
    IsLatest 7 snapshots (get_latest_snapshot 7 snapshots)
    × (get_latest_snapshot 7 snapshots ≡ get_patch_tree_id 7 snapshots)
look_ups-IsLatest_example = look_ups-IsLatest 7 snapshots (omega arith)
