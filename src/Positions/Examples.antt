-- ===== src/Positions/Examples.antt =====
-- Positions of several versions, at a patch without an entry of its own, between those of two other patches.
use ostrich.Base.{◌≡◌, Bool, some, List, [], ◌∷◌, arith}
use ostrich.Base.{ℕ, ◌≤◌, ◌++◌, length}
use ostrich.VariableInteger.{decoded}
use ostrich.Positions.Bytes.{serialize, deserialize, max_serialization_size}
use ostrich.Positions.Bytes.RoundTrip.{deserialize-serialize}
use ostrich.Base.Int.{pos}
use ostrich.Positions.{PatchPositions, Version, no_positions, get_positions, insert_positions}
use ostrich.Positions.Latest.{latest}
use ostrich.Positions.Insert.{Inserted}
use ostrich.Positions.Container.{positions_laws}

abbrev moved : PatchPositions
moved = record no_positions { s = pos 4; any = pos 9 }

abbrev versions : List Version
versions = (1, no_positions) ∷ (6, moved) ∷ []

positions_laws_example :
    (get_positions 3 versions ≡ some (latest 3 versions))
    × ((r : List Version × Bool) × (insert_positions 3 moved versions ≡ some r)
        × Inserted 3 moved versions r.0)
positions_laws_example = positions_laws 3 moved versions (omega arith) (omega arith)

deserialize-serialize_example :
    (bytes : List ℕ) × (size : ℕ) × (serialize moved ≡ some bytes)
    × (max_serialization_size ≡ some size)
    × (length bytes ≤ size)
    × (deserialize (bytes ++ (5 ∷ [])) ≡ decoded moved (length bytes))
deserialize-serialize_example =
    deserialize-serialize moved (5 ∷ [])
      (omega arith, omega arith, omega arith, omega arith, omega arith, omega arith, omega arith)
