-- ===== src/DeletionValue/Examples.antt =====
-- A deletion value of the patches 1, 2 and those from 5 on, of which 1 and 2 are local changes.
use ostrich.Base.{◌≡◌, Bool, true, some, [], ◌∷◌, arith}
use ostrich.Base.Int.{pos}
use ostrich.Positions.{PatchPositions, no_positions}
use ostrich.DeletionValue.{DeletionValue, add, del}
use ostrich.DeletionValue.Changes.{IsSound, Gains, Loses, Sets, add-Gains, del-Loses}

abbrev value : DeletionValue
value = record {
  elements = record {
    patches = record { max = 100; intervals = (1, 3) ∷ (5, 100) ∷ [] };
    local_changes = record { max = 100; intervals = (1, 3) ∷ [] };
    position_vec = (1, no_positions) ∷ [];
  };
  max_patch_id = 7;
}

abbrev moved : PatchPositions
moved = record no_positions { s = pos 4 }

value-IsSound : IsSound value.elements
value-IsSound = (omega arith, omega arith, omega arith)

add-Gains_example :
    (r : DeletionValue × Bool) × (add true 4 true moved value ≡ some r)
    × Gains true 4 value.elements.patches r.0.elements.patches
    × Gains true 4 value.elements.local_changes r.0.elements.local_changes
    × Sets true 4 moved value.elements.position_vec r.0.elements.position_vec
add-Gains_example =
    add-Gains true true 4 moved value value-IsSound (omega arith, omega arith, omega arith)
      (omega arith) (omega arith)

del-Loses_example :
    (r : DeletionValue × Bool) × (del 6 value ≡ some r)
    × Loses 6 value.elements.patches r.0.elements.patches
    × Loses 6 value.elements.local_changes r.0.elements.local_changes
    × (r.0.elements.position_vec ≡ value.elements.position_vec)
del-Loses_example = del-Loses 6 value value-IsSound (omega arith, omega arith, omega arith)
