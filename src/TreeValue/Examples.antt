-- ===== src/TreeValue/Examples.antt =====
-- A triple that is an addition in the patches 1 and 2 and a deletion in the patches from 3 on.
use ostrich.Base.{◌≡◌, refl, true, false, some, [], ◌∷◌, arith, if◌then◌else◌}
use ostrich.TreeValue.{TreeValue, is_present, exists_in_snapshot}
use ostrich.TreeValue.Presence.{adds, deletes, is_present-covers}

abbrev value : TreeValue
value = record {
  addition = record {
    patches = record { max = 100; intervals = (1, 3) ∷ [] };
    local_changes = record { max = 100; intervals = [] };
    max_patch_id = 5;
  };
  deletion = record {
    elements = record {
      patches = record { max = 100; intervals = (3, 100) ∷ [] };
      local_changes = record { max = 100; intervals = [] };
      position_vec = [];
    };
    max_patch_id = 5;
  };
  has_addition = true;
  has_deletion = true;
  positioned = false;
}

is_present-covers_example : is_present 4 value ≡ (
    if adds 4 value
    then some true
    else (if deletes 4 value then some false else exists_in_snapshot value))
is_present-covers_example =
    is_present-covers 4 value (omega arith, omega arith, omega arith)
      (omega arith, omega arith, omega arith) refl
