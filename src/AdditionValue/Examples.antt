-- ===== src/AdditionValue/Examples.antt =====
-- A triple that patch 2 adds, patch 5 deletes and patch 7 adds again.
use ostrich.Base.{◌≡◌, refl, some, List, [], ◌∷◌, arith}
use ostrich.Base.Int.{pos}
use ostrich.AdditionValue.{AdditionValue, is_patch_id}
use ostrich.AdditionValue.History.{Event, added, deleted, replay, status, is_patch_id-status}

abbrev events : List Event
events = added 7 ∷ deleted 5 ∷ added 2 ∷ []

is_patch_id-status_example :
    (v : AdditionValue) × (replay 8 events ≡ some v)
    × (is_patch_id (pos 6) v ≡ some (status 6 events))
is_patch_id-status_example =
    is_patch_id-status 8 6 3 events (omega arith) (omega arith) (omega arith) (omega arith) refl
