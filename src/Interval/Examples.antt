-- ===== src/Interval/Examples.antt =====
-- The interval lists at concrete inputs.
use ostrich.Base.{ℕ, List}
use ostrich.Interval.Bytes.{serialize, deserialize}
use ostrich.Interval.Bytes.RoundTrip.{deserialize-serialize_intervals}
use ostrich.Base.{◌≡◌, Bool, some, [], ◌∷◌, arith, length}
use ostrich.Base.Int.{pos}
use ostrich.Interval.{
  IntervalList, addition, deletion, lone_addition, get_size, get_index, get_element_at,
}
use ostrich.Interval.Shape.{IsValid}
use ostrich.Interval.Addition.{addition-Added}
use ostrich.Interval.Addition.Gaps.{Added}
use ostrich.Interval.Deletion.{Deleted, deletion-Deleted}
use ostrich.Interval.Lone.{AddedAlone, lone_addition-AddedAlone}
use ostrich.Interval.Lookup.{seek_below, StepsBack}
use ostrich.Interval.Virtual.{Reaches, values, index_of, element_or, virtual_vector}

-- The patch ids 1, 2, 5, 6, 7 and, as the last interval is open, all from 9 on.
abbrev patches : IntervalList
patches = record { max = 100; intervals = (1, 3) ∷ (5, 8) ∷ (9, 100) ∷ [] }

patches-IsValid : IsValid patches
patches-IsValid = omega arith

patches-Reaches : Reaches patches.max 12 patches.intervals
patches-Reaches = omega arith

addition-Added_example :
    (r : IntervalList × Bool) × (addition 4 patches ≡ some r)
    × (r.0.max ≡ 100)
    × Added 100 4 patches.intervals (r.0.intervals, r.1)
addition-Added_example = addition-Added 4 patches patches-IsValid (omega arith) (omega arith)

deletion-Deleted_example :
    (r : IntervalList × Bool) × (deletion 6 patches ≡ some r)
    × (r.0.max ≡ 100)
    × Deleted 100 6 patches.intervals (r.0.intervals, r.1)
deletion-Deleted_example = deletion-Deleted 6 patches patches-IsValid (omega arith)

lone_addition-AddedAlone_example :
    (r : IntervalList × Bool) × (lone_addition 4 patches ≡ some r)
    × (r.0.max ≡ 100)
    × AddedAlone 100 4 patches.intervals (r.0.intervals, r.1)
lone_addition-AddedAlone_example =
    lone_addition-AddedAlone 4 patches patches-IsValid (omega arith) (omega arith)

seek_below_example : StepsBack 0 (record { max = 100; intervals = (1, 3) ∷ (5, 8) ∷ [] })
seek_below_example = seek_below 0 100 1 3 ((5, 8) ∷ []) (omega arith)

virtual_vector_example :
    (get_size 12 patches ≡ pos (length (values 100 12 patches.intervals)))
    × (get_index 7 12 patches ≡ index_of 0 7 (values 100 12 patches.intervals))
    × (get_element_at (pos 4) 12 patches ≡ pos (element_or 100 4 (values 100 12 patches.intervals)))
virtual_vector_example = virtual_vector 12 7 4 patches patches-Reaches

deserialize-serialize_intervals_example :
    (bytes : List ℕ) × (serialize patches ≡ some bytes)
    × (deserialize bytes (length bytes) (record patches { intervals = (2, 3) ∷ [] }) ≡ some patches)
deserialize-serialize_intervals_example =
    deserialize-serialize_intervals patches ((2, 3) ∷ []) patches-IsValid (omega arith)
