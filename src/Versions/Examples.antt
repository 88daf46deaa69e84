-- ===== src/Versions/Examples.antt =====
-- A triple that is deleted in the patches 2 and 3 of a chain from 0 to 5.
use ostrich.Base.{◌≡◌, refl, some, [], ◌∷◌, not, arith}
use ostrich.Base.Int.{◌+ℤ◌, ◌-ℤ◌}
use ostrich.AdditionValue.{int_max}
use ostrich.Interval
use ostrich.Interval.Covers.{covers}
use ostrich.Positions
use ostrich.Positions.{no_positions}
use ostrich.DeletionValue
use ostrich.DeletionValue.{DeletionValue}
use ostrich.PatchTreeIterator.Filtered.{filter}
use ostrich.Versions.{iota, erase_deleted}
use ostrich.Versions.Erased.{Reads, patch_ids, erase_deleted-covers}
use ostrich.Base.{List}
use ostrich.Triple.{Triple}
use ostrich.Patch.Coded.{codes, compare_codes}
use ostrich.Delta.Merge.{IsMerge}
use ostrich.Versions.Combined.{Annotated, add_iterator}
use ostrich.Versions.Joined.{union, add_iterator-IsMerge}

abbrev deleted : DeletionValue
deleted = record {
  elements = record {
    patches = record { max = int_max; intervals = (2, 4) ∷ [] };
    local_changes = record { max = int_max; intervals = [] };
    position_vec = (2, no_positions) ∷ [];
  };
  max_patch_id = 6;
}

reads : Reads deleted 0 (patch_ids deleted)
unfolding DeletionValue.get_patch_at Interval.get_element_at Interval.is_in Positions.get_positions
    ◌+ℤ◌ ◌-ℤ◌
reads = ((_, refl, refl), ((_, refl, refl), tt))

erase_deleted-covers_example :
    erase_deleted (some deleted) (iota 0 6)
    ≡ some (
        ostrich.PatchTreeIterator.Filtered.filter
          (λ v. not (covers v deleted.elements.patches.intervals))
          (iota 0 6))
erase_deleted-covers_example =
    erase_deleted-covers deleted (iota 0 6) (omega arith) reads (omega arith)

abbrev first : Triple
first = record { subject = 1; predicate = 1; object = 2 }

abbrev second : Triple
second = record { subject = 1; predicate = 2; object = 2 }

-- Both have the second triple, in the versions 0 and 1, and in the versions 1 and 3.
abbrev kept : List (Annotated Triple)
kept =
    record { item = first; versions = 0 ∷ [] }
    ∷ record { item = second; versions = 0 ∷ 1 ∷ [] }
    ∷ []

abbrev added : List (Annotated Triple)
added = record { item = second; versions = 1 ∷ 3 ∷ [] } ∷ []

add_iterator-IsMerge_example :
    (out : List (Annotated Triple)) × (add_iterator compare_codes kept added ≡ some out)
    × IsMerge (union compare_codes codes) 0 added kept out
add_iterator-IsMerge_example =
    add_iterator-IsMerge compare_codes codes kept added (omega arith) (omega arith)
