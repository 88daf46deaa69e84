-- ===== src/Patch/Examples.antt =====
-- A sorted patch of two elements, in the order of the SPO index.
use ostrich.Base.{ℕ, ◌≡◌, true, false, some, List, [], ◌∷◌, arith, if◌then◌else◌, ◌==◌}
use ostrich.Triple.{PatchElement, triple}
use ostrich.Delta.Merge.{Sorted, at_rank}
use ostrich.Patch.{add, index_of_triple, element_of}
use ostrich.Patch.Sorted.{add-Sorted, element_rank, over}
use ostrich.Patch.Lookup.{index_of_triple-IndexOf, IndexOf}
use ostrich.Triple.{spo}
use ostrich.Comparator.Numbers.{compare_numbers, number_keys}

abbrev rank : PatchElement → ℕ
rank = element_rank (compare_numbers spo) (number_keys spo)

abbrev patch : List PatchElement
patch = element_of (triple 1 1 1) true ∷ element_of (triple 2 1 1) false ∷ []

patch-Sorted : Sorted rank 1 patch
patch-Sorted = (omega arith, (omega arith, tt))

abbrev changed : PatchElement
changed = element_of (triple 1 1 1) false

add-Sorted_example :
    Sorted rank 1 (add (compare_numbers spo) changed patch)
    × ((r : ℕ)
        → at_rank rank r (add (compare_numbers spo) changed patch) ≡ (
            if rank changed == r
            then some (over (at_rank rank r patch) changed)
            else at_rank rank r patch))
add-Sorted_example =
    add-Sorted (compare_numbers spo) (number_keys spo) 1 changed patch (omega arith) (omega arith)
      patch-Sorted

index_of_triple-IndexOf_example :
    IndexOf
      (compare_numbers spo)
      (number_keys spo)
      patch
      (at_rank rank ((number_keys spo).rank (triple 2 1 1)) patch)
      (index_of_triple (compare_numbers spo) (triple 2 1 1) patch)
index_of_triple-IndexOf_example =
    index_of_triple-IndexOf (compare_numbers spo) (number_keys spo) 1 (triple 2 1 1) patch
      (omega arith) (omega arith) patch-Sorted
