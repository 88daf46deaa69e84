-- ===== src/SnapshotManager.antt =====
-- `SnapshotManager::search_with_offset` of src/main/cpp/snapshot/snapshot_manager.cc, with
-- `SortedTripleIterator` of src/main/cpp/snapshot/sorted_triple_iterator.cc. A snapshot is an HDT file,
-- and the library that reads it is a parameter.
pub mod Search
use ostrich.Base.{
  ℕ, zero, suc, ◌≤◌, ◌≡◌, Bool, true, false, not, ◌&&◌, Option, none, some, List, [], ◌∷◌,
}
use ostrich.Base.{ltb, ◌==◌, if◌then◌else◌, drop, length}
use ostrich.Base.Int.{ℤ}
use ostrich.Triple.{Triple, triple, ComponentOrder, spo, pos_order, osp, get_query_order}
use ostrich.Comparator.{max_id}
use ostrich.Delta.{is_negative}

-- The triples of an HDT file under a pattern. `none` is an exception; `go_to` gives what an iterator
-- steps over after `goTo(offset)`.
pub record Hdt : Type 0 where
  pub search : Triple → Option (List Triple)
  pub can_go_to : Triple → Bool
  pub go_to : Triple → ℕ → Option (List Triple)
  pub estimated_num_results : Triple → ℕ
  pub is_exact : Triple → Bool

-- What the documentation of the iterators promises: `goTo` skips that many triples, or throws, and an
-- estimate that is marked as exact is the number of the triples.
pub record HdtLaws (h : Hdt) : Type 0 where
  pub go_to_law :
      (p : Triple) (n : ℕ) (all l : List Triple)
      → h.search p ≡ some all
      → h.go_to p n ≡ some l
      → l ≡ drop n all
  pub exact_law :
      (p : Triple) (all : List Triple)
      → h.search p ≡ some all
      → h.is_exact p ≡ true
      → h.estimated_num_results p ≡ length all

-- `std::sort`
unfoldable pub insert_sorted : (Triple → Triple → ℤ) → Triple → List Triple → List Triple
insert_sorted compare t [] = t ∷ []
insert_sorted compare t (u ∷ l) =
    if is_negative (compare t u) then t ∷ u ∷ l else u ∷ insert_sorted compare t l

unfoldable pub sort : (Triple → Triple → ℤ) → List Triple → List Triple
unfolding insert_sorted
sort compare [] = []
sort compare (t ∷ l) = insert_sorted compare t (sort compare l)

-- An id above the largest one of the snapshot is replaced by the largest number.
unfoldable pub searched_id : ℕ → ℕ → ℕ
searched_id max_hdt_id id = if ltb max_hdt_id id then max_id else id

unfoldable pub searched_pattern : ℕ → Triple → Triple
unfolding searched_id
searched_pattern max_hdt_id p =
    triple (searched_id max_hdt_id p.subject) (searched_id max_hdt_id p.predicate)
      (searched_id max_hdt_id p.object)

unfoldable pub is_spo : ComponentOrder → Bool
is_spo spo = true
is_spo pos_order = false
is_spo osp = false

-- `it->goTo(offset)` where it is allowed and needed, with the exception caught, and then the loop that
-- skips what is left of the offset.
unfoldable pub moved : Hdt → Triple → ℕ → List Triple → List Triple
moved h p offset all =
    if h.can_go_to p && not (offset == 0)
    then elim (h.go_to p offset) [ none ↦ drop offset all | some l ↦ l ]
    else drop offset all

-- `compare_order` makes the comparators of SortedTripleIterator, which always has `goTo`.
module _ (compare_order : ComponentOrder → Triple → Triple → ℤ) (h : Hdt) (max_hdt_id : ℕ) where
  unfoldable pub search_with_offset : Triple → ℕ → Bool → List Triple
  unfolding moved sort is_spo searched_pattern
  search_with_offset pattern offset sorted = elim (h.search (searched_pattern max_hdt_id pattern)) [
    | none ↦ []
    | some all ↦
        if sorted && not (is_spo (get_query_order pattern))
        then drop offset (sort (compare_order (get_query_order pattern)) all)
        else moved h (searched_pattern max_hdt_id pattern) offset all
  ]
