-- ===== src/PatchTree/Queries.antt =====
-- The queries of `PatchTree` that the version queries use (src/main/cpp/patch/patch_tree.cc), with
-- `PositionedTripleIterator` of src/main/cpp/patch/positioned_triple_iterator.cc and
-- `PatchTreeTripleIterator` of src/main/cpp/patch/triple_iterator.cc. A tree is the list of its records
-- in the order of its keys; a cursor is the list of the records that it still steps over.
use ostrich.Base.{
  ℕ, zero, suc, ◌+◌, Bool, true, false, ◌&&◌, Option, none, some, List, [], ◌∷◌, map, ◌>>=◌,
}
use ostrich.Base.{ltb, if◌then◌else◌}
use ostrich.Base.Int.{ℤ, pos, pos_part, leb_ℤ, ◌+ℤ◌}
use ostrich.Triple.{Triple, triple, ComponentOrder, spo, is_default_tree, get_query_order, equals}
use ostrich.Positions.{get_by_pattern}
use ostrich.Comparator.{upper_bound}
use ostrich.DeletionValue
use ostrich.DeletionValue.{DeletionValue}
use ostrich.Delta.{is_negative}
use ostrich.PatchTree.Visits.{Deletion, Addition, is_positive}
use ostrich.PatchTreeIterator.{
  Filters, set_patch_filter, set_triple_pattern_filter, set_filter_local_changes, set_early_break,
  next_addition, next_deletion,
}

-- The filters of a new iterator; its patch id is -1 in the code, and is not read without a filter.
abbrev pub no_filters : Filters
no_filters = record {
  has_patch_filter = false;
  is_exact = false;
  patch_id = 0;
  has_pattern_filter = false;
  pattern = triple 0 0 0;
  no_local_changes = false;
  can_early_break = true;
  squash_equal = false;
}

module _ {V : Type 0} (compare : Triple → Triple → ℤ) where
  -- `jump(key)`: the records from the first one whose key is not less.
  unfoldable pub jump : Triple → List (Triple × V) → List (Triple × V)
  jump key [] = []
  jump key (r ∷ l) = if is_negative (compare r.0 key) then jump key l else r ∷ l

  -- `jump_back(key)`: the records from the last one whose key is not greater, backwards; behind the
  -- records `found` that lie before.
  unfoldable pub jump_back : Triple → List (Triple × V) → List (Triple × V) → List (Triple × V)
  jump_back key found [] = found
  jump_back key found (r ∷ l) =
      if is_positive (compare r.0 key) then found else jump_back key (r ∷ found) l

-- `jump_back()`: the last record.
unfoldable pub last_record : {V : Type 0} → List (Triple × V) → List (Triple × V)
last_record [] = []
last_record (r ∷ []) = r ∷ []
last_record (r ∷ s ∷ l) = last_record (s ∷ l)

-- The trees of a store by their order, with the values as they are read for `max_patch_id`, and the
-- stored counts of the additions.
pub record Trees : Type 0 where
  pub max_patch_id : ℕ
  pub deletions : ComponentOrder → List Deletion
  pub additions : ComponentOrder → List Addition
  pub addition_counts : ℕ → Triple → ℕ

-- A record as it is read into a value that is made for a largest patch id.
abbrev pub read_for : ℕ → Deletion → Deletion
read_for patch_id d = (d.0, record d.1 { max_patch_id = patch_id + 1 })

-- `PositionedTripleIterator`, with the tree that its cursor jumps in.
pub record Positioned : Type 0 where
  pub filters : Filters
  pub tree : List Deletion
  pub cursor : List Deletion
  pub of_patch : ℕ
  pub of_pattern : Triple

-- `value.get(patch_id).get_patch_positions().get_by_pattern(triple_pattern)`
unfoldable pub position_in : ℕ → Triple → DeletionValue → Option ℤ
position_in patch_id pattern v = DeletionValue.get true patch_id v >>= λ e.
    some (get_by_pattern pattern.subject pattern.predicate pattern.object e.positions)

-- `next(positioned_triple, silent_step, get_position)`: the record that is found. Its position, where
-- it is asked for, is `position_in` its value.
unfoldable pub next_positioned : Bool → Positioned → Option (Option Deletion × Positioned)
next_positioned silent it =
    next_deletion true silent it.filters it.cursor >>= λ r. some (r.0, record it { cursor = r.1 })

-- `PatchTreeTripleIterator`
pub record AdditionIterator : Type 0 where
  pub filters : Filters
  pub cursor : List Addition

unfoldable pub next_triple : AdditionIterator → Option (Option Triple × AdditionIterator)
next_triple it = next_addition it.filters it.cursor >>= λ r.
    some (elim r.0 [ none ↦ none | some a ↦ some a.0 ], record it { cursor = r.1 })

-- `get_deletion_value` in the SPO tree.
unfoldable pub find_value : Triple → List Deletion → Option DeletionValue
find_value t [] = none
find_value t (d ∷ l) = if equals d.0 t then some d.1 else find_value t l

module _ (compare : ComponentOrder → Triple → Triple → ℤ) (trees : Trees) where
  unfoldable pub deletion_iterator_from : Triple → ℕ → Triple → Positioned
  unfolding set_patch_filter set_triple_pattern_filter set_filter_local_changes set_early_break
  deletion_iterator_from offset patch_id pattern = record {
    filters = set_early_break false (
        set_filter_local_changes true
          (set_triple_pattern_filter pattern (set_patch_filter patch_id true no_filters)));
    tree = map (read_for patch_id) (trees.deletions spo);
    cursor = jump (compare spo) offset (map (read_for patch_id) (trees.deletions spo));
    of_patch = patch_id;
    of_pattern = pattern;
  }

  -- `while(offset-- > 0 && it->next_addition(&key, &value));`
  unfoldable pub skip_additions : ℕ → Filters → List Addition → Option (List Addition)
  skip_additions zero f l = some l
  skip_additions (suc n) f l =
      next_addition f l >>= λ r. elim r.0 [ none ↦ some r.1 | some a ↦ skip_additions n f r.1 ]

  unfoldable pub addition_iterator_from : ℤ → ℕ → Triple → Option AdditionIterator
  unfolding jump last_record skip_additions set_patch_filter set_triple_pattern_filter
      set_filter_local_changes
  addition_iterator_from offset patch_id pattern =
      let tree = trees.additions (get_query_order pattern) in
      let count = trees.addition_counts patch_id pattern in
      let f =
        set_filter_local_changes true
          (set_triple_pattern_filter pattern (set_patch_filter patch_id true no_filters)) in
      let cursor =
        (if ltb 0 count && leb_ℤ (pos count) offset
          then last_record tree
          else jump (compare (get_query_order pattern)) pattern tree) in
      skip_additions (pos_part offset) f cursor >>= λ l. some (record { filters = f; cursor = l })

  unfoldable pub addition_iterator : Triple → AdditionIterator
  unfolding jump set_triple_pattern_filter
  addition_iterator pattern = record {
    filters = set_triple_pattern_filter pattern no_filters;
    cursor =
        jump (compare (get_query_order pattern)) pattern
          (trees.additions (get_query_order pattern));
  }

  unfoldable pub last_deletion_value : Triple → ℕ → Option (Option Deletion)
  unfolding jump_back set_patch_filter set_triple_pattern_filter set_filter_local_changes
  last_deletion_value pattern patch_id =
      let order = get_query_order pattern in
      let f =
        set_filter_local_changes true
          (set_triple_pattern_filter pattern (set_patch_filter patch_id true no_filters)) in
      next_deletion (is_default_tree pattern) true f
        (jump_back (compare order) (upper_bound pattern) [] (trees.deletions order))
      >>= λ r. some r.0

  -- The number of the deletions, and the last one.
  unfoldable pub deletion_count : Triple → ℕ → Option (ℤ × Triple)
  unfolding last_deletion_value find_value position_in
  deletion_count pattern patch_id = last_deletion_value pattern patch_id >>= λ last. elim last [
    | none ↦ some (pos 0, triple 0 0 0)
    | some d ↦
        (if is_default_tree pattern then some d.1 else find_value d.0 (trees.deletions spo))
        >>= λ v. position_in patch_id pattern v >>= λ p. some (p +ℤ pos 1, d.0)
  ]
