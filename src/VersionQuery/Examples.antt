-- ===== src/VersionQuery/Examples.antt =====
-- A snapshot of three triples with the subject 1, of which patch 2 deletes one, and adds another.
use ostrich.Base.{ℕ, ◌≡◌, refl, Bool, true, some, List, [], ◌∷◌, length, drop, arith, inl}
use ostrich.Base.Int.{ℤ, pos, ◌+ℤ◌}
use mathlib.Core.Path.{ap}
use ostrich.Base.{map}
use ostrich.Delta.{is_negative}
use ostrich.VersionQuery.Offset.{query_filters}
use ostrich.PatchTree.Queries.{read_for}
use ostrich.PatchTreeIterator.Filtered.{filter}
use ostrich.Base.{zero, suc, ◌<◌, ◌+◌}
use ostrich.Triple.{pos_order, osp}
use ostrich.PatchTreeIterator.{Filters}
use ostrich.VersionQuery.Additions.{addition_filters}
use ostrich.VersionQuery.{start_additions, collect}
use ostrich.VersionQuery.Repeats.{IsReadable, materialize-repeats}
use ostrich.Comparator.{compare_keys}
use ostrich.AdditionValue
use ostrich.AdditionValue.{AdditionValue, int_max}
use ostrich.Interval
use ostrich.Positions
use ostrich.Positions.{PatchPositions, no_positions}
use ostrich.DeletionValue
use ostrich.DeletionValue.{DeletionValue}
use ostrich.Comparator.{upper_bound}
use ostrich.Triple.{
  Triple, ComponentOrder, spo, triple, equals, is_default_tree, pattern_match_triple,
  is_all_matching_pattern,
}
use ostrich.Comparator.Keys.{KeyRanks}
use ostrich.Comparator.Numbers.{compare_numbers, number_keys}
use ostrich.PatchTree.Visits.{Deletion, Addition}
use ostrich.PatchTreeIterator
use ostrich.PatchTree.Queries.{Trees, deletion_count, jump, position_in}
use ostrich.SnapshotManager.{Hdt, HdtLaws}
use ostrich.VersionQuery.{State, materialize}
use ostrich.VersionQuery.Offset.{IsConsistent}
use ostrich.VersionQuery.Additions.{HasAdditions}
use ostrich.VersionQuery.Result.{IsStored, Gives, deletions, gone, materialize-version}

abbrev compare : ComponentOrder → Triple → Triple → ℤ
compare = compare_numbers

abbrev order : KeyRanks (compare spo)
order = number_keys spo

abbrev deletion_value : DeletionValue
deletion_value = record {
  elements = record {
    patches = record { max = int_max; intervals = (2, 6) ∷ [] };
    local_changes = record { max = int_max; intervals = [] };
    position_vec = (2, record no_positions { s = pos 0 }) ∷ [];
  };
  max_patch_id = 6;
}

abbrev addition_value : AdditionValue
addition_value = record {
  patches = record { max = int_max; intervals = (2, 6) ∷ [] };
  local_changes = record { max = int_max; intervals = [] };
  max_patch_id = 6;
}

abbrev trees : Trees
trees = record {
  max_patch_id = 5;
  deletions = λ o. (triple 1 1 2, deletion_value) ∷ [];
  additions = λ o. (triple 1 2 2, addition_value) ∷ [];
  addition_counts = λ p t. 0;
}

abbrev snapshot : List Triple
snapshot = triple 1 1 1 ∷ triple 1 1 2 ∷ triple 1 3 1 ∷ []

-- A snapshot that gives the same triples for each pattern.
abbrev hdt_of : List Triple → Hdt
hdt_of l = record {
  search = λ p. some l;
  can_go_to = λ p. true;
  go_to = λ p n. some (drop n l);
  estimated_num_results = λ p. length l;
  is_exact = λ p. true;
}

drops :
    (l : List Triple) (n : ℕ) (all m : List Triple)
    → some l ≡ some all
    → some (drop n l) ≡ some m
    → m ≡ drop n all
drops l n all m e q = cc

counts : (l all : List Triple) → some l ≡ some all → length l ≡ length all
counts l all e = ap length (inside e)
  where
    inside : {a b : List Triple} → some a ≡ some b → a ≡ b
    inside e = cc

abbrev laws_of : (l : List Triple) → HdtLaws (hdt_of l)
laws_of l = record {
  go_to_law = λ p n all m e q. drops l n all m e q;
  exact_law = λ p all e q. counts l all e;
}

abbrev hdt : Hdt
hdt = hdt_of snapshot

abbrev laws : HdtLaws hdt
laws = laws_of snapshot

abbrev every_deletion : Deletion → Bool
every_deletion d = true

abbrev every_addition : Addition → Bool
every_addition a = true

abbrev asked : Triple
asked = triple 1 0 0

consistent :
    IsConsistent compare order trees 2 asked every_deletion
      (gone compare order trees hdt laws 100 2 asked every_deletion every_addition snapshot)
      snapshot
unfolding equals is_all_matching_pattern pattern_match_triple jump position_in
    PatchTreeIterator.set_patch_filter PatchTreeIterator.set_triple_pattern_filter
    PatchTreeIterator.set_filter_local_changes PatchTreeIterator.set_early_break
    PatchTreeIterator.is_filtered_out PatchTreeIterator.deletion_valid
    DeletionValue.get_patchvalue_index DeletionValue.is_local_change DeletionValue.get
    Interval.get_index Positions.get_by_pattern ◌+ℤ◌ Interval.get_size Interval.get_element_at
    Interval.is_in Positions.get_positions compare_keys
consistent = record {
  tree_sorted = omega arith;
  snapshot_sorted = omega arith;
  answers = (refl, tt);
  keys = refl;
  numbered = (refl, tt);
  contiguous = (tt, (tt, (tt, tt)));
}

has_additions : HasAdditions compare trees 2 asked every_addition
unfolding is_all_matching_pattern pattern_match_triple jump PatchTreeIterator.set_patch_filter
    PatchTreeIterator.set_triple_pattern_filter PatchTreeIterator.set_filter_local_changes
    PatchTreeIterator.is_filtered_out PatchTreeIterator.addition_valid AdditionValue.is_patch_id
    AdditionValue.is_local_change Interval.is_in compare_keys ostrich.Triple.get_query_order
has_additions = record { answers = (refl, tt); matches_first = tt; counted = inl refl }

stored : IsStored compare order trees hdt laws 100 2 asked every_deletion every_addition snapshot
unfolding equals deletion_count PatchTreeIterator.next_deletion upper_bound
    DeletionValue.get_patchvalue_index Interval.get_index ◌+ℤ◌ DeletionValue.is_local_change
    Interval.get_size Interval.get_element_at Interval.is_in is_default_tree Positions.get_positions
    DeletionValue.get Positions.get_by_pattern PatchTreeIterator.set_early_break compare_keys
    ostrich.Triple.get_query_order
stored = record {
  found = refl;
  consistent = consistent;
  additions = has_additions;
  terms = omega arith;
  counted = refl;
}

materialize-version_example :
    (s : State) × (materialize compare trees hdt 100 true 1 2 asked
      ≡ some (
        s,
        pos (
            length (
              deletions compare order trees hdt laws 100 2 asked every_deletion every_addition
                snapshot)),
        2,
      ))
    × Gives compare order trees hdt laws 100 2 asked every_deletion every_addition snapshot stored 1
        s
materialize-version_example =
    materialize-version compare order trees hdt laws 100 2 asked every_deletion every_addition
      snapshot true 1 stored

-- Three triples with the predicate 1, of which patch 2 deletes the first and the last; in the tree a
-- deletion with the predicate 2 lies between them.
abbrev numbered_value : ℕ → DeletionValue
numbered_value n = record deletion_value {
  elements = record {
    patches = record { max = int_max; intervals = (2, 6) ∷ [] };
    local_changes = record { max = int_max; intervals = [] };
    position_vec = (2, record no_positions { p = pos n }) ∷ [];
  };
}

abbrev in_order : List Deletion
in_order =
    (triple 1 1 1, numbered_value 0)
    ∷ (triple 2 2 1, numbered_value 0)
    ∷ (triple 3 1 1, numbered_value 1)
    ∷ []

abbrev mixed : Trees
mixed = record {
  max_patch_id = 5;
  deletions = λ o. elim o [
    | spo ↦ in_order
    | pos_order ↦
        (triple 1 1 1, numbered_value 0)
        ∷ (triple 3 1 1, numbered_value 1)
        ∷ (triple 2 2 1, numbered_value 0)
        ∷ []
    | osp ↦ in_order
  ];
  additions = λ o. [];
  addition_counts = λ p t. 0;
}

abbrev read : ℕ → DeletionValue
read n = record (numbered_value n) { max_patch_id = 3 }

abbrev mixed_snapshot : List Triple
mixed_snapshot = triple 1 1 1 ∷ triple 2 1 1 ∷ triple 3 1 1 ∷ []

between_behind :
    jump (compare spo) (triple 2 1 1) (map (read_for 2) (mixed.deletions spo))
    ≡ (triple 2 2 1, read 0) ∷ (triple 3 1 1, read 1) ∷ []
unfolding compare_keys jump
between_behind = refl

between_other :
    PatchTreeIterator.is_filtered_out (query_filters 2 (triple 0 1 0)) (triple 2 2 1) ≡ true
unfolding PatchTreeIterator.set_patch_filter PatchTreeIterator.set_triple_pattern_filter
    PatchTreeIterator.set_filter_local_changes PatchTreeIterator.set_early_break
    PatchTreeIterator.is_filtered_out is_all_matching_pattern pattern_match_triple
between_other = refl

between_last : is_negative (compare spo (triple 2 1 1) (triple 3 1 1)) ≡ true
unfolding compare_keys
between_last = refl

readable :
    IsReadable compare mixed 2
      (triple 0 1 0)
      (pos 2)
      (triple 3 1 1)
      (triple 2 1 1)
      (triple 2 2 1, read 0)
      ((triple 3 1 1, read 1) ∷ [])
      between_behind
      between_other
      between_last
      (hdt_of mixed_snapshot)
      (laws_of mixed_snapshot)
      100
      mixed_snapshot
      refl
      order
      every_deletion
unfolding deletion_count PatchTreeIterator.deletion_valid PatchTreeIterator.set_early_break
    DeletionValue.get_patchvalue_index Interval.get_index ◌+ℤ◌ DeletionValue.is_local_change
    Interval.get_size Interval.get_element_at Interval.is_in Positions.get_positions
    PatchTreeIterator.next_deletion ostrich.Triple.get_query_order compare_keys upper_bound
    is_default_tree equals DeletionValue.get Positions.get_by_pattern
    PatchTreeIterator.is_filtered_out PatchTreeIterator.set_patch_filter
    PatchTreeIterator.set_triple_pattern_filter is_all_matching_pattern pattern_match_triple
readable = record {
  sorted = omega arith;
  answers = (refl, (refl, (refl, tt)));
  terms = omega arith;
  in_range = refl;
  counted = refl;
}

no_additions :
    start_additions compare mixed (hdt_of mixed_snapshot) 100 1 (pos 2) 2 (triple 0 1 0)
    ≡ some (record { filters = addition_filters 2 (triple 0 1 0); cursor = [] })
unfolding start_additions
no_additions = refl

none_collected :
    (f : Filters) (fuel : ℕ) → 0 < fuel → PatchTreeIterator.Filtered.collect fuel f [] ≡ some []
unfolding PatchTreeIterator.Filtered.collect PatchTreeIterator.next_addition
none_collected f zero h = absurd (omega arith)
none_collected f (suc fuel) h = refl

materialize-repeats_example :
    (s : State) × (materialize compare mixed (hdt_of mixed_snapshot) 100 true 1 2 (triple 0 1 0)
      ≡ some (s, pos 2, 2))
    × ((fuel : ℕ)
        → 2 + 0 < fuel
        → collect compare mixed (hdt_of mixed_snapshot) 100 fuel 1 (pos 2) 2 (triple 0 1 0) s
          ≡ some (triple 2 1 1 ∷ []))
unfolding equals
materialize-repeats_example =
    materialize-repeats compare mixed 2 (triple 0 1 0) (pos 2) (triple 3 1 1) (triple 2 1 1)
      (triple 2 2 1, read 0) ((triple 3 1 1, read 1) ∷ []) between_behind between_other between_last
      (hdt_of mixed_snapshot) (laws_of mixed_snapshot) 100 mixed_snapshot refl order every_deletion
      true 1 0 (triple 3 1 1 ∷ []) (addition_filters 2 (triple 0 1 0)) [] [] readable refl refl
      no_additions (none_collected (addition_filters 2 (triple 0 1 0)))

-- Two deletions with the predicate 1, which are numbered in the order of SPO; the tree of the index POS
-- has the first of them last.
abbrev crossed : Trees
crossed = record mixed {
  deletions = λ o. elim o [
    | spo ↦ (triple 1 1 2, numbered_value 0) ∷ (triple 2 1 1, numbered_value 1) ∷ []
    | pos_order ↦ (triple 2 1 1, numbered_value 1) ∷ (triple 1 1 2, numbered_value 0) ∷ []
    | osp ↦ (triple 2 1 1, numbered_value 1) ∷ (triple 1 1 2, numbered_value 0) ∷ []
  ];
}

crossed_count : deletion_count compare crossed (triple 0 1 0) 2 ≡ some (pos 1, triple 1 1 2)
unfolding deletion_count PatchTreeIterator.deletion_valid PatchTreeIterator.set_early_break
    DeletionValue.get_patchvalue_index Interval.get_index ◌+ℤ◌ DeletionValue.is_local_change
    Interval.get_size Interval.get_element_at Interval.is_in Positions.get_positions
    PatchTreeIterator.next_deletion ostrich.Triple.get_query_order compare_keys upper_bound
    is_default_tree equals DeletionValue.get Positions.get_by_pattern
    PatchTreeIterator.is_filtered_out PatchTreeIterator.set_patch_filter
    PatchTreeIterator.set_triple_pattern_filter is_all_matching_pattern pattern_match_triple
crossed_count = refl
