-- ===== src/PatchTreeIterator/Examples.antt =====
-- The iterators at small trees.
use ostrich.Base.{ℕ, suc, ◌≡◌, refl, Bool, true, false, some, List, [], ◌∷◌, length, All, ◌==◌}
use ostrich.AdditionValue
use ostrich.AdditionValue.{AdditionValue, int_max}
use ostrich.Interval
use ostrich.Triple.{triple}
use ostrich.PatchTree.Visits.{Addition}
use ostrich.Base.{none, arith}
use ostrich.Triple.{spo}
use ostrich.Comparator.Numbers.{compare_numbers, number_keys}
use ostrich.Base.{not, ◌&&◌}
use ostrich.Base.Int.{◌-ℤ◌, ◌+ℤ◌}
use ostrich.DeletionValue
use ostrich.DeletionValue.{DeletionValue}
use ostrich.Positions
use ostrich.Positions.{no_positions}
use ostrich.Delta.Merge.{IsMerge}
use ostrich.PatchTree.Visits.{Deletion}
use ostrich.PatchTreeIterator.{Result, deletion_valid}
use ostrich.PatchTreeIterator.Scan.{passing}
use ostrich.PatchTreeIterator.Rounds.{squashed, result_local, ReadsDeletions, ReadsAdditions}
use ostrich.PatchTreeIterator.Merged.{drain, started, drain-IsMerge}
use ostrich.PatchTreeIterator.{Merger, Filters, addition_valid, is_filtered_out}
use ostrich.PatchTreeIterator.Filtered.{
  collect, filter, passes, Answers, MatchesFirst, collect-filter,
}

-- The additions of patch 2 with the subject 1.
abbrev filters : Filters
filters = record {
  has_patch_filter = true;
  is_exact = true;
  patch_id = 2;
  has_pattern_filter = true;
  pattern = triple 1 0 0;
  no_local_changes = false;
  can_early_break = true;
  squash_equal = false;
}

-- An addition from one patch up to another.
abbrev value : ℕ → ℕ → AdditionValue
value start end = record {
  patches = record { max = int_max; intervals = (start, end) ∷ [] };
  local_changes = record { max = int_max; intervals = [] };
  max_patch_id = 6;
}

abbrev additions : List Addition
additions =
    (triple 1 1 1, value 1 3)
    ∷ (triple 1 2 2, value 1 2)
    ∷ (triple 1 3 1, value 2 5)
    ∷ (triple 2 1 1, value 1 3)
    ∷ []

abbrev has_both : Addition → Bool
has_both a = a.0.object == 1

additions-Answers : All (Answers filters has_both) additions
unfolding addition_valid AdditionValue.is_patch_id Interval.is_in
additions-Answers = (refl, (refl, (refl, (refl, tt))))

additions-MatchesFirst : MatchesFirst filters additions
unfolding is_filtered_out
additions-MatchesFirst = tt

collect-filter_example :
    collect (suc (length additions)) filters additions
    ≡ some (filter (passes filters has_both) additions)
collect-filter_example =
    collect-filter filters has_both additions additions-Answers (λ e. additions-MatchesFirst)

abbrev merger : Merger
merger = record {
  deletions = [];
  additions = additions;
  temp_deletion = none;
  temp_addition = none;
}

-- Both trees up to patch 3, without local changes.
abbrev delta_filters : Filters
delta_filters = record {
  has_patch_filter = true;
  is_exact = false;
  patch_id = 3;
  has_pattern_filter = true;
  pattern = triple 1 0 0;
  no_local_changes = true;
  can_early_break = true;
  squash_equal = true;
}

abbrev deleted : DeletionValue
deleted = record {
  elements = record {
    patches = record { max = int_max; intervals = (2, 4) ∷ [] };
    local_changes = record { max = int_max; intervals = [] };
    position_vec = (2, no_positions) ∷ [];
  };
  max_patch_id = 6;
}

-- The second triple has both an addition and a deletion.
abbrev some_deletions : List Deletion
some_deletions = (triple 1 2 2, deleted) ∷ []

abbrev some_additions : List Addition
some_additions =
    (triple 1 1 1, value 1 3) ∷ (triple 1 2 2, value 1 2) ∷ (triple 1 3 1, value 2 5) ∷ []

abbrev always {ℓ} : {A : Type ℓ} → A → Bool
always v = true

abbrev never {ℓ} : {A : Type ℓ} → A → Bool
never v = false

reads_deletions :
    ReadsDeletions
      (compare_numbers spo)
      (number_keys spo)
      true
      delta_filters
      always
      always
      never
      never
      some_deletions
unfolding deletion_valid DeletionValue.get_patch_at DeletionValue.is_local_change
    Interval.get_element_at Interval.is_in Positions.get_positions ◌-ℤ◌ ◌+ℤ◌ is_filtered_out
    Interval.get_size Interval.get_index
reads_deletions = (((refl, (omega arith, refl)), tt), λ e. tt)

reads_additions :
    ReadsAdditions
      (compare_numbers spo)
      (number_keys spo)
      true
      delta_filters
      always
      always
      never
      never
      some_additions
unfolding addition_valid AdditionValue.is_local_change Interval.is_in Interval.get_element_at ◌-ℤ◌
    ◌+ℤ◌ is_filtered_out AdditionValue.get_size Interval.get_size AdditionValue.get_patch_id_at
reads_additions = (
  ((refl, (omega arith, refl)), ((refl, (omega arith, refl)), ((refl, (omega arith, refl)), tt))),
  λ e. tt,
)

drain-IsMerge_example :
    (out : List Result) × IsMerge
      (squashed (compare_numbers spo) (number_keys spo))
      0
      (filter (passing (record delta_filters { no_local_changes = false }) always) some_deletions)
      (filter (passing (record delta_filters { no_local_changes = false }) always) some_additions)
      out
    × (drain
          (compare_numbers spo)
          true
          5
          delta_filters
          (started (compare_numbers spo) true some_deletions some_additions)
        ≡ some (
            ostrich.PatchTreeIterator.Filtered.filter
              (λ r. not (
                true
                && result_local
                    (compare_numbers spo)
                    (number_keys spo)
                    true
                    delta_filters
                    always
                    always
                    never
                    never
                    r))
              out))
drain-IsMerge_example =
    drain-IsMerge (compare_numbers spo) (number_keys spo) true delta_filters refl always always
      never never some_deletions some_additions reads_deletions reads_additions (omega arith)
      (omega arith)

-- The triples with the predicate 1 in the order of the POS index: its deletion tree has the object 1 before
-- the object 2. The subjects are the other way round.
abbrev pos_filters : Filters
pos_filters = record delta_filters { pattern = triple 0 1 0 }

abbrev earlier : Deletion
earlier = (triple 2 1 1, deleted)

abbrev later : Deletion
later = (triple 1 1 2, deleted)

abbrev again : Addition
again = (triple 1 1 2, value 1 2)
