-- ===== src/VersionQuery/Repeats.antt =====
-- Where the triples of a pattern are not together in the deletion tree, the early break of the deletion
-- iterator makes the loop of `get_version_materialized` take a triple for one before all deletions.
use ostrich.Base.{
  ℕ, suc, ◌+◌, ◌≡◌, refl, ap, sym, ◌∙◌, Bool, true, false, Option, some, List, [], ◌∷◌, map, drop,
  length,
}
use ostrich.Base.{arith, if◌then◌else◌, ltb, ◌<◌}
use ostrich.Base.Int.{ℤ, pos}
use ostrich.Delta.{is_negative}
use ostrich.Triple.{Triple, ComponentOrder, spo}
use ostrich.PatchTree.Visits.{Deletion}
use ostrich.PatchTreeIterator.{is_filtered_out, next_deletion, set_early_break}
use ostrich.PatchTreeIterator.Filtered.{filter}
use ostrich.PatchTree.Queries.{
  Trees, Positioned, read_for, jump, next_positioned, deletion_iterator_from,
}
use ostrich.SnapshotManager.{Hdt, HdtLaws, searched_pattern}
use ostrich.SnapshotManager.Search.{search_with_offset-drop}
use mathlib.Core.Path.{subst}
use ostrich.Base.{All, ◌++◌}
use ostrich.Comparator.Keys.{KeyRanks}
use ostrich.Delta.Merge.{Sorted}
use ostrich.PatchTree.Visits.{Addition}
use ostrich.PatchTree.Queries.{deletion_count}
use ostrich.PatchTreeIterator.{Filters, reset_triple_pattern_filter}
use ostrich.PatchTreeIterator.Filtered
use ostrich.VersionQuery.{State, start_additions, new_deleter, materialize, collect}
use ostrich.VersionQuery.Deleted.{Answers, IsTriple, is_deleted, rank}
use ostrich.VersionQuery.Emitted.{null_triple, IsReady}
use ostrich.VersionQuery.Collected.{key, over, collect_rest}
use ostrich.VersionQuery.Offset.{drop-All}
use ostrich.VersionQuery.Result.{Answers-reset}
use ostrich.VersionQuery.{snapshot_offset, skip_deletions}
use ostrich.VersionQuery.Counting.{gone_before, stays, filter-drop}
use ostrich.VersionQuery.Offset.{query_filters}
use ostrich.VersionQuery.Skipped.{pos-add}

module _ (compare : ComponentOrder → Triple → Triple → ℤ) (trees : Trees) (patch_id : ℕ)
    (pattern : Triple) (total : ℤ) (last first : Triple) (d : Deletion) (more : List Deletion)
    (behind : jump (compare spo) first (map (read_for patch_id) (trees.deletions spo)) ≡ d ∷ more)
    (other : is_filtered_out (query_filters patch_id pattern) d.0 ≡ true)
    (before_last : is_negative (compare spo first last) ≡ true) where
  abbrev pub broken_off : Positioned
  broken_off = record {
    filters = query_filters patch_id pattern;
    tree = map (read_for patch_id) (trees.deletions spo);
    cursor = d ∷ more;
    of_patch = patch_id;
    of_pattern = pattern;
  }

  breaks :
      next_deletion true true (query_filters patch_id pattern) (d ∷ more)
      ≡ some (ostrich.Base.none, d ∷ more)
  unfolding next_deletion set_early_break
  breaks = rw other refl

  snapshot_offset-broken :
      snapshot_offset compare trees patch_id pattern total last first ≡ some (pos 0, broken_off)
  unfolding snapshot_offset deletion_iterator_from next_positioned
  snapshot_offset-broken = rw (behind, breaks, before_last) refl

  module _ (h : Hdt) (laws : HdtLaws h) (max_hdt_id : ℕ) (snapshot : List Triple)
      (found : h.search (searched_pattern max_hdt_id pattern) ≡ some snapshot) where
    -- The loop ends in its first round, without skipping a triple.
    skip_deletions-stops :
        (fuel offset : ℕ) (rest : List Triple)
        → skip_deletions compare trees h max_hdt_id
            (suc fuel)
            offset
            patch_id
            pattern
            total
            last
            (pos 0)
            (first ∷ rest)
          ≡ some (drop offset snapshot, some broken_off)
    unfolding skip_deletions
    skip_deletions-stops fuel offset rest =
        rw
          (
            snapshot_offset-broken,
            pos-add,
            search_with_offset-drop h laws compare max_hdt_id pattern (offset + 0) snapshot found,
          )
          (ap (λ (n : ℕ). some (drop n snapshot, some broken_off)) {x = offset + 0} (omega arith))

  module _ (h : Hdt) (laws : HdtLaws h) (max_hdt_id : ℕ) (snapshot : List Triple)
      (found : h.search (searched_pattern max_hdt_id pattern) ≡ some snapshot)
      (o : KeyRanks (compare spo)) (valid : Deletion → Bool) where
    abbrev pub tree : List Deletion
    tree = map (read_for patch_id) (trees.deletions spo)

    abbrev pub gone : Triple → Bool
    gone = is_deleted valid tree

    -- The tree and the values answer, and the snapshot has keys.
    pub record IsReadable : Type 0 where
      pub sorted : Sorted (rank (compare spo) o) 1 tree
      pub answers : All (Answers (query_filters patch_id pattern) valid) tree
      pub terms : All (λ t. IsTriple t × (0 < o.rank t)) snapshot
      pub in_range : ltb trees.max_patch_id patch_id ≡ false
      pub counted : deletion_count compare trees pattern patch_id ≡ some (total, last)

    -- With the limit that `materialize` puts on the patch id.
    counted_at :
        IsReadable
        → deletion_count compare trees pattern
            (if ltb trees.max_patch_id patch_id then trees.max_patch_id else patch_id)
          ≡ some (total, last)
    counted_at k =
        subst
          (λ b.
            deletion_count compare trees pattern (if b then trees.max_patch_id else patch_id)
            ≡ some (total, last))
          (sym k.in_range) k.counted

    ready :
        (has_last : Bool)
        → IsReadable
        → IsReady
            (compare spo)
            o
            tree
            valid
            patch_id
            pattern
            (reset_triple_pattern_filter (query_filters patch_id pattern))
            has_last
            null_triple
    unfolding reset_triple_pattern_filter set_early_break
    ready has_last k = record {
      early = refl;
      answers = Answers-reset (query_filters patch_id pattern) valid tree k.answers;
      none_kept = λ e. refl;
    }

    -- For a pattern under which the first record of the deletion tree from the triple at the offset on
    -- has another pattern, while that triple lies before the last deletion: get_version_materialized does
    -- not skip the deletions before the offset. Its iterator gives, with enough calls, the triples of the
    -- snapshot that are not deleted from the place `kept_before` on, which is the offset less the
    -- deletions before it, instead of from the offset on, and then the additions that its addition
    -- iterator finds. So with deletions before the offset it gives again triples that lie before the
    -- offset in the version.
    pub materialize-repeats :
        (has_last : Bool) (offset kept_before : ℕ) (rest : List Triple) (f : Filters)
        (cursor additions : List Addition)
        → IsReadable
        → drop offset snapshot ≡ first ∷ rest
        → kept_before + gone_before gone offset snapshot ≡ offset
        → start_additions compare trees h max_hdt_id offset total patch_id pattern
          ≡ some (record { filters = f; cursor = cursor })
        → ((fuel : ℕ) → length cursor < fuel → Filtered.collect fuel f cursor ≡ some additions)
        → (s : State) × (materialize compare trees h max_hdt_id has_last offset patch_id pattern
            ≡ some (s, total, patch_id))
          × ((fuel : ℕ)
              → length (drop offset snapshot) + length cursor < fuel
              → collect compare trees h max_hdt_id fuel offset total patch_id pattern s
                ≡ some (drop kept_before (filter (stays gone) snapshot) ++ map key additions))
    unfolding materialize new_deleter
    materialize-repeats has_last offset kept_before rest f cursor additions k e counts started
          adds =
        (
          over (new_deleter has_last (some broken_off)) (drop offset snapshot),
          rw
              (
                counted_at k,
                k.in_range,
                search_with_offset-drop h laws compare max_hdt_id pattern offset snapshot found,
                e,
                skip_deletions-stops h laws max_hdt_id snapshot found
                    (suc (length (trees.deletions spo))) offset rest,
                e,
              )
              refl,
          λ fuel s.
              collect_rest compare trees h max_hdt_id offset total patch_id pattern o tree valid
                k.sorted f cursor additions started adds fuel (drop offset snapshot)
                (reset_triple_pattern_filter (query_filters patch_id pattern)) (d ∷ more) has_last
                null_triple (drop-All _ offset snapshot k.terms) (ready has_last k) s
              ∙ ap (λ l. some (l ++ map key additions))
                  (filter-drop gone offset kept_before snapshot counts),
        )
