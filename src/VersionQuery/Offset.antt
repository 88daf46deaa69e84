-- ===== src/VersionQuery/Offset.antt =====
-- The loop of `get_version_materialized` that moves the snapshot iterator on by the deletions before its
-- offset: it ends, and what is left of the snapshot without its deletions starts at the offset.
use ostrich.Base.{
  ℕ, zero, suc, ◌+◌, ◌≡◌, refl, sym, ap, ◌∙◌, Bool, true, false, Option, none, some, List, [], ◌∷◌,
  map, ◌>>=◌,
}
use ostrich.Base.{◌<◌}
use mathlib.Core.Path.{subst}
use ostrich.Base.{arith, length, All, drop, if◌then◌else◌, Bool-cases, inl, inr, ◌⊎◌}
use ostrich.Base.Int.{ℤ, pos}
use ostrich.Comparator.Keys.{KeyRanks}
use ostrich.Triple.{Triple, ComponentOrder, spo}
use ostrich.Delta.{is_negative}
use ostrich.Delta.Merge.{Sorted}
use ostrich.PatchTree.Visits.{Deletion}
use ostrich.PatchTreeIterator.{
  Filters, Found, next_deletion, set_patch_filter, set_triple_pattern_filter,
  set_filter_local_changes, set_early_break,
}
use ostrich.PatchTreeIterator.Filtered.{filter}
use ostrich.PatchTree.Queries.{
  Trees, Positioned, no_filters, read_for, jump, next_positioned, position_in,
  deletion_iterator_from,
}
use ostrich.VersionQuery.{snapshot_offset}
use ostrich.VersionQuery.Cursor.{All-jump}
use ostrich.VersionQuery.Deleted.{Answers, rank}
use ostrich.VersionQuery.Emitted.{positioned}
use ostrich.VersionQuery.Counting.{
  deletion_key, last_key, gone_before, Located, Numbered, triple_rank, jump-Located, last-before,
  drop-above, filter-Sorted,
}
use ostrich.VersionQuery.First.{passes, MatchesFirst, IsFirst, next_deletion-IsFirst, filter-jump}

-- The filters of the deletion iterator in the loop.
abbrev pub query_filters : ℕ → Triple → Filters
query_filters patch_id pattern = set_early_break true (
    set_early_break false (
      set_filter_local_changes true
        (set_triple_pattern_filter pattern (set_patch_filter patch_id true no_filters))))

pub drop-All : (P : Triple → Type 0) (j : ℕ) (l : List Triple) → All P l → All P (drop j l)
drop-All P zero l a = a
drop-All P (suc j) [] a = a
drop-All P (suc j) (t ∷ l) a = drop-All P j l a.1

-- What the loop relies on, for a snapshot with the triples `snapshot`.
module _ (compare : ComponentOrder → Triple → Triple → ℤ) (o : KeyRanks (compare spo))
    (trees : Trees) (patch_id : ℕ) (pattern : Triple) (valid : Deletion → Bool)
    (gone : Triple → Bool) (snapshot : List Triple) where
  abbrev pub read_tree : List Deletion
  read_tree = map (read_for patch_id) (trees.deletions spo)

  abbrev pub passing : List Deletion
  passing = filter (passes (query_filters patch_id pattern) valid) read_tree

  abbrev pub position : Deletion → Option ℤ
  position d = position_in patch_id pattern d.1

  pub record IsConsistent : Type 0 where
    -- The tree and the snapshot hold keys in the order of the comparator.
    pub tree_sorted : Sorted (rank (compare spo) o) 1 read_tree
    pub snapshot_sorted : Sorted (triple_rank (compare spo) o gone position) 1 snapshot
    -- The filters by patch and by local changes answer for every value.
    pub answers : All (Answers (query_filters patch_id pattern) valid) read_tree
    -- The deletions of the patch under the pattern are triples of the snapshot, and are numbered.
    pub keys : map deletion_key passing ≡ filter gone snapshot
    pub numbered : Numbered position 0 passing
    -- From each triple of the snapshot on, the tree has the triples of the pattern first.
    pub contiguous :
        All
          (λ t. MatchesFirst (query_filters patch_id pattern) (jump (compare spo) t read_tree))
          snapshot

  module _ (c : IsConsistent) where
    early : (query_filters patch_id pattern).can_early_break ≡ true
    unfolding set_early_break
    early = refl

    abbrev pub iterator : List Deletion → Positioned
    iterator l =
        positioned (compare spo) o read_tree valid patch_id pattern (query_filters patch_id pattern)
          l

    -- What is made of the deletion that is found.
    abbrev pub offset_of : Triple → Found Deletion → Option (ℤ × Positioned)
    offset_of first (none, l) = some (
      if is_negative (compare spo first (last_key passing)) then pos 0 else pos (length passing),
      iterator l,
    )
    offset_of first (some d, l) = position d >>= λ p. some (p, iterator l)

    snapshot_offset-run :
        (first : Triple) (r : Found Deletion)
        → next_deletion true true
            (query_filters patch_id pattern)
            (jump (compare spo) first read_tree)
          ≡ some r
        → snapshot_offset compare trees patch_id pattern
            (pos (length passing))
            (last_key passing)
            first
          ≡ offset_of first r
    unfolding snapshot_offset deletion_iterator_from next_positioned
    snapshot_offset-run first (none, l) run = rw run refl
    snapshot_offset-run first (some d, l) run = rw run refl

    offset_of-Located :
        (first : Triple) (count : ℕ) (r : Found Deletion)
        → 0 < o.rank first
        → IsFirst (query_filters patch_id pattern) valid (jump (compare spo) first read_tree) r
        → Located position 0 count (length passing) (jump (compare spo) first passing)
        → (l : List Deletion) × (offset_of first r ≡ some (pos count, iterator l))
    offset_of-Located first count (none, l) u e at = (
      l,
      none_found (
          last-before (compare spo) o gone position first 1 passing u (omega arith)
            (filter-Sorted _ _ 1 read_tree c.tree_sorted) passed),
    )
      where
        passed : jump (compare spo) first passing ≡ []
        passed =
            sym (
              filter-jump (compare spo) o (passes (query_filters patch_id pattern) valid) first 1
                read_tree u (omega arith) c.tree_sorted)
            ∙ e

        counted : length passing ≡ count
        counted = subst (Located position 0 count (length passing)) passed at

        none_found :
            (passing ≡ []) ⊎ (is_negative (compare spo first (last_key passing)) ≡ false)
            → offset_of first (none, l) ≡ some (pos count, iterator l)
        none_found (inl n) =
            elim (Bool-cases (is_negative (compare spo first (last_key passing)))) [
              | inl b ↦
                  rw b
                    (ap (λ (k : ℕ). some (pos k, iterator l)) (omega (arith, ap length n, counted)))
              | inr b ↦ rw b (ap (λ (k : ℕ). some (pos k, iterator l)) counted)
            ]
        none_found (inr b) = rw b (ap (λ (k : ℕ). some (pos k, iterator l)) counted)
    offset_of-Located first count (some d, l) u (rest, e) at =
        (l, rw numbered (ap (λ (k : ℕ). some (pos k, iterator l)) (omega arith)))
      where
        found : jump (compare spo) first passing ≡ d ∷ rest
        found =
            sym (
              filter-jump (compare spo) o (passes (query_filters patch_id pattern) valid) first 1
                read_tree u (omega arith) c.tree_sorted)
            ∙ e

        numbered : position d ≡ some (pos (0 + count))
        numbered = subst (Located position 0 count (length passing)) found at

    -- The offset that a round finds: the deletions before the triple.
    pub snapshot_offset-count :
        (j : ℕ) (first : Triple) (rest : List Triple)
        → drop j snapshot ≡ first ∷ rest
        → (l : List Deletion) × (snapshot_offset compare trees patch_id pattern
              (pos (length passing))
              (last_key passing)
              first
            ≡ some (pos (gone_before gone j snapshot), iterator l))
    snapshot_offset-count j first rest e =
        let matches =
          subst
            (All
              (λ t. MatchesFirst (query_filters patch_id pattern) (jump (compare spo) t read_tree)))
            e (drop-All _ j snapshot c.contiguous) in
        let (r, run, is_first) =
          next_deletion-IsFirst (query_filters patch_id pattern) valid
            (jump (compare spo) first read_tree)
            (All-jump _ (compare spo) first read_tree c.answers) matches.0 early in
        let (l, at) =
          offset_of-Located first (gone_before gone j snapshot) r
            (omega (
              arith,
              drop-above (compare spo) o gone position j 1 snapshot first rest c.snapshot_sorted e,
            ))
            is_first
            (jump-Located (compare spo) o gone position j 0 1 snapshot passing first rest
              (omega arith) c.snapshot_sorted e c.keys c.numbered) in
        (l, snapshot_offset-run first r run ∙ at)
