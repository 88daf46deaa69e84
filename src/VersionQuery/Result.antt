-- ===== src/VersionQuery/Result.antt =====
-- What a query for one version gives, from any offset on.
use ostrich.Base.{
  ℕ, zero, suc, ◌+◌, ◌-◌, ◌≡◌, ◌<◌, ◌≤◌, refl, sym, ap, ◌∙◌, Bool, false, Option, none, some, List,
  [], ◌∷◌, ◌++◌, map,
}
use mathlib.Core.Path.{subst}
use ostrich.Base.{arith, length, All, drop, ltb, if◌then◌else◌, Bool-cases, inl, inr}
use ostrich.Base.Int.{ℤ, pos, pos_part, ◌+ℤ◌, ◌-ℤ◌}
use ostrich.Comparator.Keys.{KeyRanks}
use ostrich.Triple.{Triple, ComponentOrder, spo}
use ostrich.PatchTree.Visits.{Deletion, Addition}
use ostrich.PatchTreeIterator.{
  Filters, deletion_valid, reset_triple_pattern_filter, set_early_break,
}
use ostrich.PatchTreeIterator.Filtered as Filtered
use ostrich.PatchTreeIterator.Filtered.{filter}
use ostrich.PatchTree.Queries.{Trees, Positioned, read_for, deletion_count}
use ostrich.SnapshotManager.{Hdt, HdtLaws, search_with_offset, searched_pattern}
use ostrich.SnapshotManager.Search.{search_with_offset-drop}
use ostrich.VersionQuery.{State, new_deleter, snapshot_count, start_additions, materialize, collect}
use ostrich.VersionQuery.Deleted.{IsTriple, Answers, is_deleted}
use ostrich.VersionQuery.Emitted.{null_triple, IsReady}
use ostrich.VersionQuery.Collected.{key, kept, over, at_end, additions-collected, collect_rest}
use ostrich.VersionQuery.Counting.{last_key, gone_before-all, length-parts, filter-drop}
use ostrich.VersionQuery.Offset.{IsConsistent, read_tree, passing, query_filters, drop-All}
use ostrich.VersionQuery.Skipped.{Ended, behind, exhausted, skip_deletions-Ended, length-keys}
use ostrich.VersionQuery.Drops.{drop-append, map-drop, length-dropped, length-filter, length-map}
use ostrich.VersionQuery.Additions.{
  drop-short, HasAdditions, patch_additions, addition_iterator_from-drop, addition_filters,
}

left_over :
    (offset all deleted : ℕ)
    → pos_part ((pos offset -ℤ pos all) +ℤ pos deleted) ≡ offset + deleted - all
unfolding ◌+ℤ◌ ◌-ℤ◌
left_over offset all deleted = ground arith

pub Answers-reset :
    (f : Filters) (valid : Deletion → Bool) (l : List Deletion)
    → All (Answers f valid) l
    → All (Answers (reset_triple_pattern_filter f) valid) l
unfolding deletion_valid reset_triple_pattern_filter
Answers-reset f valid [] a = tt
Answers-reset f valid (d ∷ l) a = (a.0, Answers-reset f valid l a.1)

module _ (compare : ComponentOrder → Triple → Triple → ℤ) (o : KeyRanks (compare spo))
    (trees : Trees) (h : Hdt) (laws : HdtLaws h) (max_hdt_id patch_id : ℕ) (pattern : Triple)
    (valid : Deletion → Bool) (valid_addition : Addition → Bool) (snapshot : List Triple) where
  -- The patch id that is asked for, but at most the largest one.
  abbrev pub patch : ℕ
  patch = if ltb trees.max_patch_id patch_id then trees.max_patch_id else patch_id

  abbrev pub tree : List Deletion
  tree = read_tree compare o trees patch pattern valid (λ t. false) snapshot

  abbrev pub gone : Triple → Bool
  gone = is_deleted valid tree

  abbrev pub deletions : List Deletion
  deletions = passing compare o trees patch pattern valid gone snapshot

  -- The triples of the version under the pattern: those of the snapshot that are not deleted, and then
  -- the additions.
  abbrev pub version : List Triple
  version =
      kept valid tree snapshot
      ++ map key (patch_additions compare trees patch pattern valid_addition)

  -- The store and the snapshot fit together, and the terms of the snapshot have ids.
  pub record IsStored : Type 0 where
    pub found : h.search (searched_pattern max_hdt_id pattern) ≡ some snapshot
    pub consistent : IsConsistent compare o trees patch pattern valid gone snapshot
    pub additions : HasAdditions compare trees patch pattern valid_addition
    pub terms : All (λ t. IsTriple t × (0 < o.rank t)) snapshot
    pub counted :
        deletion_count compare trees pattern patch
        ≡ some (pos (length deletions), last_key deletions)

  module _ (k : IsStored) where
    snapshot_count-length : snapshot_count compare trees h max_hdt_id pattern ≡ length snapshot
    unfolding snapshot_count
    snapshot_count-length = elim (Bool-cases (h.is_exact (searched_pattern max_hdt_id pattern))) [
      | inl e ↦ rw e (laws.exact_law (searched_pattern max_hdt_id pattern) snapshot k.found e)
      | inr n ↦
          rw n (
            ap length
              (search_with_offset-drop h laws compare max_hdt_id pattern 0 snapshot k.found))
    ]

    deletions-length : length deletions ≡ length (filter gone snapshot)
    deletions-length = sym (length-keys deletions) ∙ ap length k.consistent.keys

    -- The offset that is left for the additions.
    additions_left :
        (offset : ℕ)
        → pos_part (
            (pos offset -ℤ pos (snapshot_count compare trees h max_hdt_id pattern))
            +ℤ pos (length deletions))
          ≡ offset - length (kept valid tree snapshot)
    additions_left offset =
        left_over offset (snapshot_count compare trees h max_hdt_id pattern) (length deletions)
        ∙ omega (arith, snapshot_count-length, deletions-length, length-parts gone snapshot)

    abbrev pub drained : ℕ → ℕ → State → Option (List Triple)
    drained fuel offset s =
        collect compare trees h max_hdt_id fuel offset (pos (length deletions)) patch pattern s

    -- With enough calls, a state gives the version from the offset on.
    abbrev pub Gives : ℕ → State → Type 0
    Gives offset s =
        (bound : ℕ) × ((fuel : ℕ)
          → bound < fuel
          → drained fuel offset s ≡ some (drop offset version))

    version-drop :
        (offset : ℕ)
        → drop offset version
          ≡ drop offset (kept valid tree snapshot)
            ++ map key (
                drop
                  (offset - length (kept valid tree snapshot))
                  (patch_additions compare trees patch pattern valid_addition))
    version-drop offset =
        drop-append offset (kept valid tree snapshot) _
        ∙ ap (λ l. drop offset (kept valid tree snapshot) ++ l)
            (sym (
              map-drop (offset - length (kept valid tree snapshot))
                (patch_additions compare trees patch pattern valid_addition)))

    new_deleter-IsReady :
        (has_last : Bool)
        → IsReady
            (compare spo)
            o
            tree
            valid
            patch
            pattern
            (reset_triple_pattern_filter (query_filters patch pattern))
            has_last
            null_triple
    unfolding reset_triple_pattern_filter set_early_break
    new_deleter-IsReady has_last = record {
      early = refl;
      answers = Answers-reset (query_filters patch pattern) valid tree k.consistent.answers;
      none_kept = λ h. refl;
    }

    abbrev pub rest_additions : ℕ → List Addition
    rest_additions offset =
        drop (offset - length (kept valid tree snapshot))
          (patch_additions compare trees patch pattern valid_addition)

    start_additions-rest :
        (offset : ℕ)
        → (l : List Addition) × (start_additions compare trees h max_hdt_id offset
              (pos (length deletions))
              patch
              pattern
            ≡ some (record { filters = addition_filters patch pattern; cursor = l }))
          × ((fuel : ℕ)
              → length l < fuel
              → Filtered.collect fuel (addition_filters patch pattern) l
                ≡ some (rest_additions offset))
    unfolding start_additions
    start_additions-rest offset =
        let (l, run, c) =
          addition_iterator_from-drop compare trees patch pattern valid_addition
            ((pos offset -ℤ pos (snapshot_count compare trees h max_hdt_id pattern))
              +ℤ pos (length deletions))
            k.additions in
        (
          l,
          run,
          λ fuel s.
              c fuel s
              ∙ ap
                  (λ (n : ℕ).
                    some (drop n (patch_additions compare trees patch pattern valid_addition)))
                  (additions_left offset),
        )

    ended-Gives :
        (has_last : Bool) (offset : ℕ) (r : List Triple × Option Positioned)
        → Ended compare o trees patch pattern valid gone snapshot k.consistent h laws max_hdt_id
            k.found offset r
        → Gives offset (over (new_deleter has_last r.1) r.0)
    unfolding new_deleter
    ended-Gives has_last offset r (exhausted a r' le e q) =
        subst (λ p. Gives offset (over (new_deleter has_last p.1) p.0)) (sym q)
          (let (l, run, c) = start_additions-rest offset in
            (length l, λ fuel s. finish l run c fuel s))
      where
        nothing : drop offset (kept valid tree snapshot) ≡ []
        nothing = drop-short offset (kept valid tree snapshot) (
            omega (
              arith,
              le,
              gone_before-all gone (offset + a) snapshot,
              length-parts gone snapshot,
              length-dropped (offset + a) snapshot e,
            ))

        finish :
            (l : List Addition)
            → start_additions compare trees h max_hdt_id offset
                (pos (length deletions))
                patch
                pattern
              ≡ some (record { filters = addition_filters patch pattern; cursor = l })
            → ((fuel : ℕ)
                → length l < fuel
                → Filtered.collect fuel (addition_filters patch pattern) l
                  ≡ some (rest_additions offset))
            → (fuel : ℕ) → length l < fuel
            → drained fuel offset (over (new_deleter has_last none) []) ≡ some (drop offset version)
        finish l run c zero s = absurd (omega arith)
        finish l run c (suc fuel) s =
            at_end compare trees h max_hdt_id offset (pos (length deletions)) patch pattern o tree
              valid k.consistent.tree_sorted (addition_filters patch pattern) l
              (rest_additions offset) run c fuel (new_deleter has_last none)
            ∙ additions-collected compare trees h max_hdt_id offset (pos (length deletions)) patch
                pattern (suc fuel) (new_deleter has_last none) (addition_filters patch pattern) l
                (rest_additions offset) (c (suc fuel) s)
            ∙ ap some
                (sym (version-drop offset ∙ ap (λ m. m ++ map key (rest_additions offset)) nothing))
    ended-Gives has_last offset r (behind a l r' e q) =
        subst (λ p. Gives offset (over (new_deleter has_last p.1) p.0)) (sym q)
          (let (cursor, run, c) = start_additions-rest offset in
            (
              length (drop (offset + a) snapshot) + length cursor,
              λ fuel s.
                  collect_rest compare trees h max_hdt_id offset (pos (length deletions)) patch
                    pattern o tree valid k.consistent.tree_sorted (addition_filters patch pattern)
                    cursor (rest_additions offset) run c fuel (drop (offset + a) snapshot)
                    (reset_triple_pattern_filter (query_filters patch pattern)) l has_last
                    null_triple (drop-All _ (offset + a) snapshot k.terms)
                    (new_deleter-IsReady has_last) s
                  ∙ ap some (
                      ap (λ m. m ++ map key (rest_additions offset))
                        (filter-drop gone (offset + a) offset snapshot (omega arith))
                      ∙ sym (version-drop offset)),
            ))

  -- For a patch whose tree and counts fit its snapshot (both hold keys in the order of the comparator; the
  -- deletions under the pattern are triples of the snapshot, with their numbers from 0 as positions;
  -- from each triple of the snapshot on, the tree has the records of the pattern first; and
  -- deletion_count gives the number of these deletions and the last of them), the iterator that
  -- get_version_materialized makes, whatever its uninitialised flag holds, gives with enough calls exactly the triples of the version
  -- from the offset on: those of the snapshot under the pattern without their deletions, in the order of
  -- the snapshot, and then the additions; after that next returns false.
  pub materialize-version :
      (has_last : Bool) (offset : ℕ)
      → (k : IsStored)
      → (s : State) × (materialize compare trees h max_hdt_id has_last offset patch_id pattern
          ≡ some (s, pos (length deletions), patch))
        × Gives k offset s
  unfolding materialize
  materialize-version has_last offset k =
      let (r, run, ended) =
        skip_deletions-Ended compare o trees patch pattern valid gone snapshot k.consistent h laws
          max_hdt_id k.found (suc (suc (length (trees.deletions spo)))) offset 0
          (search_with_offset compare h max_hdt_id pattern offset false) (start offset k)
          (omega arith) (omega (arith, fewer)) in
      (
        over (new_deleter has_last r.1) r.0,
        rw (k.counted, run) refl,
        ended-Gives k has_last offset r ended,
      )
    where
      fewer : length deletions ≤ length (trees.deletions spo)
      fewer = omega (arith, length-filter _ tree, length-map (read_for patch) (trees.deletions spo))

      start :
          (offset : ℕ)
          → IsStored
          → drop (offset + 0) snapshot
            ≡ search_with_offset compare h max_hdt_id pattern offset false
      start offset k =
          ap (λ (n : ℕ). drop n snapshot) {x = offset + 0} (omega arith)
          ∙ sym (search_with_offset-drop h laws compare max_hdt_id pattern offset snapshot k.found)
