-- ===== src/VersionQuery.antt =====
-- The query for one version: `Controller::get_version_materialized` of
-- src/main/cpp/controller/controller.cc, and `SnapshotPatchIteratorTripleID` of
-- src/main/cpp/controller/snapshot_patch_iterator_triple_id.cc, which gives the triples of the snapshot
-- less the deletions of the patch, and then its additions. `none` is undefined behaviour.
pub mod Cursor
pub mod Deleted
pub mod Emitted
pub mod Collected
pub mod Counting
pub mod First
pub mod Offset
pub mod Skipped
pub mod Additions
pub mod Drops
pub mod Result
mod Examples
pub mod Repeats
use ostrich.Base.{ℕ, zero, suc, Bool, true, false, Option, none, some, List, [], ◌∷◌, ◌>>=◌}
use ostrich.Base.{ltb, if◌then◌else◌, length}
use ostrich.Base.Int.{ℤ, pos, ◌+ℤ◌, ◌-ℤ◌, pos_part, ltb_ℤ}
use ostrich.Triple.{Triple, triple, ComponentOrder, spo, equals}
use ostrich.Delta.{is_negative}
use ostrich.PatchTree.Visits.{Deletion, is_positive}
use ostrich.PatchTreeIterator.{
  Filters, set_triple_pattern_filter, reset_triple_pattern_filter, set_early_break,
}
use ostrich.PatchTree.Queries.{
  Trees, Positioned, AdditionIterator, jump, next_positioned, next_triple, position_in,
  deletion_iterator_from, addition_iterator_from, deletion_count,
}
use ostrich.SnapshotManager.{Hdt, search_with_offset, searched_pattern}

-- The deletion iterator, with the deletion that was read last.
pub record Deleter : Type 0 where
  pub deletion_it : Option Positioned
  pub has_last : Bool
  pub last : Triple

-- `has_last_deleted_triple || deletion_it->next(last_deleted_triple, false, false)`, and the triple.
unfoldable pub read_deleted : Bool → Triple → Positioned → Option (Option Triple × Positioned)
unfolding next_positioned
read_deleted true last it = some (some last, it)
read_deleted false last it =
    next_positioned false it >>= λ r. some (elim r.0 [ none ↦ none | some d ↦ some d.0 ], r.1)

-- The constructor: the pattern filter goes, and `has_last_deleted_triple` holds whatever it holds.
unfoldable pub new_deleter : Bool → Option Positioned → Deleter
unfolding reset_triple_pattern_filter
new_deleter has_last deletion_it = record {
  deletion_it = elim deletion_it [
    | none ↦ none
    | some it ↦ some (record it { filters = reset_triple_pattern_filter it.filters })
  ];
  has_last = has_last;
  last = triple 0 0 0;
}

module _ (compare : Triple → Triple → ℤ) where
  -- `while (found_triple_before_snapshot_triple)`, for at most `fuel` rounds: whether the triple is
  -- emitted, and the state behind it.
  unfoldable pub find_deleted : ℕ → Bool → Triple → Positioned → Triple → Option (Bool × Deleter)
  unfolding read_deleted
  find_deleted zero has_last last it t = none
  find_deleted (suc fuel) has_last last it t = read_deleted has_last last it >>= λ r. elim r.0 [
    | none ↦ some (true, record { deletion_it = some r.1; has_last = has_last; last = last })
    | some d ↦
        let rest = find_deleted fuel false d r.1 t in
        if equals d t
        then some (false, record { deletion_it = some r.1; has_last = false; last = d })
        else (if is_positive (compare d t)
            then some (true, record { deletion_it = some r.1; has_last = true; last = d })
            else rest)
  ]

  -- The body for one triple of the snapshot: the cursor jumps to where it would be, and only that
  -- triple is looked for.
  unfoldable pub try_triple : Deleter → Triple → Option (Bool × Deleter)
  unfolding find_deleted jump set_triple_pattern_filter
  try_triple s t = s.deletion_it >>= λ it.
      find_deleted (suc (suc (length it.tree))) s.has_last s.last
        (record it {
          filters = set_triple_pattern_filter t it.filters;
          cursor = jump compare t it.tree;
        })
        t

  -- The rounds over the snapshot, until a triple is emitted.
  unfoldable pub next_in_snapshot :
      Deleter → List Triple → Option (Option Triple × List Triple × Deleter)
  unfolding try_triple
  next_in_snapshot s [] = some (none, [], s)
  next_in_snapshot s (t ∷ l) = try_triple s t >>= λ r. elim r.0 [
    | true ↦ some (some t, l, r.1)
    | false ↦ next_in_snapshot r.1 l
  ]

-- `snapshot_it` and `addition_it`, `none` for a null pointer.
pub record State : Type 0 where
  pub snapshot_it : Option (List Triple)
  pub deleter : Deleter
  pub addition_it : Option AdditionIterator

-- The rounds over the additions.
unfoldable pub next_in_additions : State → Option (Option Triple × State)
unfolding next_triple
next_in_additions s = elim s.addition_it [
  | none ↦ some (none, s)
  | some it ↦ next_triple it >>= λ r. elim r.0 [
    | none ↦ some (none, record s { addition_it = none })
    | some t ↦ some (some t, record s { addition_it = some r.1 })
  ]
]

module _ (compare : ComponentOrder → Triple → Triple → ℤ) (trees : Trees) where
  -- How many deletions lie before the first triple of the snapshot iterator, and the deletion
  -- iterator; `last` is the largest deletion and `total` their number.
  unfoldable pub snapshot_offset : ℕ → Triple → ℤ → Triple → Triple → Option (ℤ × Positioned)
  unfolding deletion_iterator_from next_positioned set_early_break
  snapshot_offset patch_id pattern total last first =
      let it = deletion_iterator_from compare trees first patch_id pattern in
      next_positioned true (record it { filters = set_early_break true it.filters }) >>= λ r.
      elim r.0 [
        | some d ↦ position_in patch_id pattern d.1 >>= λ p. some (p, r.1)
        | none ↦ some (if is_negative (compare spo first last) then pos 0 else total, r.1)
      ]

module _ (compare : ComponentOrder → Triple → Triple → ℤ) (trees : Trees) (h : Hdt)
    (max_hdt_id : ℕ) where
  -- The number of the triples of the snapshot, counted if the estimate is not exact.
  unfoldable pub snapshot_count : Triple → ℕ
  unfolding search_with_offset
  snapshot_count pattern =
      if h.is_exact (searched_pattern max_hdt_id pattern)
      then h.estimated_num_results (searched_pattern max_hdt_id pattern)
      else length (search_with_offset compare h max_hdt_id pattern 0 false)

  -- The addition iterator with the offset that is left of it.
  unfoldable pub start_additions : ℕ → ℤ → ℕ → Triple → Option AdditionIterator
  unfolding snapshot_count addition_iterator_from ◌+ℤ◌ ◌-ℤ◌
  start_additions offset deletions patch_id pattern =
      addition_iterator_from compare trees
        ((pos offset -ℤ pos (snapshot_count pattern)) +ℤ deletions) patch_id pattern

  -- `next`
  unfoldable pub next : ℕ → ℤ → ℕ → Triple → State → Option (Option Triple × State)
  unfolding next_in_snapshot next_in_additions start_additions
  next offset deletions patch_id pattern s = elim s.snapshot_it [
    | none ↦ next_in_additions s
    | some l ↦ next_in_snapshot (compare spo) s.deleter l >>= λ r. elim r.0 [
      | some t ↦ some (some t, record s { snapshot_it = some r.1; deleter = r.2 })
      | none ↦ start_additions offset deletions patch_id pattern >>= λ it.
          next_in_additions (record { snapshot_it = none; deleter = r.2; addition_it = some it })
    ]
  ]

  -- `while(check_offseted_deletions)`, for at most `fuel` rounds: the triples of the snapshot that are
  -- left, and the deletion iterator. A negative offset would throw in `goTo`; it does not occur.
  unfoldable pub skip_deletions :
      ℕ → ℕ → ℕ → Triple → ℤ → Triple → ℤ → List Triple → Option (List Triple × Option Positioned)
  unfolding snapshot_offset search_with_offset ◌+ℤ◌
  skip_deletions zero offset patch_id pattern total last added l = none
  skip_deletions (suc fuel) offset patch_id pattern total last added [] = some ([], none)
  skip_deletions (suc fuel) offset patch_id pattern total last added (first ∷ l) =
      snapshot_offset compare trees patch_id pattern total last first >>= λ r.
      let l' =
        search_with_offset compare h max_hdt_id pattern (pos_part (pos offset +ℤ r.0)) false in
      let rest = skip_deletions fuel offset patch_id pattern total last r.0 l' in
      if ltb_ℤ added r.0 then rest else some (l', some r.1)

  -- The part of `get_version_materialized` for a patch: the iterator that it makes, with the number of
  -- the deletions, and the patch id, which is limited to the largest one. A round that goes on has found
  -- more deletions than the one before.
  unfoldable pub materialize : Bool → ℕ → ℕ → Triple → Option (State × ℤ × ℕ)
  unfolding skip_deletions new_deleter search_with_offset deletion_count
  materialize has_last offset patch_id pattern =
      let patch = (if ltb trees.max_patch_id patch_id then trees.max_patch_id else patch_id) in
      deletion_count compare trees pattern patch >>= λ c.
      skip_deletions (suc (suc (length (trees.deletions spo)))) offset patch pattern c.0 c.1 (pos 0)
        (search_with_offset compare h max_hdt_id pattern offset false)
      >>= λ r. some (
        record { snapshot_it = some r.0; deleter = new_deleter has_last r.1; addition_it = none },
        c.0,
        patch,
      )

  -- The results of `next` until it returns false, for at most `fuel` calls.
  unfoldable pub collect : ℕ → ℕ → ℤ → ℕ → Triple → State → Option (List Triple)
  unfolding next
  collect zero offset deletions patch_id pattern s = none
  collect (suc fuel) offset deletions patch_id pattern s =
      next offset deletions patch_id pattern s >>= λ r. elim r.0 [
        | none ↦ some []
        | some t ↦ collect fuel offset deletions patch_id pattern r.1 >>= λ ts. some (t ∷ ts)
      ]
