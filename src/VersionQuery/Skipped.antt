-- ===== src/VersionQuery/Skipped.antt =====
-- The loop that skips the deletions before the offset ends, and where it ends.
use ostrich.Base.{
  ℕ, zero, suc, ◌+◌, ◌≡◌, ◌<◌, ◌≤◌, refl, ap, ◌∙◌, Bool, Option, none, some, List, [], ◌∷◌, map,
}
use ostrich.Base.{arith, length, drop, if◌then◌else◌, inl, inr, lt→ltb, not_ltb, lt_or_le}
use ostrich.Base.Int.{ℤ, pos, pos_part, ◌+ℤ◌, ltb_ℤ}
use ostrich.Comparator.Keys.{KeyRanks}
use ostrich.Triple.{Triple, ComponentOrder, spo}
use ostrich.PatchTree.Visits.{Deletion}
use ostrich.PatchTree.Queries.{Trees, Positioned}
use ostrich.SnapshotManager.{Hdt, HdtLaws, searched_pattern}
use ostrich.SnapshotManager.Search.{search_with_offset-drop}
use ostrich.VersionQuery.{skip_deletions}
use ostrich.VersionQuery.Counting.{
  deletion_key, last_key, gone_before, gone_before-all, gone_before_mono,
}
use ostrich.VersionQuery.Offset.{IsConsistent, passing, iterator, snapshot_offset-count}

pub pos-add : (a b : ℕ) → pos_part (pos a +ℤ pos b) ≡ a + b
unfolding ◌+ℤ◌
pos-add a b = ground arith

pub length-keys : (l : List Deletion) → length (map deletion_key l) ≡ length l
length-keys [] = refl
length-keys (d ∷ l) = omega (arith, length-keys l)

module _ (compare : ComponentOrder → Triple → Triple → ℤ) (o : KeyRanks (compare spo))
    (trees : Trees) (patch_id : ℕ) (pattern : Triple) (valid : Deletion → Bool)
    (gone : Triple → Bool) (snapshot : List Triple)
    (c : IsConsistent compare o trees patch_id pattern valid gone snapshot) (h : Hdt)
    (laws : HdtLaws h) (max_hdt_id : ℕ)
    (found : h.search (searched_pattern max_hdt_id pattern) ≡ some snapshot) where
  abbrev pub deletions : List Deletion
  deletions = passing compare o trees patch_id pattern valid gone snapshot

  -- The rest of the snapshot at the end of the loop: behind the offset and the deletions before it, or
  -- nothing.
  pub data Ended (offset : ℕ) : List Triple × Option Positioned → Type 0 where
    behind :
        (a : ℕ) (l : List Deletion) (r : List Triple × Option Positioned)
        → gone_before gone (offset + a) snapshot ≡ a
        → r ≡ (
          drop (offset + a) snapshot,
          some (iterator compare o trees patch_id pattern valid gone snapshot c l),
        )
        → Ended offset r
    exhausted :
        (a : ℕ) (r : List Triple × Option Positioned)
        → a ≤ gone_before gone (offset + a) snapshot
        → drop (offset + a) snapshot ≡ []
        → r ≡ ([], none)
        → Ended offset r

  abbrev pub skip : ℕ → ℕ → ℕ → List Triple → Option (List Triple × Option Positioned)
  skip fuel offset a l =
      skip_deletions compare trees h max_hdt_id fuel offset patch_id pattern
        (pos (length deletions)) (last_key deletions) (pos a) l

  abbrev pub EndsAt : ℕ → Option (List Triple × Option Positioned) → Type 0
  EndsAt offset out = (r : List Triple × Option Positioned) × (out ≡ some r) × Ended offset r

  at_most : (j : ℕ) → gone_before gone j snapshot ≤ length deletions
  at_most j =
      omega (arith, gone_before-all gone j snapshot, ap length c.keys, length-keys deletions)

  round :
      (fuel offset a : ℕ) (first : Triple) (rest : List Triple)
      → drop (offset + a) snapshot ≡ first ∷ rest
      → (l : List Deletion) × (skip (suc fuel) offset a (first ∷ rest) ≡ (
          if ltb_ℤ (pos a) (pos (gone_before gone (offset + a) snapshot))
          then skip fuel offset
              (gone_before gone (offset + a) snapshot)
              (drop (offset + gone_before gone (offset + a) snapshot) snapshot)
          else some (
            drop (offset + gone_before gone (offset + a) snapshot) snapshot,
            some (iterator compare o trees patch_id pattern valid gone snapshot c l),
          )))
  unfolding skip_deletions
  round fuel offset a first rest e =
      let (l, run) =
        snapshot_offset-count compare o trees patch_id pattern valid gone snapshot c (offset + a)
          first rest e in
      (
        l,
        rw
            (
              run,
              pos-add,
              search_with_offset-drop h laws compare max_hdt_id pattern
                  (offset + gone_before gone (offset + a) snapshot) snapshot found,
            )
            refl,
      )

  at_end : (fuel offset a : ℕ) → skip (suc fuel) offset a [] ≡ some ([], none)
  unfolding skip_deletions
  at_end fuel offset a = refl

  stop :
      (offset a : ℕ) (l : List Deletion)
      → gone_before gone (offset + a) snapshot ≡ a
      → Ended offset (
        drop (offset + gone_before gone (offset + a) snapshot) snapshot,
        some (iterator compare o trees patch_id pattern valid gone snapshot c l),
      )
  stop offset a l e = behind a l _ e (
      ap
        (λ (k : ℕ). (
          drop (offset + k) snapshot,
          some (iterator compare o trees patch_id pattern valid gone snapshot c l),
        ))
        e)

  pub skip_deletions-Ended :
      (fuel offset a : ℕ) (rest : List Triple)
      → drop (offset + a) snapshot ≡ rest
      → a ≤ gone_before gone (offset + a) snapshot
      → length deletions < fuel + a
      → EndsAt offset (skip fuel offset a rest)
  skip_deletions-Ended zero offset a rest e h short = absurd (omega (arith, at_most (offset + a)))
  skip_deletions-Ended (suc fuel) offset a [] e h short =
      (([], none), at_end fuel offset a, exhausted a _ h e refl)
  skip_deletions-Ended (suc fuel) offset a (first ∷ rest) e h short =
      let (l, step) = round fuel offset a first rest e in
      elim (lt_or_le a (gone_before gone (offset + a) snapshot)) [
        | inl more ↦
            let (r, run, ended) =
              skip_deletions-Ended fuel offset (gone_before gone (offset + a) snapshot)
                (drop (offset + gone_before gone (offset + a) snapshot) snapshot) refl
                (gone_before_mono gone (offset + a)
                  (offset + gone_before gone (offset + a) snapshot) snapshot (omega arith))
                (omega arith) in
            (
              r,
              step
                  ∙ rw (lt→ltb (a + 0) (gone_before gone (offset + a) snapshot + 0) (omega arith))
                      run,
              ended,
            )
        | inr same ↦ (
          _,
          step
              ∙ rw (not_ltb (a + 0) (gone_before gone (offset + a) snapshot + 0) (omega arith))
                  refl,
          stop offset a l (omega arith),
        )
      ]
