-- ===== src/Delta.antt =====
-- The iterators over deltas of src/main/cpp/controller/triple_delta_iterator.cc that merge two sorted
-- sources: MergeDiffIterator, MergeDiffIteratorCase2, SnapshotDiffIterator and PlainDiffDeltaIterator.
-- A source is the list of what its `next` still gives; its current element, which the code keeps with
-- a status or a null pointer, is the head. `T` is a triple with its dictionary, and `compare` the
-- comparator that the iterator is built with.
pub mod Merge
pub mod Steps
pub mod Rules
pub mod Iterators
pub mod Versions
mod Examples
use ostrich.Base.{
  ℕ, zero, suc, Bool, true, false, not, ◌&&◌, Option, none, some, List, [], ◌∷◌, ◌+◌,
}
use ostrich.Base.{if◌then◌else◌, length}
use ostrich.Base.Int.{ℤ, pos, negsuc}
use mathlib.Core.Option

-- A triple with the flag that tells an addition from a deletion.
pub record Delta (T : Type 0) : Type 0 where
  pub item : T
  pub addition : Bool

-- `comp == 0` and `comp < 0`
abbrev pub is_zero : ℤ → Bool
is_zero (pos zero) = true
is_zero (pos (suc n)) = false
is_zero (negsuc n) = false

abbrev pub is_negative : ℤ → Bool
is_negative (pos n) = false
is_negative (negsuc n) = true

abbrev pub differ : Bool → Bool → Bool
differ a b = if a then not b else b

-- What is left of the two sources.
abbrev pub Sources : Type 0 → Type 0 → Type 0
Sources A B = List A × List B

-- The results of `next` until it returns false, for at most `fuel` calls; `none` if they do not do.
abbrev pub and_then : {S D : Type 0} → (S → Option (List D)) → Option (D × S) → Option (List D)
and_then rest none = some []
and_then rest (some (d, s)) = Option.map (λ ds. d ∷ ds) (rest s)

unfoldable pub drain : {S D : Type 0} → (S → Option (D × S)) → ℕ → S → Option (List D)
drain next zero s = none
drain next (suc fuel) s = and_then (drain next fuel) (next s)

module _ {T : Type 0} where
  abbrev pub reverted : Delta T → Delta T
  reverted a = record { item = a.item; addition = not a.addition }

  abbrev pub deletion_of : T → Delta T
  deletion_of t = record { item = t; addition = false }

  abbrev pub addition_of : T → Delta T
  addition_of t = record { item = t; addition = true }

module _ {T : Type 0} (compare : T → T → ℤ) where
  -- MergeDiffIterator: the loop that skips equal triples whose flags differ.
  unfoldable pub skip_opposite : List (Delta T) → List (Delta T) → Sources (Delta T) (Delta T)
  skip_opposite [] l2 = ([], l2)
  skip_opposite (a ∷ l1) [] = (a ∷ l1, [])
  skip_opposite (a ∷ l1) (b ∷ l2) =
      if is_zero (compare a.item b.item) && differ a.addition b.addition
      then skip_opposite l1 l2
      else (a ∷ l1, b ∷ l2)

  unfoldable pub emit_merged :
      List (Delta T) → List (Delta T) → Option (Delta T × Sources (Delta T) (Delta T))
  emit_merged [] [] = none
  emit_merged (a ∷ l1) [] = some (a, (l1, []))
  emit_merged [] (b ∷ l2) = some (b, ([], l2))
  emit_merged (a ∷ l1) (b ∷ l2) =
      let comp = compare a.item b.item in
      if is_zero comp
      then some (b, (l1, l2))
      else (if is_negative comp then some (a, (l1, b ∷ l2)) else some (b, (a ∷ l1, l2)))

  unfoldable pub merge_next :
      Sources (Delta T) (Delta T) → Option (Delta T × Sources (Delta T) (Delta T))
  unfolding skip_opposite emit_merged
  merge_next (l1, l2) = let (m1, m2) = skip_opposite l1 l2 in emit_merged m1 m2

  -- MergeDiffIteratorCase2: all equal triples are skipped, and the flags of the first source turn.
  unfoldable pub skip_equal : List (Delta T) → List (Delta T) → Sources (Delta T) (Delta T)
  skip_equal [] l2 = ([], l2)
  skip_equal (a ∷ l1) [] = (a ∷ l1, [])
  skip_equal (a ∷ l1) (b ∷ l2) =
      if is_zero (compare a.item b.item) then skip_equal l1 l2 else (a ∷ l1, b ∷ l2)

  unfoldable pub emit_reverted :
      List (Delta T) → List (Delta T) → Option (Delta T × Sources (Delta T) (Delta T))
  emit_reverted [] [] = none
  emit_reverted (a ∷ l1) [] = some (reverted a, (l1, []))
  emit_reverted [] (b ∷ l2) = some (b, ([], l2))
  emit_reverted (a ∷ l1) (b ∷ l2) =
      if is_negative (compare a.item b.item)
      then some (reverted a, (l1, b ∷ l2))
      else some (b, (a ∷ l1, l2))

  unfoldable pub case2_next :
      Sources (Delta T) (Delta T) → Option (Delta T × Sources (Delta T) (Delta T))
  unfolding skip_equal emit_reverted
  case2_next (l1, l2) = let (m1, m2) = skip_equal l1 l2 in emit_reverted m1 m2

  -- PlainDiffDeltaIterator: for equal triples `next` steps both sources and calls itself.
  unfoldable pub plain_next : List T → List T → Option (Delta T × Sources T T)
  plain_next [] [] = none
  plain_next [] (b ∷ l2) = some (addition_of b, ([], l2))
  plain_next (a ∷ l1) [] = some (deletion_of a, (l1, []))
  plain_next (a ∷ l1) (b ∷ l2) =
      let comp = compare a b in
      if is_zero comp
      then plain_next l1 l2
      else (if is_negative comp
          then some (deletion_of a, (l1, b ∷ l2))
          else some (addition_of b, (a ∷ l1, l2)))

  -- SnapshotDiffIterator: the loop over equal triples, which ends with the last `comp`.
  unfoldable pub skip_common : ℤ → List T → List T → ℤ × Sources T T
  skip_common comp [] l2 = (comp, ([], l2))
  skip_common comp (a ∷ l1) [] = (comp, (a ∷ l1, []))
  skip_common comp (a ∷ l1) (b ∷ l2) =
      if is_zero (compare a b)
      then skip_common (compare a b) l1 l2
      else (compare a b, (a ∷ l1, b ∷ l2))

  -- The tests behind that loop; `comp < 0` holds only where both sources have an element.
  unfoldable pub emit_after : ℤ → List T → List T → Option (Delta T × Sources T T)
  emit_after comp [] [] = none
  emit_after comp (a ∷ l1) [] = some (deletion_of a, (l1, []))
  emit_after comp [] (b ∷ l2) = some (addition_of b, ([], l2))
  emit_after comp (a ∷ l1) (b ∷ l2) =
      if is_negative comp
      then some (deletion_of a, (l1, b ∷ l2))
      else (if not (is_zero comp) then some (addition_of b, (a ∷ l1, l2)) else none)

  unfoldable pub snapshot_next : List T → List T → Option (Delta T × Sources T T)
  unfolding skip_common emit_after
  snapshot_next [] [] = none
  snapshot_next (a ∷ l1) [] = some (deletion_of a, (l1, []))
  snapshot_next [] (b ∷ l2) = some (addition_of b, ([], l2))
  snapshot_next (a ∷ l1) (b ∷ l2) =
      let comp = compare a b in
      if is_zero comp
      then (let (comp', (m1, m2)) = skip_common comp l1 l2 in emit_after comp' m1 m2)
      else (if is_negative comp
          then some (deletion_of a, (l1, b ∷ l2))
          else some (addition_of b, (a ∷ l1, l2)))

-- `TripleDeltaIterator::offset`: `while (offset-- > 0 && next(&td));`
unfoldable pub offset : {S D : Type 0} → (S → Option (D × S)) → ℕ → S → S
offset next zero s = s
offset next (suc n) s = elim (next s) [ none ↦ s | some (d, s') ↦ offset next n s' ]

-- `TripleDeltaIterator::get_count`, for at most `fuel` calls.
unfoldable pub get_count : {S D : Type 0} → (S → Option (D × S)) → ℕ → S → Option ℕ
get_count next zero s = none
get_count next (suc fuel) s = elim (next s) [
  | none ↦ some 0
  | some (d, s') ↦ Option.map suc (get_count next fuel s')
]
