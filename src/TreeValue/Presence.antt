-- ===== src/TreeValue/Presence.antt =====
-- `is_present` against the sets of patch ids that the two values stand for.
use ostrich.Base.{
  ℕ, ◌+◌, ◌≡◌, ◌<◌, refl, sym, ap, ◌∙◌, Bool, true, false, ◌&&◌, some, List, [], ◌∷◌,
}
use ostrich.Base.{arith, if◌then◌else◌, and_split, Bool-cases, inl, inr}
use ostrich.Base.Int.{ℤ, pos, negsuc}
use ostrich.Interval.{IntervalList}
use ostrich.Interval
use ostrich.Interval.Covers.{covers}
use ostrich.Interval.Virtual.{Reaches, values, index_of, virtual_vector}
use ostrich.Interval.Index.{is_found, get_index-covers}
use ostrich.AdditionValue
use ostrich.DeletionValue
use ostrich.TreeValue.{TreeValue, is_present, exists_in_snapshot}
use ostrich.TreeValue.{get_addition_patch_id, get_deletion_patch_id}

-- The patch id lies below the limits of a list, and the outer limit reaches the open interval.
abbrev pub InRange : ℕ → ℕ → IntervalList → Type 0
InRange p outer l = (p < outer) × (p < l.max) × Reaches l.max outer l.intervals

index_of-missing :
    (k v : ℕ) (xs : List ℕ) → is_found (index_of k v xs) ≡ false → index_of k v xs ≡ negsuc 0
index_of-missing k v [] h = refl
index_of-missing k v (x ∷ xs) h = ground (arith, index_of-missing (k + 1) v xs)

get_index-missing :
    (p outer : ℕ) (l : IntervalList)
    → InRange p outer l
    → covers p l.intervals ≡ false
    → Interval.get_index p outer l ≡ negsuc 0
get_index-missing p outer l r h =
    let e = (virtual_vector outer p 0 l r.2).1 in
    e
    ∙ index_of-missing 0 p (values l.max outer l.intervals)
        (ap is_found (sym e) ∙ get_index-covers outer p l r.2 r.0 r.1 ∙ h)

get_index-present :
    (p outer : ℕ) (l : IntervalList)
    → InRange p outer l
    → covers p l.intervals ≡ true
    → (n : ℕ) × (Interval.get_index p outer l ≡ pos n)
get_index-present p outer l r h =
    found (Interval.get_index p outer l) (get_index-covers outer p l r.2 r.0 r.1 ∙ h)
  where
    found : (i : ℤ) → is_found i ≡ true → (n : ℕ) × (i ≡ pos n)
    found (pos n) e = (n, refl)
    found (negsuc n) e = cc

-- The value has the patch among its additions, or among its deletions.
abbrev pub adds : ℕ → TreeValue → Bool
adds p v = v.has_addition && covers p v.addition.patches.intervals

abbrev pub deletes : ℕ → TreeValue → Bool
deletes p v = v.has_deletion && covers p v.deletion.elements.patches.intervals

module _ (p : ℕ) (v : TreeValue) where
  addition_missing :
      InRange p v.addition.max_patch_id v.addition.patches
      → adds p v ≡ false
      → get_addition_patch_id p true v ≡ negsuc 0
  unfolding get_addition_patch_id AdditionValue.get_patchvalue_index
  addition_missing r h =
      ground (arith, get_index-missing p v.addition.max_patch_id v.addition.patches r)

  addition_present :
      InRange p v.addition.max_patch_id v.addition.patches
      → adds p v ≡ true
      → (n : ℕ) × (get_addition_patch_id p true v ≡ pos n)
  unfolding get_addition_patch_id AdditionValue.get_patchvalue_index
  addition_present r h =
      let (has, inside) = and_split v.has_addition (covers p v.addition.patches.intervals) h in
      let (n, e) = get_index-present p v.addition.max_patch_id v.addition.patches r inside in
      (n, rw has e)

  deletion_missing :
      InRange p v.deletion.max_patch_id v.deletion.elements.patches
      → deletes p v ≡ false
      → get_deletion_patch_id p true v ≡ some (negsuc 0)
  unfolding get_deletion_patch_id DeletionValue.get_patchvalue_index
  deletion_missing r h =
      ground (arith, get_index-missing p v.deletion.max_patch_id v.deletion.elements.patches r)

  deletion_present :
      InRange p v.deletion.max_patch_id v.deletion.elements.patches
      → deletes p v ≡ true
      → (n : ℕ) × (get_deletion_patch_id p true v ≡ some (pos n))
  unfolding get_deletion_patch_id DeletionValue.get_patchvalue_index
  deletion_present r h =
      let (has, inside) =
        and_split v.has_deletion (covers p v.deletion.elements.patches.intervals) h in
      let (n, e) =
        get_index-present p v.deletion.max_patch_id v.deletion.elements.patches r inside in
      (n, rw (has, e))

  -- For a patch id below the limits of both values, whose outer limits reach their open intervals, that
  -- is not among the additions and the deletions at once, `is_present` is true if it is among the
  -- additions, false if it is among the deletions, and else what `exists_in_snapshot` tells.
  pub is_present-covers :
      InRange p v.addition.max_patch_id v.addition.patches
      → InRange p v.deletion.max_patch_id v.deletion.elements.patches
      → (adds p v && deletes p v) ≡ false
      → is_present p v ≡ (
          if adds p v
          then some true
          else (if deletes p v then some false else exists_in_snapshot v))
  unfolding is_present
  is_present-covers ra rd one = elim (Bool-cases (adds p v)) [
    | inl a ↦ elim (Bool-cases (deletes p v)) [
      | inl d ↦ cc (rw (a, d) at one)
      | inr d ↦
          let (n, e) = addition_present ra a in rw (e, deletion_missing rd d, a) (ground arith)
    ]
    | inr a ↦ elim (Bool-cases (deletes p v)) [
      | inl d ↦
          let (n, e) = deletion_present rd d in rw (addition_missing ra a, e, a, d) (ground arith)
      | inr d ↦ rw (addition_missing ra a, deletion_missing rd d, a, d) (ground arith)
    ]
  ]
