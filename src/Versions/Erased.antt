-- ===== src/Versions/Erased.antt =====
-- The versions that `eraseDeletedVersions` leaves of a triple.
use ostrich.Base.{
  ℕ, suc, ◌+◌, ◌≡◌, ◌<◌, refl, sym, ap, ◌∙◌, Bool, true, false, not, ◌||◌, some, List, [], ◌∷◌,
}
use ostrich.Base.{arith, length, All, ◌==◌, Bool-cases, inl, inr}
use ostrich.Base.Int.{pos}
use ostrich.Interval.Covers.{covers}
use ostrich.Interval.Virtual.{Reaches, values, index_of, virtual_vector}
use ostrich.Interval.Index.{is_found, get_index-covers}
use ostrich.DeletionValue
use ostrich.DeletionValue.{DeletionValue}
use ostrich.PatchTreeIterator.Filtered.{filter}
use ostrich.Versions.{erase_equal, erase_from, erase_deleted}

abbrev pub among : ℕ → List ℕ → Bool
among v [] = false
among v (x ∷ l) = (x == v) || among v l

among-index_of : (k v : ℕ) (l : List ℕ) → is_found (index_of k v l) ≡ among v l
among-index_of k v [] = refl
among-index_of k v (x ∷ l) = ground (arith, among-index_of (k + 1) v l)

erase_equal-filter : (x : ℕ) (l : List ℕ) → erase_equal (pos x) l ≡ filter (λ v. not (x == v)) l
unfolding erase_equal
erase_equal-filter x [] = refl
erase_equal-filter x (v ∷ l) = ground (arith, erase_equal-filter x l)

-- Two filters in turn.
filter-filter :
    (x : ℕ) (rest l : List ℕ)
    → filter (λ v. not (among v rest)) (filter (λ v. not (x == v)) l)
      ≡ filter (λ v. not (among v (x ∷ rest))) l
filter-filter x rest [] = refl
filter-filter x rest (v ∷ l) = elim (Bool-cases (x == v)) [
  | inl same ↦ rw same (filter-filter x rest l)
  | inr other ↦ elim (Bool-cases (among v rest)) [
    | inl gone ↦ rw (other, gone) (filter-filter x rest l)
    | inr stays ↦ rw (other, stays) (ap (λ m. v ∷ m) (filter-filter x rest l))
  ]
]

filter-same : (p q : ℕ → Bool) (l : List ℕ) → All (λ v. p v ≡ q v) l → filter p l ≡ filter q l
filter-same p q [] h = refl
filter-same p q (v ∷ l) h = rw (h.0, filter-same p q l h.1) refl

-- The elements of a value can be read, each with the patch id of its place.
abbrev pub Reads : DeletionValue → ℕ → List ℕ → Type 0
Reads d i [] = Unit
Reads d i (x ∷ l) =
    ((e : DeletionValue.Element) × (DeletionValue.get_patch_at true (pos i) d ≡ some e)
      × (e.patch_id ≡ pos x))
    × Reads d (suc i) l

erase_from-filter :
    (i : ℕ) (d : DeletionValue) (ids versions : List ℕ)
    → Reads d i ids
    → erase_from (length ids) i d versions ≡ some (filter (λ v. not (among v ids)) versions)
unfolding erase_from
erase_from-filter i d [] versions r = ap some (sym (all_stay versions))
  where
    all_stay : (l : List ℕ) → filter (λ v. not (among v [])) l ≡ l
    all_stay [] = refl
    all_stay (v ∷ l) = ap (λ m. v ∷ m) (all_stay l)
erase_from-filter i d (x ∷ ids) versions ((e, run, id), r) =
    rw (run, id, erase_equal-filter x versions)
      (erase_from-filter (suc i) d ids (filter (λ v. not (x == v)) versions) r
        ∙ ap some (filter-filter x ids versions))

-- The patch ids of a value, as its size and its elements show them.
abbrev pub patch_ids : DeletionValue → List ℕ
patch_ids d = values d.elements.patches.max d.max_patch_id d.elements.patches.intervals

-- The versions that a value may be asked for.
abbrev pub AreBelow : ℕ → ℕ → List ℕ → Type 0
AreBelow outer max = All (λ v. (v < outer) × (v < max))

-- From the versions a triple might have, eraseDeletedVersions takes exactly those of which the deletion
-- value has the patch id, and keeps the others in their order, whenever the elements of the value can
-- be read and the versions lie below its two limits; the loop over the elements ends.
pub erase_deleted-covers :
    (d : DeletionValue) (versions : List ℕ)
    → Reaches d.elements.patches.max d.max_patch_id d.elements.patches.intervals
    → Reads d 0 (patch_ids d)
    → AreBelow d.max_patch_id d.elements.patches.max versions
    → erase_deleted (some d) versions
      ≡ some (filter (λ v. not (covers v d.elements.patches.intervals)) versions)
unfolding erase_deleted DeletionValue.get_size
erase_deleted-covers d versions reach reads below =
    rw ((virtual_vector d.max_patch_id 0 0 d.elements.patches reach).0) (
      erase_from-filter 0 d (patch_ids d) versions reads
      ∙ ap some (filter-same _ _ versions (agree versions below)))
  where
    agree :
        (l : List ℕ)
        → AreBelow d.max_patch_id d.elements.patches.max l
        → All (λ v. not (among v (patch_ids d)) ≡ not (covers v d.elements.patches.intervals)) l
    agree [] b = tt
    agree (v ∷ l) b = (
      ap not (
          sym (among-index_of 0 v (patch_ids d))
          ∙ ap is_found (sym (virtual_vector d.max_patch_id v 0 d.elements.patches reach).1)
          ∙ get_index-covers d.max_patch_id v d.elements.patches reach b.0.0 b.0.1),
      agree l b.1,
    )
