-- ===== src/Delta/Iterators.antt =====
-- Every call of `next` of an iterator does a step of the merge that the iterator stands for.
use ostrich.Base.{◌≡◌, ◌<◌, refl, true, false, List, [], ◌∷◌}
use ostrich.Base.{arith, Bool-cases, compare-cases, ◌⊎◌, inl, inr}
use ostrich.Base.Int.{ℤ}
use ostrich.Delta.{Delta, is_zero, is_negative, differ}
use ostrich.Delta.{merge_next, case2_next}
use ostrich.Delta.{plain_next, snapshot_next, skip_common, emit_after}
use ostrich.Delta.Merge.{finished, rest1, rest2, first1, first2, joined}
use ostrich.Delta.Rules.{Ranks, merging, reverting, difference}
use ostrich.Delta.Steps.{Stepped, Stepped-dropped}

module _ {T : Type 0} (compare : T → T → ℤ) (k : Ranks compare) where
  pub Compared : T → T → Type 0
  Compared a b =
      ((is_zero (compare a b) ≡ true) × (k.rank a ≡ k.rank b))
      ⊎ ((is_zero (compare a b) ≡ false)
          × (is_negative (compare a b) ≡ true)
          × (k.rank a < k.rank b))
      ⊎ ((is_zero (compare a b) ≡ false)
          × (is_negative (compare a b) ≡ false)
          × (k.rank b < k.rank a))

  pub compared : (a b : T) → Compared a b
  unfolding Compared
  compared a b = elim (compare-cases (k.rank a) (k.rank b)) [
    | inl lt ↦ inr (inl (ground (arith, k.zero_law a b), ground (arith, k.negative_law a b), lt))
    | inr (inl eq) ↦ inl (ground (arith, k.zero_law a b), eq)
    | inr (inr gt) ↦
        inr (inr (ground (arith, k.zero_law a b), ground (arith, k.negative_law a b), gt))
  ]

  pub plain_next-Stepped :
      (l1 l2 : List T) → Stepped (difference compare k) l1 l2 (plain_next compare l1 l2)
  unfolding plain_next Compared
  plain_next-Stepped [] [] = finished
  plain_next-Stepped [] (b ∷ l2) = (omega arith, λ out g. rest2 g)
  plain_next-Stepped (a ∷ l1) [] = (omega arith, λ out g. rest1 g)
  plain_next-Stepped (a ∷ l1) (b ∷ l2) = elim (compared a b) [
    | inl (z, e) ↦
        rw z (Stepped-dropped (difference compare k) a b l1 l2 _ e refl (plain_next-Stepped l1 l2))
    | inr (inl (z, n, lt)) ↦ rw (z, n) (omega arith, λ out g. first1 lt g)
    | inr (inr (z, n, gt)) ↦ rw (z, n) (omega arith, λ out g. first2 gt g)
  ]

  pub merge_next-Stepped :
      (l1 l2 : List (Delta T)) → Stepped (merging compare k) l1 l2 (merge_next compare (l1, l2))
  unfolding merge_next Compared
  merge_next-Stepped [] [] = finished
  merge_next-Stepped [] (b ∷ l2) = (omega arith, λ out g. rest2 g)
  merge_next-Stepped (a ∷ l1) [] = (omega arith, λ out g. rest1 g)
  merge_next-Stepped (a ∷ l1) (b ∷ l2) = elim (compared a.item b.item) [
    | inl (z, e) ↦ elim (Bool-cases (differ a.addition b.addition)) [
      | inl d ↦
          rw (z, d)
            (Stepped-dropped (merging compare k) a b l1 l2 _ e (rw d) (merge_next-Stepped l1 l2))
      | inr d ↦ rw (z, d, z) (omega arith, λ out g. joined e (rw d) g)
    ]
    | inr (inl (z, n, lt)) ↦ rw (z, z, n) (omega arith, λ out g. first1 lt g)
    | inr (inr (z, n, gt)) ↦ rw (z, z, n) (omega arith, λ out g. first2 gt g)
  ]

  pub case2_next-Stepped :
      (l1 l2 : List (Delta T)) → Stepped (reverting compare k) l1 l2 (case2_next compare (l1, l2))
  unfolding case2_next Compared
  case2_next-Stepped [] [] = finished
  case2_next-Stepped [] (b ∷ l2) = (omega arith, λ out g. rest2 g)
  case2_next-Stepped (a ∷ l1) [] = (omega arith, λ out g. rest1 g)
  case2_next-Stepped (a ∷ l1) (b ∷ l2) = elim (compared a.item b.item) [
    | inl (z, e) ↦
        rw z (Stepped-dropped (reverting compare k) a b l1 l2 _ e refl (case2_next-Stepped l1 l2))
    | inr (inl (z, n, lt)) ↦ rw (z, n) (omega arith, λ out g. first1 lt g)
    | inr (inr (z, n, gt)) ↦ rw (z, n) (omega arith, λ out g. first2 gt g)
  ]

  skip_common-Stepped :
      (comp : ℤ) (l1 l2 : List T)
      → Stepped
          (difference compare k)
          l1
          l2
          (let (comp', (m1, m2)) = skip_common compare comp l1 l2 in emit_after compare comp' m1 m2)
  unfolding skip_common emit_after Compared
  skip_common-Stepped comp [] [] = finished
  skip_common-Stepped comp [] (b ∷ l2) = (omega arith, λ out g. rest2 g)
  skip_common-Stepped comp (a ∷ l1) [] = (omega arith, λ out g. rest1 g)
  skip_common-Stepped comp (a ∷ l1) (b ∷ l2) = elim (compared a b) [
    | inl (z, e) ↦ rw z (
        Stepped-dropped (difference compare k) a b l1 l2 _ e refl
          (skip_common-Stepped (compare a b) l1 l2))
    | inr (inl (z, n, lt)) ↦ rw (z, n) (omega arith, λ out g. first1 lt g)
    | inr (inr (z, n, gt)) ↦ rw (z, n, z) (omega arith, λ out g. first2 gt g)
  ]

  pub snapshot_next-Stepped :
      (l1 l2 : List T) → Stepped (difference compare k) l1 l2 (snapshot_next compare l1 l2)
  unfolding snapshot_next Compared
  snapshot_next-Stepped [] [] = finished
  snapshot_next-Stepped [] (b ∷ l2) = (omega arith, λ out g. rest2 g)
  snapshot_next-Stepped (a ∷ l1) [] = (omega arith, λ out g. rest1 g)
  snapshot_next-Stepped (a ∷ l1) (b ∷ l2) = elim (compared a b) [
    | inl (z, e) ↦ rw z (
        Stepped-dropped (difference compare k) a b l1 l2 _ e refl
          (skip_common-Stepped (compare a b) l1 l2))
    | inr (inl (z, n, lt)) ↦ rw (z, n) (omega arith, λ out g. first1 lt g)
    | inr (inr (z, n, gt)) ↦ rw (z, n) (omega arith, λ out g. first2 gt g)
  ]
