-- ===== src/PatchTree/Chosen.antt =====
-- Which branch a round takes, by the ranks of the current triples.
use ostrich.Base.{◌≡◌, ◌<◌, refl, Bool, true, false, Option, none, some}
use ostrich.Base.{arith, ◌⊎◌, inl, inr, ◌&&◌, if◌then◌else◌}
use ostrich.Base.Int.{ℤ, pos, negsuc}
use Prim.Native.Nat.{zero, suc}
use ostrich.Triple.{Triple}
use ostrich.Delta.{is_zero, is_negative}
use ostrich.Comparator.Keys.{KeyRanks}
use ostrich.PatchTree.Visits.{
  is_positive, is_lt, is_eq, is_gt, choose, on_deletion, on_addition, on_patch, on_patch_deletion,
  on_patch_addition, on_both,
}

Sign : ℤ → Type 0
Sign z =
    ((is_zero z ≡ true) × (is_negative z ≡ false) × (is_positive z ≡ false))
    ⊎ ((is_zero z ≡ false) × (is_negative z ≡ true) × (is_positive z ≡ false))
    ⊎ ((is_zero z ≡ false) × (is_negative z ≡ false) × (is_positive z ≡ true))

sign : (z : ℤ) → Sign z
unfolding Sign
sign (pos zero) = inl (refl, refl, refl)
sign (pos (suc n)) = inr (inr (refl, refl, refl))
sign (negsuc n) = inr (inl (refl, refl, refl))

module _ (compare : Triple → Triple → ℤ) (k : KeyRanks compare) where
  -- The first of two current triples, which are keys, comes before the second, which may have ended; they are equal.
  abbrev pub Before : Option Triple → Option Triple → Type 0
  Before none y = ⊥
  Before (some x) none = Unit
  Before (some x) (some y) = (0 < k.rank x) × (k.rank x < k.rank y)

  abbrev pub Same : Option Triple → Option Triple → Type 0
  Same none y = ⊥
  Same (some x) none = ⊥
  Same (some x) (some y) = (0 < k.rank x) × (k.rank x ≡ k.rank y)

  Tests : Bool → Bool → Bool → Option Triple → Option Triple → Type 0
  Tests lt eq gt x y =
      (is_lt compare x y ≡ lt) × (is_eq compare x y ≡ eq) × (is_gt compare x y ≡ gt)

  before : (x y : Option Triple) → Before x y → Tests true false false x y
  unfolding Tests Sign
  before none y h = absurd h
  before (some x) none h = (refl, refl, refl)
  before (some x) (some y) h = elim (sign (compare x y)) [
    | inl (z, n, p) ↦ ground (
      arith,
      k.zero_law x y (omega arith) (omega arith),
      k.negative_law x y (omega arith) (omega arith),
    )
    | inr (inl (z, n, p)) ↦ (n, z, p)
    | inr (inr (z, n, p)) ↦ ground (
      arith,
      k.zero_law x y (omega arith) (omega arith),
      k.negative_law x y (omega arith) (omega arith),
    )
  ]

  same : (x y : Option Triple) → Same x y → Tests false true false x y
  unfolding Tests Sign
  same none y h = absurd h
  same (some x) none h = absurd h
  same (some x) (some y) h = elim (sign (compare x y)) [
    | inl (z, n, p) ↦ (n, z, p)
    | inr (inl (z, n, p)) ↦ ground (
      arith,
      k.zero_law x y (omega arith) (omega arith),
      k.negative_law x y (omega arith) (omega arith),
    )
    | inr (inr (z, n, p)) ↦ ground (
      arith,
      k.zero_law x y (omega arith) (omega arith),
      k.negative_law x y (omega arith) (omega arith),
    )
  ]

  behind : (x y : Option Triple) → Before y x → Tests false false true x y
  unfolding Tests Sign
  behind none none h = absurd h
  behind none (some y) h = (refl, refl, refl)
  behind (some x) none h = absurd h
  behind (some x) (some y) h = elim (sign (compare x y)) [
    | inl (z, n, p) ↦ ground (
      arith,
      k.zero_law x y (omega arith) (omega arith),
      k.negative_law x y (omega arith) (omega arith),
    )
    | inr (inl (z, n, p)) ↦ ground (
      arith,
      k.zero_law x y (omega arith) (omega arith),
      k.negative_law x y (omega arith) (omega arith),
    )
    | inr (inr (z, n, p)) ↦ (n, z, p)
  ]

  module _ (p d a : Option Triple) where
    pub choose-on_patch : Before p d → Before p a → choose compare p d a ≡ on_patch
    unfolding choose Tests
    choose-on_patch h h' =
        let x = before p d h in let y = before p a h' in rw (x.2, y.2, y.0, x.0) refl

    pub choose-on_deletion : Before d p → Before d a → choose compare p d a ≡ on_deletion
    unfolding choose Tests
    choose-on_deletion h h' = let x = behind p d h in let y = before d a h' in rw (x.2, y.0) refl

    pub choose-on_addition : Before a p → Before a d → choose compare p d a ≡ on_addition
    unfolding choose Tests
    choose-on_addition h h' =
        let x = behind p a h in
        let y = behind d a h' in rw (y.0, x.2, y.2) (first (is_gt compare p d))
      where
        first : (b : Bool) → (if b && false then on_deletion else on_addition) ≡ on_addition
        first true = refl
        first false = refl

    pub choose-on_patch_deletion : Same p d → Before p a → choose compare p d a ≡ on_patch_deletion
    unfolding choose Tests
    choose-on_patch_deletion h h' =
        let x = same p d h in let y = before p a h' in rw (x.2, y.2, y.0, x.0, x.1) refl

    pub choose-on_patch_addition : Same p a → Before p d → choose compare p d a ≡ on_patch_addition
    unfolding choose Tests
    choose-on_patch_addition h h' =
        let x = same p a h in let y = before p d h' in rw (y.2, x.2, x.0, y.1, x.1, y.0) refl

    pub choose-on_both : Same p d → Same p a → choose compare p d a ≡ on_both true
    unfolding choose Tests
    choose-on_both h h' =
        let x = same p d h in let y = same p a h' in rw (x.2, y.2, y.0, x.1, y.1, x.0) refl

    pub choose-on_equal : Before d p → Before a p → Same d a → choose compare p d a ≡ on_both false
    unfolding choose Tests
    choose-on_equal h h' e =
        let x = behind p d h in
        let y = behind p a h' in let z = same d a e in rw (x.2, z.0, y.2, z.2, y.0, x.1, y.1) refl
