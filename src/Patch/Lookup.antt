-- ===== src/Patch/Lookup.antt =====
-- What the look-ups of a sorted patch find.
use ostrich.Base.{
  ℕ, ◌+◌, ◌≡◌, refl, Bool, true, false, not, ◌&&◌, Option, none, some, List, [], ◌∷◌,
}
use ostrich.Base.{arith, ◌==◌, ltb, if◌then◌else◌, Bool-cases, inl, inr, get_elem?}
use mathlib.Core.Path.{subst}
use ostrich.Base.{◌<◌}
use ostrich.Base.Int.{ℤ, pos, negsuc}
use ostrich.Triple.{Triple, PatchElement}
use ostrich.Delta.{differ}
use ostrich.Delta.Merge.{Sorted, at_rank, at_rank-below}
use ostrich.Comparator.Keys.{KeyRanks}
use ostrich.Patch.{
  is_less, from_bound, position_of, index_of_triple, get, same_element, starts_with, element_of,
}
use ostrich.Patch.Sorted.{element_rank, is_less-rank, equals-rank}

abbrev pub first : List PatchElement → Option PatchElement
first [] = none
first (x ∷ l) = some x

module _ (compare : Triple → Triple → ℤ) (k : KeyRanks compare) where
  -- An element if it has the rank.
  abbrev at_only : ℕ → Option PatchElement → Option PatchElement
  at_only r none = none
  at_only r (some x) = if element_rank compare k x == r then some x else none

  bound-first :
      (low : ℕ) (e : PatchElement) (l : List PatchElement)
      → 0 < low
      → 0 < element_rank compare k e
      → Sorted (element_rank compare k) low l
      → (get_elem? l (position_of compare e l) ≡ first (from_bound compare e l))
        × (at_rank (element_rank compare k) (element_rank compare k e) l
            ≡ at_only (element_rank compare k e) (first (from_bound compare e l)))
  unfolding position_of from_bound
  bound-first low e [] p q s = (refl, refl)
  bound-first low e (x ∷ l) p q s =
      let (g, a) = bound-first (element_rank compare k x + 1) e l (omega arith) q s.1 in
      elim (Bool-cases (ltb (element_rank compare k x) (element_rank compare k e))) [
        | inl h ↦ rw (is_less-rank compare k x e (omega arith) q, h) (g, ground (arith, a))
        | inr h ↦
            rw (is_less-rank compare k x e (omega arith) q, h)
              (
                refl,
                ground (
                  arith,
                  at_rank-below (element_rank compare k) (element_rank compare k e)
                      (element_rank compare k x + 1) l s.1,
                ),
              )
      ]

  -- What `index_of_triple` finds: nothing, or the place of the element.
  abbrev pub IndexOf : List PatchElement → Option PatchElement → ℤ → Type 0
  IndexOf l none z = z ≡ negsuc 0
  IndexOf l (some x) z = (i : ℕ) × (z ≡ pos i) × (get (pos i) l ≡ some x)

  -- The bound of a triple does not depend on the type of the element.
  bound-type :
      (t : Triple) (l : List PatchElement)
      → (from_bound compare (element_of t true) l ≡ from_bound compare (element_of t false) l)
        × (position_of compare (element_of t true) l ≡ position_of compare (element_of t false) l)
  unfolding from_bound position_of is_less
  bound-type t [] = (refl, refl)
  bound-type t (x ∷ l) = let (f, p) = bound-type t l in (rw f refl, rw p refl)

  either_type : Triple → List PatchElement → ℕ → ℤ
  either_type t m p =
      if starts_with (element_of t false) m
      then pos p
      else (if starts_with (element_of t true) m then pos p else negsuc 0)

  either_type-IndexOf :
      (t : Triple) (l m : List PatchElement) (p : ℕ)
      → 0 < k.rank t
      → ((x : PatchElement) → first m ≡ some x → 0 < element_rank compare k x)
      → get_elem? l p ≡ first m
      → IndexOf l (at_only (k.rank t) (first m)) (either_type t m p)
  unfolding either_type same_element get
  either_type-IndexOf t l [] p q r g = refl
  either_type-IndexOf t l (x ∷ m) p q r g =
      elim (Bool-cases (element_rank compare k x == k.rank t)) [
        | inl e ↦
            rw (equals-rank compare k x (element_of t false) (r x refl) q, e)
              (p, any_type x.is_addition, g)
        | inr e ↦ rw (equals-rank compare k x (element_of t false) (r x refl) q, e) refl
      ]
    where
      any_type :
          (b : Bool)
          → (if true && not (differ b false)
              then pos p
              else (if true && not (differ b true) then pos p else negsuc 0))
            ≡ pos p
      any_type true = refl
      any_type false = refl

  positive-first :
      (low : ℕ) (e : PatchElement) (l : List PatchElement)
      → 0 < low
      → Sorted (element_rank compare k) low l
      → (x : PatchElement) → first (from_bound compare e l) ≡ some x
      → 0 < element_rank compare k x
  unfolding from_bound
  positive-first low e [] p s x h = cc
  positive-first low e (y ∷ l) p s x h = elim (Bool-cases (is_less compare y e)) [
    | inl less ↦
        positive-first (element_rank compare k y + 1) e l (omega arith) s.1 x
          (subst (λ b. first (if b then from_bound compare e l else y ∷ l) ≡ some x) less h)
    | inr more ↦
        subst (λ z. 0 < element_rank compare k z)
          (same_one
            (subst (λ b. first (if b then from_bound compare e l else y ∷ l) ≡ some x) more h))
          (omega arith)
  ]
    where
      same_one : some y ≡ some x → y ≡ x
      same_one e = cc

  -- In a sorted patch of keys `index_of_triple` finds the element with the triple, whatever its type, at the
  -- index that it returns, and returns -1 where there is none.
  pub index_of_triple-IndexOf :
      (low : ℕ) (t : Triple) (l : List PatchElement)
      → 0 < low
      → 0 < k.rank t
      → Sorted (element_rank compare k) low l
      → IndexOf l (at_rank (element_rank compare k) (k.rank t) l) (index_of_triple compare t l)
  unfolding index_of_triple either_type
  index_of_triple-IndexOf low t l p' q s =
      let (f, p) = bound-type t l in
      let (g, a) = bound-first low (element_of t false) l p' q s in
      rw (f, p, a)
        (either_type-IndexOf t l (from_bound compare (element_of t false) l)
          (position_of compare (element_of t false) l) q
          (positive-first low (element_of t false) l p' s) g)
