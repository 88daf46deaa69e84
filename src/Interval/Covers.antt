-- ===== src/Interval/Covers.antt =====
-- The set of patch ids that an interval list stands for, and how it splits at a position.
use ostrich.Base.{
  ℕ, ◌+◌, ◌<◌, ◌≤◌, ◌≡◌, refl, Bool, true, false, ◌||◌, ◌&&◌, List, [], ◌∷◌, arith, ltb, leb,
}
use ostrich.Ordered.{rewind}
use ostrich.Ordered.Split.{StartsFrom}
use ostrich.Interval.{Interval, holds}
use ostrich.Interval.Shape.{Chained, ChainedBack, top}

abbrev pub covers : ℕ → List Interval → Bool
covers y [] = false
covers y (i ∷ m) = holds y i || covers y m

-- An interval starts above `x` and not above `y`.
abbrev pub starts_between : ℕ → ℕ → List Interval → Bool
starts_between x y [] = false
starts_between x y (i ∷ m) = (ltb x i.0 && leb i.0 y) || starts_between x y m

pub covers-rewind :
    (y : ℕ) (before after : List Interval)
    → covers y (rewind before after) ≡ (covers y before || covers y after)
covers-rewind y [] after = refl
covers-rewind y (i ∷ before) after = ground (arith, covers-rewind y before (i ∷ after))

pub starts_between-rewind :
    (x y : ℕ) (before after : List Interval)
    → starts_between x y (rewind before after)
      ≡ (starts_between x y before || starts_between x y after)
starts_between-rewind x y [] after = refl
starts_between-rewind x y (i ∷ before) after =
    ground (arith, starts_between-rewind x y before (i ∷ after))

-- Nothing lies in front of a chain, and nothing behind the intervals before a position.
pub covers-below :
    (max low y : ℕ) (m : List Interval) → Chained max low m → y < low → covers y m ≡ false
covers-below max low y [] h k = refl
covers-below max low y ((start, end) ∷ m) h k = ground (arith, covers-below max end y m)

pub covers-above :
    (max y : ℕ) (before : List Interval)
    → ChainedBack max before
    → top before ≤ y
    → covers y before ≡ false
covers-above max y [] h k = refl
covers-above max y ((start, end) ∷ before) h k = ground (arith, covers-above max y before)

pub starts_between-below :
    (max low x y : ℕ) (m : List Interval)
    → Chained max low m
    → y < low
    → starts_between x y m ≡ false
starts_between-below max low x y [] h k = refl
starts_between-below max low x y ((start, end) ∷ m) h k =
    ground (arith, starts_between-below max end x y m)

pub starts_between-above :
    (max x y : ℕ) (before : List Interval)
    → ChainedBack max before
    → top before ≤ x
    → starts_between x y before ≡ false
starts_between-above max x y [] h k = refl
starts_between-above max x y ((start, end) ∷ before) h k =
    ground (arith, starts_between-above max x y before)

-- What a chain covers, it covers from a start on.
pub starts_between-covers :
    (max low x y : ℕ) (m : List Interval)
    → Chained max low m
    → x < low
    → covers y m ≡ true
    → starts_between x y m ≡ true
starts_between-covers max low x y [] h k c = cc
starts_between-covers max low x y ((start, end) ∷ m) h k c =
    ground (arith, starts_between-covers max end x y m)

pub covers-StartsFrom :
    (max low x : ℕ) (m : List Interval)
    → Chained max low m
    → StartsFrom (x + 1) m
    → covers x m ≡ false
covers-StartsFrom max low x [] h k = refl
covers-StartsFrom max low x ((start, end) ∷ m) h k = ground (arith, covers-below max end x m)
