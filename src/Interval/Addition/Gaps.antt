-- ===== src/Interval/Addition/Gaps.antt =====
-- The two ways in which `addition` changes the intervals around its bound: a new one, a longer one.
use ostrich.Base.{ℕ, ◌≡◌, ◌<◌, ◌≤◌, ap, ◌∙◌, ◌||◌, ◌&&◌, not, Bool, true, false, List, [], ◌∷◌}
use ostrich.Base.{arith, leb, ltb}
use ostrich.Ordered.{rewind, insert, erase}
use ostrich.Ordered.Split.{Below, insert-at, erase-at}
use ostrich.Interval.{Interval}
use ostrich.Interval.Shape.{Chained, ChainedBack, Chained-split, top}
use ostrich.Interval.Shape.{Chained-StartsFrom_next}
use ostrich.Interval.Covers.{covers, covers-rewind, covers-below, covers-above, starts_between}
use ostrich.Interval.Covers.{starts_between-rewind, starts_between-below, starts_between-above}

-- `x` and the patch ids after it up to the next interval, if `x` was not in the set.
abbrev pub joins : ℕ → ℕ → List Interval → ℕ → Bool
joins max x m y = not (covers x m) && (leb x y && (ltb y max && not (starts_between x y m)))

abbrev pub Added : ℕ → ℕ → List Interval → List Interval × Bool → Type 0
Added max x m (m', changed) =
    Chained max 0 m'
    × ((y : ℕ) → covers y m' ≡ (covers y m || joins max x m y))
    × (changed ≡ not (covers x m))
    × ((y : ℕ) → (starts_between x y m' && not (starts_between x y m)) ≡ false)

pub ruleset splits = (covers-rewind, starts_between-rewind)

module _ (max x : ℕ) (x-lt : x < max) where
  -- No interval contains `x`, and none reaches it: a new one, up to the next.
  pub opened_end :
      (before : List Interval)
      → ChainedBack max before
      → top before ≤ x
      → Added max x (rewind before []) (rewind before ((x, max) ∷ []), true)
  opened_end before b t = (
    Chained-split max before ((x, max) ∷ []) b (omega arith),
    λ y.
        simp splits
          (ground (arith, covers-above max x before, starts_between-above max x y before)),
    simp splits (ground (arith, covers-above max x before)),
    λ y. simp splits (ground arith),
  )

  pub opened_gap :
      (before : List Interval) (f o : ℕ) (after : List Interval)
      → ChainedBack max before
      → Chained max (top before) ((f, o) ∷ after)
      → top before ≤ x
      → x < f
      → Added max x (rewind before ((f, o) ∷ after)) (rewind before ((x, o) ∷ after), true)
  opened_gap before f o after b a t k = (
    Chained-split max before ((x, o) ∷ after) b (omega arith, omega arith, a.2, a.3),
    λ y. simp splits (
        ground (
          arith,
          covers-above max x before,
          covers-below max o x after,
          covers-below max o y after,
          starts_between-above max x y before,
          starts_between-below max o x y after,
        )),
    simp splits (ground (arith, covers-above max x before, covers-below max o x after)),
    λ y. simp splits (ground arith),
  )

  -- An interval ends at `x`: it grows up to the next, and takes that in.
  pub grown_end :
      (start : ℕ) (before : List Interval)
      → ChainedBack max ((start, x) ∷ before)
      → Added max x (rewind before ((start, x) ∷ [])) (rewind before ((start, max) ∷ []), true)
  grown_end start before b = (
    Chained-split max before ((start, max) ∷ []) b.3 (omega arith, omega arith, omega arith, tt),
    λ y.
        simp splits
          (ground (arith, covers-above max x before, starts_between-above max x y before)),
    simp splits (ground (arith, covers-above max x before)),
    λ y. simp splits (ground arith),
  )

  pub grown_gap :
      (start : ℕ) (before : List Interval) (f o : ℕ) (after : List Interval)
      → ChainedBack max ((start, x) ∷ before)
      → Chained max x ((f, o) ∷ after)
      → x < f
      → Added max x
          (rewind before ((start, x) ∷ (f, o) ∷ after))
          (rewind before ((start, o) ∷ after), true)
  grown_gap start before f o after b a k = (
    Chained-split max before ((start, o) ∷ after) b.3 (omega arith, omega arith, a.2, a.3),
    λ y. simp splits (
        ground (
          arith,
          covers-above max x before,
          covers-below max o x after,
          covers-below max o y after,
          starts_between-above max x y before,
          starts_between-below max o x y after,
        )),
    simp splits (ground (arith, covers-above max x before, covers-below max o x after)),
    λ y. simp splits (ground arith),
  )

  -- `x` is in the set.
  pub kept : (m : List Interval) → Chained max 0 m → covers x m ≡ true → Added max x m (m, false)
  kept m v h = (v, λ y. ground arith, ground arith, λ y. ground arith)

-- The entry after a gap takes the place of the one that `fill` erases.
pub moved :
    (x v f o max : ℕ) (before after : List Interval)
    → Below x before
    → x < f
    → Below f before
    → Chained max o after
    → f < o
    → insert x v (erase f (rewind before ((f, o) ∷ after))) ≡ rewind before ((x, v) ∷ after)
moved x v f o max before after bx k bf a h =
    ap (insert x v) (erase-at f o before after bf)
    ∙ insert-at x v before after bx (Chained-StartsFrom_next max o x after (omega arith) a)
