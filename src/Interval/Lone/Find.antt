-- ===== src/Interval/Lone/Find.antt =====
-- What the look-up of `lone_addition` finds, and what its bound leaves around a new interval.
use ostrich.Base.{ℕ, ◌+◌, ◌≡◌, ◌<◌, ◌≤◌, refl, ◌||◌, Bool, true, false, some, List, [], ◌∷◌}
use ostrich.Base.{arith, ltb, ◌==◌, if◌then◌else◌, lt_or_le, inl, inr}
use ostrich.Ordered.{rewind, assign}
use ostrich.Ordered.Split.{Below, StartsFrom, assign_new-at}
use ostrich.Interval.{Interval, interval_at}
use ostrich.Interval.Shape.{Chained, ChainedBack, Chained-split, CanSeek, top}
use ostrich.Interval.Shape.{Chained-ahead}
use ostrich.Interval.Covers.{covers, covers-StartsFrom, covers-rewind, covers-above}

-- An interval ends at `x`, so that `x` is the first patch id behind it.
abbrev pub ends_at : ℕ → List Interval → Bool
ends_at x [] = false
ends_at x (i ∷ m) = i.1 == x || ends_at x m

pub ends_at-rewind :
    (x : ℕ) (before after : List Interval)
    → ends_at x (rewind before after) ≡ (ends_at x before || ends_at x after)
ends_at-rewind x [] after = refl
ends_at-rewind x (i ∷ before) after = ground (arith, ends_at-rewind x before (i ∷ after))

pub ends_at-above :
    (max x : ℕ) (before : List Interval)
    → ChainedBack max before
    → top before < x
    → ends_at x before ≡ false
ends_at-above max x [] h k = refl
ends_at-above max x ((start, end) ∷ before) h k = ground (arith, ends_at-above max x before)

pub ends_at-below :
    (max low x : ℕ) (m : List Interval) → Chained max low m → x ≤ low → ends_at x m ≡ false
ends_at-below max low x [] h k = refl
ends_at-below max low x ((start, end) ∷ m) h k = ground (arith, ends_at-below max end x m)

pub ends_at-StartsFrom :
    (max low x : ℕ) (m : List Interval)
    → Chained max low m
    → StartsFrom (x + 1) m
    → ends_at x m ≡ false
ends_at-StartsFrom max low x [] h k = refl
ends_at-StartsFrom max low x ((start, end) ∷ m) h k = ground (arith, ends_at-below max end x m)

-- The interval that holds `x` or ends at it, else `(max, max)`.
abbrev pub Found : ℕ → ℕ → List Interval → Interval → Type 0
Found max x m i =
    if covers x m || ends_at x m
    then (i.0 < i.1) × (i.1 ≤ max) × (i.0 ≤ x) × (x ≤ i.1)
    else (i ≡ (max, max))

pub or_true : (a b : Bool) → a ≡ true → (a || b) ≡ false → ⊥
or_true a b h k = ground arith

pub ruleset splits = (covers-rewind, ends_at-rewind)

abbrev pub Finds : ℕ → ℕ → List Interval → List Interval → List Interval → Type 0
Finds max x m after before =
    (i : Interval) × (interval_at max x after before ≡ some i) × Found max x m i

module _ (max x : ℕ) where
  pub finds_before :
      (start end : ℕ) (before after : List Interval)
      → start < x
      → ChainedBack max ((start, end) ∷ before)
      → Chained max end after
      → StartsFrom (x + 1) after
      → Found max x
          (rewind before ((start, end) ∷ after))
          (if ltb end x then (max, max) else (start, end))
  finds_before start end before after k b a u = simp splits (
      ground (
        arith,
        covers-above max x before,
        ends_at-above max x before,
        covers-StartsFrom max end x after a u,
        ends_at-StartsFrom max end x after a u,
      ))

  pub holds_here :
      (f o : ℕ) (before after : List Interval)
      → f ≤ x
      → x < o
      → covers x (rewind before ((f, o) ∷ after)) ≡ true
  holds_here f o before after h k = rw (covers-rewind x before ((f, o) ∷ after)) (ground arith)

  pub hit_here :
      (f o : ℕ) (before after : List Interval)
      → x ≡ f
      → x < o
      → o ≤ max
      → Found max x (rewind before ((f, o) ∷ after)) (f, o)
  hit_here f o before after e h k = rw (holds_here f o before after (omega arith) h) (omega arith)

  pub finds :
      (before after : List Interval)
      → Below x before
      → StartsFrom x after
      → ChainedBack max before
      → Chained max (top before) after
      → CanSeek x (rewind before after)
      → Finds max x (rewind before after) after before
  unfolding interval_at
  finds [] [] k u b a c = ((max, max), refl, refl)
  finds ((start, end) ∷ before) [] k u b a c =
      (_, ground arith, finds_before start end before [] k.0 b tt tt)
  finds [] ((f, o) ∷ after) k u b a c = ((f, o), ground arith, ground arith)
  finds ((start, end) ∷ before) ((f, o) ∷ after) k u b a c = elim (lt_or_le x f) [
    | inl lt ↦
        (_, ground arith, finds_before start end before ((f, o) ∷ after) k.0 b a (omega arith))
    | inr ge ↦ (
      (f, o),
      ground arith,
      hit_here f o ((start, end) ∷ before) after (omega arith) (omega arith) a.2,
    )
  ]

  -- A single patch id in the gap at a position.
  abbrev pub Fits : List Interval → Type 0
  Fits m =
      (covers x m || ends_at x m) ≡ false
      → Chained max 0 (assign x (x + 1) m)
        × ((y : ℕ) → covers y (assign x (x + 1) m) ≡ (covers y m || y == x))

  pub fits_gap :
      (before after : List Interval)
      → Below x before
      → ChainedBack max before
      → Chained max (top before) after
      → top before ≤ x
      → StartsFrom (x + 1) after
      → x < max
      → Chained max 0 (assign x (x + 1) (rewind before after))
        × ((y : ℕ)
            → covers y (assign x (x + 1) (rewind before after))
              ≡ (covers y (rewind before after) || y == x))
  fits_gap before after k b a t u h = rw (assign_new-at x (x + 1) before after k u) (
    Chained-split max before ((x, x + 1) ∷ after) b
        (t, omega arith, omega arith, Chained-ahead max (top before) (x + 1) after u a),
    λ y. simp splits (ground arith),
  )

  pub ends_before :
      (start end : ℕ) (before after : List Interval)
      → Below x ((start, end) ∷ before)
      → ChainedBack max ((start, end) ∷ before)
      → (covers x (rewind before ((start, end) ∷ after))
          || ends_at x (rewind before ((start, end) ∷ after)))
        ≡ false
      → end ≤ x
  ends_before start end before after k b n = elim (lt_or_le x end) [
    | inl lt ↦ absurd (or_true _ _ (holds_here start end before after (omega arith) lt) n)
    | inr ge ↦ ge
  ]

  pub fits :
      (before after : List Interval)
      → Below x before
      → StartsFrom x after
      → ChainedBack max before
      → Chained max (top before) after
      → CanSeek x (rewind before after)
      → x < max
      → Fits (rewind before after)
  fits [] [] k u b a c h n = fits_gap [] [] tt tt tt (omega arith) tt h
  fits ((start, end) ∷ before) [] k u b a c h n =
      fits_gap ((start, end) ∷ before) [] k b a (ends_before start end before [] k b n) tt h
  fits [] ((f, o) ∷ after) k u b a c h n =
      absurd (or_true _ _ (holds_here f o [] after (omega arith) (omega arith)) n)
  fits ((start, end) ∷ before) ((f, o) ∷ after) k u b a c h n = elim (lt_or_le x f) [
    | inl lt ↦
        fits_gap ((start, end) ∷ before) ((f, o) ∷ after) k b a
          (ends_before start end before ((f, o) ∷ after) k b n) (omega arith) h
    | inr ge ↦
        absurd
          (or_true _ _ (holds_here f o ((start, end) ∷ before) after (omega arith) (omega arith)) n)
  ]

-- What `lone_addition` makes of a list: the one patch id more, unless it is in the set or follows the
-- last patch id of an interval.
