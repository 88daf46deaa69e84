-- ===== src/Interval/Deletion.antt =====
-- `deletion` against the set that the list stands for.
use ostrich.Base.{
  ℕ, ◌≡◌, ◌<◌, ◌≤◌, refl, ap, ◌∙◌, ◌&&◌, not, Bool, true, false, some, List, [], ◌∷◌,
}
use ostrich.Base.{arith, leb, compare-cases, lt_or_le, Bool-cases, inl, inr, ◌+◌}
use ostrich.Ordered.{rewind, assign, erase, is_empty}
use ostrich.Ordered.Split.{Below, StartsFrom, assign-at, erase-at}
use ostrich.Interval.{Interval, IntervalList, deletion, delete_at, cut, with_intervals}
use ostrich.Interval.Shape.{
  Chained, ChainedBack, Chained-split, IsValid, CanSeek, top, at_lower_bound,
}
use ostrich.Interval.Shape.{ChainedBack-Below, Chained-weaken}
use ostrich.Interval.Covers.{
  covers, covers-StartsFrom, covers-rewind, covers-below, covers-above, starts_between,
}
use ostrich.Interval.Covers.{
  starts_between-covers, starts_between-rewind, starts_between-below, starts_between-above,
}

-- `x` and the patch ids after it in its interval.
abbrev pub leaves : ℕ → List Interval → ℕ → Bool
leaves x m y = covers x m && (leb x y && not (starts_between x y m))

abbrev pub Deleted : ℕ → ℕ → List Interval → List Interval × Bool → Type 0
Deleted max x m (m', changed) =
    Chained max 0 m'
    × ((y : ℕ) → covers y m' ≡ (covers y m && not (leaves x m y)))
    × (changed ≡ covers x m)
    × ((y : ℕ) → (starts_between x y m' && not (starts_between x y m)) ≡ false)

cut_inside :
    (x start end : ℕ) (m : List Interval)
    → start < x
    → x < end
    → cut x m (start, end) ≡ (assign start x m, true)
unfolding cut
cut_inside x start end m h k = ground arith

cut_here : (x end : ℕ) (m : List Interval) → x < end → cut x m (x, end) ≡ (erase x m, true)
unfolding cut
cut_here x end m h = ground arith

cut_outside : (x start end : ℕ) (m : List Interval) → end ≤ x → cut x m (start, end) ≡ (m, false)
unfolding cut
cut_outside x start end m h = ground arith

covers-empty : (x : ℕ) (m : List Interval) → is_empty m ≡ true → covers x m ≡ false
covers-empty x [] e = refl
covers-empty x (i ∷ m) e = cc

ruleset splits = (covers-rewind, starts_between-rewind)

abbrev Deletes : ℕ → ℕ → List Interval → List Interval → List Interval → Type 0
Deletes max x m after before =
    is_empty m ≡ false
    → (r : List Interval × Bool) × (delete_at x after before m ≡ some r) × Deleted max x m r

module _ (max x : ℕ) where
  shortened :
      (start end : ℕ) (before after : List Interval)
      → start < x
      → x < end
      → ChainedBack max ((start, end) ∷ before)
      → Chained max end after
      → Deleted max x
          (rewind before ((start, end) ∷ after))
          (rewind before ((start, x) ∷ after), true)
  shortened start end before after k h b a = (
    Chained-split max before ((start, x) ∷ after) b.3
        (b.0, k, omega arith, Chained-weaken max x end after (omega arith) a),
    λ y. simp splits (
        ground (
          arith,
          covers-above max x before,
          covers-above max y before,
          covers-below max end x after,
          covers-below max end y after,
          starts_between-above max x y before,
          starts_between-below max end x y after,
          starts_between-covers max end x y after,
        )),
    simp splits (ground (arith, covers-above max x before, covers-below max end x after)),
    λ y. simp splits (ground arith),
  )

  erased :
      (end : ℕ) (before after : List Interval)
      → ChainedBack max before
      → Chained max (top before) ((x, end) ∷ after)
      → Deleted max x (rewind before ((x, end) ∷ after)) (rewind before after, true)
  erased end before after b a = (
    Chained-split max before after b (Chained-weaken max (top before) end after (omega arith) a.3),
    λ y. simp splits (
        ground (
          arith,
          covers-above max x before,
          covers-above max y before,
          covers-below max end x after,
          covers-below max end y after,
          starts_between-above max x y before,
          starts_between-below max end x y after,
          starts_between-covers max end x y after,
        )),
    simp splits (ground (arith, covers-above max x before, covers-below max end x after)),
    λ y. simp splits (ground arith),
  )

  kept : (m : List Interval) → Chained max 0 m → covers x m ≡ false → Deleted max x m (m, false)
  kept m v h = (v, λ y. ground arith, ground arith, λ y. ground arith)

  deletes_inside :
      (start end : ℕ) (before after : List Interval)
      → start < x
      → ChainedBack max ((start, end) ∷ before)
      → Chained max end after
      → StartsFrom (x + 1) after
      → (r : List Interval × Bool) × (cut x (rewind before ((start, end) ∷ after)) (start, end) ≡ r)
        × Deleted max x (rewind before ((start, end) ∷ after)) r
  deletes_inside start end before after k b a u = elim (lt_or_le x end) [
    | inl lt ↦ (
      (rewind before ((start, x) ∷ after), true),
      cut_inside x start end _ k lt
          ∙ ap (λ m. (m, true))
              (assign-at start x end before after (ChainedBack-Below max start before b.3 b.0)),
      shortened start end before after k lt b a,
    )
    | inr ge ↦ (
      (rewind before ((start, end) ∷ after), false),
      cut_outside x start end _ ge,
      kept _ (Chained-split max before ((start, end) ∷ after) b.3 (b.0, b.1, b.2, a)) (
          simp splits
            (ground (arith, covers-above max x before, covers-StartsFrom max end x after a u))),
    )
  ]

  deletes_here :
      (end : ℕ) (before after : List Interval)
      → Below x before
      → ChainedBack max before
      → Chained max (top before) ((x, end) ∷ after)
      → (r : List Interval × Bool) × (cut x (rewind before ((x, end) ∷ after)) (x, end) ≡ r)
        × Deleted max x (rewind before ((x, end) ∷ after)) r
  deletes_here end before after k b a = (
    (rewind before after, true),
    cut_here x end _ a.1 ∙ ap (λ m. (m, true)) (erase-at x end before after k),
    erased end before after b a,
  )

  deletes :
      (before after : List Interval)
      → Below x before
      → StartsFrom x after
      → ChainedBack max before
      → Chained max (top before) after
      → CanSeek x (rewind before after)
      → Deletes max x (rewind before after) after before
  unfolding delete_at
  deletes [] [] k u b a c n = cc
  deletes ((start, end) ∷ before) [] k u b a c n =
      let (r, e, d) = deletes_inside start end before [] k.0 b tt tt in (r, ap some e, d)
  deletes [] ((f, o) ∷ after) k u b a c n =
      let same : f ≡ x = omega arith in
      let (r, e, d) = deletes_here o [] after k tt (rw same at a) in (r, ground arith, rw same d)
  deletes ((start, end) ∷ before) ((f, o) ∷ after) k u b a c n = elim (compare-cases x f) [
    | inl lt ↦
        let (r, e, d) = deletes_inside start end before ((f, o) ∷ after) k.0 b a (omega arith) in
        (r, ground arith, d)
    | inr (inl eq) ↦
        let (r, e, d) = deletes_here o ((start, end) ∷ before) after k b (rw (← eq) at a) in
        (r, ground arith, rw (← eq) d)
    | inr (inr gt) ↦ absurd (omega arith)
  ]

-- `deletion` always finishes where it may seek: the list stays valid, the set loses the patch id and
-- all that follow it in its interval, and nothing else; the result says that the list changed exactly
-- if the patch id was in it; and no interval starts above the patch id where none did.
pub deletion-Deleted :
    (x : ℕ) (l : IntervalList)
    → IsValid l
    → CanSeek x l.intervals
    → (r : IntervalList × Bool) × (deletion x l ≡ some r)
      × (r.0.max ≡ l.max)
      × Deleted l.max x l.intervals (r.0.intervals, r.1)
unfolding deletion
deletion-Deleted x l v c = elim (Bool-cases (is_empty l.intervals)) [
  | inl e ↦ ((l, false), rw e, refl, kept l.max x _ v (covers-empty x _ e))
  | inr e ↦
      let (r, f, d) =
        at_lower_bound (Deletes l.max x) l.max x l.intervals (deletes l.max x) v c e in
      (with_intervals l r, rw (e, f), refl, d)
]
