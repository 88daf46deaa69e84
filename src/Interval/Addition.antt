-- ===== src/Interval/Addition.antt =====
-- `addition` against the set that the list stands for.
pub mod Gaps
use ostrich.Base.{
  ℕ, ◌≡◌, ◌<◌, ◌≤◌, refl, ap, ◌∙◌, ◌||◌, ◌&&◌, not, Bool, true, false, some, List, [], ◌∷◌,
}
use ostrich.Base.{arith, leb, ltb, compare-cases, inl, inr}
use ostrich.Ordered.{rewind, insert, assign, erase}
use ostrich.Ordered.Split.{Below, StartsFrom, insert-at, assign-at, erase-at}
use ostrich.Interval.{Interval, IntervalList, addition, add_at, with_intervals}
use ostrich.Interval.Shape.{
  Chained, ChainedBack, Chained-split, IsValid, CanSeek, top, at_lower_bound,
}
use ostrich.Interval.Shape.{Chained-StartsFrom_next, ChainedBack-Below}
use ostrich.Interval.Covers.{covers, covers-rewind, covers-below, covers-above, starts_between}
use ostrich.Interval.Covers.{starts_between-rewind, starts_between-below, starts_between-above}
use ostrich.Interval.Addition.Gaps.{
  joins, Added, opened_end, opened_gap, grown_end, grown_gap, kept, moved, splits,
}

abbrev Adds : ℕ → ℕ → List Interval → List Interval → List Interval → Type 0
Adds max x m after before =
    (r : List Interval × Bool) × (add_at max x after before m ≡ some r) × Added max x m r

module _ (max x : ℕ) (x-lt : x < max) where
  adds_end :
      (start end : ℕ) (before : List Interval)
      → Below x ((start, end) ∷ before)
      → ChainedBack max ((start, end) ∷ before)
      → Adds max x (rewind before ((start, end) ∷ [])) [] ((start, end) ∷ before)
  unfolding add_at
  adds_end start end before k b = elim (compare-cases end x) [
    | inl lt ↦ (
      (rewind before ((start, end) ∷ (x, max) ∷ []), true),
      ground (arith, insert-at x max ((start, end) ∷ before) [] k tt),
      opened_end max x x-lt ((start, end) ∷ before) b (omega arith),
    )
    | inr (inl eq) ↦ (
      (rewind before ((start, max) ∷ []), true),
      ground
          (arith, assign-at start max end before [] (ChainedBack-Below max start before b.3 b.0)),
      rw eq (grown_end max x x-lt start before (rw eq at b)),
    )
    | inr (inr gt) ↦ (
      (rewind before ((start, end) ∷ []), false),
      ground arith,
      kept max x x-lt _ (Chained-split max before ((start, end) ∷ []) b.3 (b.0, b.1, b.2, tt))
          (simp splits (ground arith)),
    )
  ]

  adds_gap :
      (start end : ℕ) (before : List Interval) (f o : ℕ) (after : List Interval)
      → Below x ((start, end) ∷ before)
      → ChainedBack max ((start, end) ∷ before)
      → Chained max end ((f, o) ∷ after)
      → x < f
      → Adds max x
          (rewind before ((start, end) ∷ (f, o) ∷ after))
          ((f, o) ∷ after)
          ((start, end) ∷ before)
  unfolding add_at
  adds_gap start end before f o after k b a lf = elim (compare-cases end x) [
    | inl lt ↦ (
      (rewind before ((start, end) ∷ (x, o) ∷ after), true),
      ground (
        arith,
        moved x o f o max ((start, end) ∷ before) after k lf
            (ChainedBack-Below max f ((start, end) ∷ before) b a.0) a.3 a.1,
      ),
      opened_gap max x x-lt ((start, end) ∷ before) f o after b a (omega arith) lf,
    )
    | inr (inl eq) ↦ (
      (rewind before ((start, o) ∷ after), true),
      ground (
        arith,
        ap (assign start o) (
            erase-at f o ((start, end) ∷ before) after
              (ChainedBack-Below max f ((start, end) ∷ before) b a.0)),
        assign-at start o end before after (ChainedBack-Below max start before b.3 b.0),
      ),
      rw eq (grown_gap max x x-lt start before f o after (rw eq at b) (rw eq at a) lf),
    )
    | inr (inr gt) ↦ (
      (rewind before ((start, end) ∷ (f, o) ∷ after), false),
      ground arith,
      kept max x x-lt _
          (Chained-split max before ((start, end) ∷ (f, o) ∷ after) b.3 (b.0, b.1, b.2, a))
          (simp splits (ground arith)),
    )
  ]

  adds_here :
      (before : List Interval) (o : ℕ) (after : List Interval)
      → ChainedBack max before
      → Chained max (top before) ((x, o) ∷ after)
      → Adds max x (rewind before ((x, o) ∷ after)) ((x, o) ∷ after) before
  unfolding add_at
  adds_here before o after b a = (
    (rewind before ((x, o) ∷ after), false),
    ground arith,
    kept max x x-lt _ (Chained-split max before ((x, o) ∷ after) b a) (simp splits (ground arith)),
  )

  adds :
      (before after : List Interval)
      → Below x before
      → StartsFrom x after
      → ChainedBack max before
      → Chained max (top before) after
      → CanSeek x (rewind before after)
      → Adds max x (rewind before after) after before
  adds [] [] k u b a c = (
    ((x, max) ∷ [], true),
    unfold add_at insert in refl,
    opened_end max x x-lt [] tt (omega arith),
  )
  adds ((start, end) ∷ before) [] k u b a c = adds_end start end before k b
  adds [] ((f, o) ∷ after) k u b a c =
      let same : x ≡ f = omega arith in rw (← same) (adds_here [] o after tt (rw (← same) at a))
  adds ((start, end) ∷ before) ((f, o) ∷ after) k u b a c = elim (compare-cases x f) [
    | inl lt ↦ adds_gap start end before f o after k b a lt
    | inr (inl eq) ↦ rw (← eq) (adds_here ((start, end) ∷ before) o after b (rw (← eq) at a))
    | inr (inr gt) ↦ absurd (omega arith)
  ]

-- `addition` of a patch id below `max` always finishes where it may seek: the list stays valid, the
-- set gains the patch id and all that follow it up to the start of the next interval, or up to `max`,
-- and nothing else; the result says that the list changed exactly if the patch id was not in it; and
-- no interval starts above the patch id where none did.
pub addition-Added :
    (x : ℕ) (l : IntervalList)
    → IsValid l
    → CanSeek x l.intervals
    → x < l.max
    → (r : IntervalList × Bool) × (addition x l ≡ some r)
      × (r.0.max ≡ l.max)
      × Added l.max x l.intervals (r.0.intervals, r.1)
unfolding addition
addition-Added x l v c x-lt =
    let (r, e, a) = at_lower_bound (Adds l.max x) l.max x l.intervals (adds l.max x x-lt) v c in
    (with_intervals l r, rw e, refl, a)
