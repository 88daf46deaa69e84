-- ===== src/Interval/Lone.antt =====
-- `get_interval` and `lone_addition` against the set that the list stands for.
pub mod Find
use ostrich.Base.{
  ℕ, ◌+◌, ◌≡◌, ◌<◌, ◌≤◌, refl, ◌||◌, ◌&&◌, not, Bool, true, false, some, List, [], ◌∷◌,
}
use ostrich.Base.{arith, ltb, ◌==◌, if◌then◌else◌, lt_or_le, Bool-cases, inl, inr}
use ostrich.Ordered.{rewind, assign}
use ostrich.Ordered.Split.{Below, StartsFrom, assign_new-at}
use ostrich.Interval.{
  Interval, IntervalList, get_interval, interval_at, add_lone, lone_addition, with_intervals,
}
use ostrich.Interval.Shape.{
  Chained, ChainedBack, Chained-split, IsValid, CanSeek, top, at_lower_bound,
}
use ostrich.Interval.Shape.{Chained-ahead}
use ostrich.Interval.Covers.{covers, covers-StartsFrom, covers-rewind, covers-above}
use ostrich.Interval.Lone.Find.{
  ends_at, ends_at-rewind, ends_at-above, ends_at-below, ends_at-StartsFrom, Found, or_true, Finds,
  finds_before, holds_here, hit_here, finds, Fits, fits_gap, ends_before, fits, splits,
}

abbrev pub AddedAlone : ℕ → ℕ → List Interval → List Interval × Bool → Type 0
AddedAlone max x m (m', changed) =
    Chained max 0 m'
    × ((y : ℕ) → covers y m' ≡ (covers y m || (changed && y == x)))
    × (changed ≡ not (covers x m || ends_at x m))

add_lone_found :
    (max x : ℕ) (m : List Interval) (i : Interval)
    → i.0 < i.1
    → i.1 ≤ max
    → add_lone max x m i ≡ (m, false)
unfolding add_lone
add_lone_found max x m (start, end) h k = ground arith

add_lone_missing :
    (max x : ℕ) (m : List Interval) → add_lone max x m (max, max) ≡ (assign x (x + 1) m, true)
unfolding add_lone
add_lone_missing max x m = ground arith

add_lone-AddedAlone :
    (max x : ℕ) (m : List Interval) (i : Interval)
    → Chained max 0 m
    → Found max x m i
    → Fits max x m
    → AddedAlone max x m (add_lone max x m i)
add_lone-AddedAlone max x m i v f g = elim (Bool-cases (covers x m || ends_at x m)) [
  | inl here ↦
      let found = rw here at f in
      rw (add_lone_found max x m i found.0 found.1) (v, λ y. ground arith, ground arith)
  | inr gone ↦
      let missing : i ≡ (max, max) = rw gone at f in
      let (chain, set) = g gone in
      rw (missing, add_lone_missing max x m) (chain, λ y. ground (arith, set y), ground arith)
]

-- `lone_addition` of a patch id below `max` always finishes where it may seek: the list stays valid,
-- and the set gains the patch id alone, unless it is in the set or an interval ends right before it;
-- in these two cases nothing changes, and the result says so.
pub lone_addition-AddedAlone :
    (x : ℕ) (l : IntervalList)
    → IsValid l
    → CanSeek x l.intervals
    → x < l.max
    → (r : IntervalList × Bool) × (lone_addition x l ≡ some r)
      × (r.0.max ≡ l.max)
      × AddedAlone l.max x l.intervals (r.0.intervals, r.1)
unfolding lone_addition
lone_addition-AddedAlone x l v c h =
    let (i, e, f) = at_lower_bound (Finds l.max x) l.max x l.intervals (finds l.max x) v c in
    let g =
      at_lower_bound (λ m after before. Fits l.max x m) l.max x l.intervals
        (λ before after k u b a s. fits l.max x before after k u b a s h) v c in
    (
      with_intervals l (add_lone l.max x l.intervals i),
      unfold get_interval in rw e,
      refl,
      add_lone-AddedAlone l.max x l.intervals i v f g,
    )
