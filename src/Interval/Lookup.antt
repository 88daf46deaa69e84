-- ===== src/Interval/Lookup.antt =====
-- `is_in` and `get_interval` against the set that the list stands for.
use ostrich.Base.{ℕ, ◌≡◌, ◌<◌, refl, some, none, List, [], ◌∷◌, arith, lt→ltb}
use ostrich.Ordered.{rewind}
use ostrich.Ordered.Split.{Below, StartsFrom, lower_bound-first}
use ostrich.Interval.{
  Interval, IntervalList, is_in, is_in_at, get_interval, addition, lone_addition, deletion,
}
use ostrich.Interval.Shape.{Chained, ChainedBack, IsValid, CanSeek, top, at_lower_bound}
use ostrich.Interval.Covers.{covers, covers-rewind, covers-below, covers-above}

is_in_at-covers :
    (max x : ℕ) (before after : List Interval)
    → Below x before
    → StartsFrom x after
    → ChainedBack max before
    → Chained max (top before) after
    → CanSeek x (rewind before after)
    → is_in_at x after before ≡ some (covers x (rewind before after))
unfolding is_in_at
is_in_at-covers max x [] [] lo hi b a c = refl
is_in_at-covers max x ((start, end) ∷ before) [] lo hi b a c =
    rw (covers-rewind x before ((start, end) ∷ [])) (ground (arith, covers-above max x before))
is_in_at-covers max x [] ((start, end) ∷ after) lo hi b a c =
    ground (arith, covers-below max end x after)
is_in_at-covers max x ((s, e) ∷ before) ((start, end) ∷ after) lo hi b a c =
    rw (covers-rewind x before ((s, e) ∷ (start, end) ∷ after))
      (ground (arith, covers-above max x before, covers-below max end x after))

-- On a valid list, `is_in` finds exactly the patch ids of the intervals, and never steps back from
-- `begin()`, if the list is empty or its first interval does not start above the patch id.
pub is_in-covers :
    (x : ℕ) (l : IntervalList)
    → IsValid l
    → CanSeek x l.intervals
    → is_in x l ≡ some (covers x l.intervals)
unfolding is_in
is_in-covers x l =
    at_lower_bound (λ m after before. is_in_at x after before ≡ some (covers x m)) l.max x
      l.intervals (is_in_at-covers l.max x)

-- All five operations that seek a patch id do undefined behaviour.
abbrev pub StepsBack : ℕ → IntervalList → Type 0
StepsBack x l =
    (is_in x l ≡ none)
    × (get_interval x l ≡ none)
    × (addition x l ≡ none)
    × (lone_addition x l ≡ none)
    × (deletion x l ≡ none)

-- If the first interval starts above the patch id, then `is_in`, `get_interval`, `addition`,
-- `lone_addition` and `deletion` step back from `begin()`, which is undefined behaviour.
pub seek_below :
    (x max start end : ℕ) (m : List Interval)
    → x < start
    → StepsBack x (record { max = max; intervals = (start, end) ∷ m })
unfolding is_in get_interval addition lone_addition deletion
seek_below x max start end m h =
    let first = lower_bound-first x start end m h in
    let test = lt→ltb x start h in
    (rw (first, test), rw (first, test), rw (first, test), rw (first, test), rw (first, test))
