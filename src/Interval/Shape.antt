-- ===== src/Interval/Shape.antt =====
-- The invariant of an interval list, and its form at a position of the map.
use ostrich.Base.{ℕ, ◌+◌, ◌<◌, ◌≤◌, List, [], ◌∷◌, sym, arith}
use mathlib.Core.Path.{subst}
use ostrich.Ordered.{rewind, lower_bound}
use ostrich.Ordered.Split.{Below, StartsFrom, lower_bound-IsLowerBound}
use ostrich.Interval.{Interval, IntervalList}

-- The intervals follow one another from `low` on, none is empty, and none ends above `max`.
abbrev pub Chained : ℕ → ℕ → List Interval → Type 0
Chained max low [] = Unit
Chained max low ((start, end) ∷ m) = (low ≤ start) × (start < end) × (end ≤ max) × Chained max end m

abbrev pub IsValid : IntervalList → Type 0
IsValid l = Chained l.max 0 l.intervals

-- The end of the interval before a position.
abbrev pub top : List Interval → ℕ
top [] = 0
top ((start, end) ∷ before) = end

-- The same from a position back to the start.
abbrev pub ChainedBack : ℕ → List Interval → Type 0
ChainedBack max [] = Unit
ChainedBack max ((start, end) ∷ before) =
    (top before ≤ start) × (start < end) × (end ≤ max) × ChainedBack max before

pub Chained-split :
    (max : ℕ) (before after : List Interval)
    → ChainedBack max before
    → Chained max (top before) after
    → Chained max 0 (rewind before after)
Chained-split max [] after b a = a
Chained-split max ((start, end) ∷ before) after b a =
    Chained-split max before ((start, end) ∷ after) b.3 (b.0, b.1, b.2, a)

pub Chained-at :
    (max : ℕ) (before after : List Interval)
    → Chained max 0 (rewind before after)
    → ChainedBack max before × Chained max (top before) after
Chained-at max [] after h = (tt, h)
Chained-at max ((start, end) ∷ before) after h =
    let (b, a) = Chained-at max before ((start, end) ∷ after) h in ((a.0, a.1, a.2, b), a.3)

-- The code may only step back from a position that is not `begin()`: no interval starts above `x`
-- with none before it.
abbrev pub CanSeek : ℕ → List Interval → Type 0
CanSeek x [] = Unit
CanSeek x ((start, end) ∷ m) = start ≤ x

-- A claim about a position that holds wherever the map may split holds at the one that
-- `lower_bound` returns.
pub at_lower_bound :
    (P : List Interval → List Interval → List Interval → Type 0) (max x : ℕ) (m : List Interval)
    → ((before after : List Interval)
        → Below x before
        → StartsFrom x after
        → ChainedBack max before
        → Chained max (top before) after
        → CanSeek x (rewind before after)
        → P (rewind before after) after before)
    → Chained max 0 m
    → CanSeek x m
    → P m (lower_bound x m).after (lower_bound x m).before
at_lower_bound P max x m all v c =
    let at = lower_bound x m in
    let found = lower_bound-IsLowerBound x m in
    let shape = Chained-at max at.before at.after (subst (Chained max 0) (sym found.whole) v) in
    subst (λ k. P k at.after at.before) found.whole
      (all at.before at.after found.lower found.upper shape.0 shape.1
        (subst (CanSeek x) (sym found.whole) c))

-- The keys of a chain, as `lower_bound` and the edits see them.
pub Chained-StartsFrom : (max low : ℕ) (m : List Interval) → Chained max low m → StartsFrom low m
Chained-StartsFrom max low [] h = tt
Chained-StartsFrom max low ((start, end) ∷ m) h = h.0

pub Chained-StartsFrom_next :
    (max low k : ℕ) (m : List Interval) → k < low → Chained max low m → StartsFrom (k + 1) m
Chained-StartsFrom_next max low k [] l h = tt
Chained-StartsFrom_next max low k ((start, end) ∷ m) l h = omega arith

pub ChainedBack-Below :
    (max k : ℕ) (before : List Interval) → ChainedBack max before → top before ≤ k → Below k before
ChainedBack-Below max k [] h l = tt
ChainedBack-Below max k ((start, end) ∷ before) h l =
    (omega arith, ChainedBack-Below max k before h.3 (omega arith))

pub Chained-weaken :
    (max low high : ℕ) (m : List Interval) → low ≤ high → Chained max high m → Chained max low m
Chained-weaken max low high [] l h = tt
Chained-weaken max low high ((start, end) ∷ m) l h = (omega arith, h.1, h.2, h.3)

pub Chained-ahead :
    (max low k : ℕ) (m : List Interval) → StartsFrom k m → Chained max low m → Chained max k m
Chained-ahead max low k [] u h = tt
Chained-ahead max low k ((start, end) ∷ m) u h = (u, h.1, h.2, h.3)
