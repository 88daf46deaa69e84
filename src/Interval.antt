-- ===== src/Interval.antt =====
-- `IntervalList<int>` of src/main/cpp/patch/interval_list.h: a set of patch ids kept as a map from the
-- start of each interval to its end, which is not in it; the end `max` stands for an open interval.
-- `none` is undefined behaviour: the code steps an iterator back from `begin()` and reads there.
pub mod Shape
pub mod Covers
pub mod Lookup
pub mod Addition
pub mod Deletion
pub mod Lone
pub mod Virtual
pub mod Index
pub mod Bytes
mod Examples
use ostrich.Base.{ℕ, ◌+◌, ◌-◌, Bool, true, false, ◌&&◌, Option, none, some, List, [], ◌∷◌}
use ostrich.Base.{ltb, leb, ◌==◌, if◌then◌else◌}
use ostrich.Base.Int.{ℤ, pos, negsuc, sub_ℕ, ◌+ℤ◌, ◌-ℤ◌, ltb_ℤ}
use ostrich.Ordered.{lower_bound, insert, assign, erase, is_empty}
use mathlib.Core.Option

abbrev pub Interval : Type 0
Interval = ℕ × ℕ

pub record IntervalList : Type 0 where
  pub max : ℕ
  pub intervals : List Interval

-- `pos--`: the entry before the position.
abbrev pub previous : List Interval → Option Interval
previous [] = none
previous (i ∷ before) = some i

-- `if (element < pos->first) pos--;`
abbrev pub at_or_before : ℕ → Interval → List Interval → Option Interval
at_or_before x i before = if ltb x i.0 then previous before else some i

abbrev pub holds : ℕ → Interval → Bool
holds x (start, end) = leb start x && ltb x end

-- The part of `addition` for a position that is not `end()` and whose start lies above the element.
unfoldable pub add_before :
    ℕ → Interval → List Interval → List Interval → Option (List Interval × Bool)
add_before x next [] m = none
add_before x next ((start, end) ∷ before) m =
    if ltb end x
    then some (insert x next.1 (erase next.0 m), true)
    else (if end == x then some (assign start next.1 (erase next.0 m), true) else some (m, false))

-- The branches of `addition`, on the entries from the position on and on those before it.
unfoldable pub add_at :
    ℕ → ℕ → List Interval → List Interval → List Interval → Option (List Interval × Bool)
unfolding add_before
add_at max x [] [] m = some (insert x max m, true)
add_at max x [] ((start, end) ∷ before) m =
    if ltb start x && end == x
    then some (assign start max m, true)
    else (if ltb end x then some (insert x max m, true) else some (m, false))
add_at max x (next ∷ after) before m =
    if ltb x next.0 then add_before x next before m else some (m, false)

-- The new list, and whether it has changed.
abbrev pub with_intervals : IntervalList → List Interval × Bool → IntervalList × Bool
with_intervals l (m, changed) = (record l { intervals = m }, changed)

unfoldable pub addition : ℕ → IntervalList → Option (IntervalList × Bool)
unfolding add_at lower_bound
addition x l =
    let at = lower_bound x l.intervals in
    Option.map (with_intervals l) (add_at l.max x at.after at.before l.intervals)

-- The last lines of `get_interval`.
abbrev pub interval_or_max : ℕ → ℕ → Interval → Interval
interval_or_max max x i = if ltb i.1 x then (max, max) else i

unfoldable pub interval_at : ℕ → ℕ → List Interval → List Interval → Option Interval
interval_at max x [] [] = some (max, max)
interval_at max x [] (i ∷ before) = Option.map (interval_or_max max x) (at_or_before x i before)
interval_at max x (i ∷ after) before = Option.map (interval_or_max max x) (at_or_before x i before)

unfoldable pub get_interval : ℕ → IntervalList → Option Interval
unfolding interval_at lower_bound
get_interval x l = let at = lower_bound x l.intervals in interval_at l.max x at.after at.before

-- `inter.first == max && inter.second == max`: no interval was found.
unfoldable pub add_lone : ℕ → ℕ → List Interval → Interval → List Interval × Bool
add_lone max x m (start, end) =
    if start == max && end == max then (assign x (x + 1) m, true) else (m, false)

unfoldable pub lone_addition : ℕ → IntervalList → Option (IntervalList × Bool)
unfolding get_interval add_lone
lone_addition x l =
    Option.map (λ i. with_intervals l (add_lone l.max x l.intervals i)) (get_interval x l)

unfoldable pub cut : ℕ → List Interval → Interval → List Interval × Bool
cut x m (start, end) =
    if ltb x end
    then ((if start == x then erase start m else assign start x m), true)
    else (m, false)

unfoldable pub delete_at :
    ℕ → List Interval → List Interval → List Interval → Option (List Interval × Bool)
unfolding cut
delete_at x [] before m = Option.map (cut x m) (previous before)
delete_at x (i ∷ after) before m = Option.map (cut x m) (at_or_before x i before)

unfoldable pub deletion : ℕ → IntervalList → Option (IntervalList × Bool)
unfolding delete_at lower_bound
deletion x l =
    if is_empty l.intervals
    then some (l, false)
    else (let at = lower_bound x l.intervals in
        Option.map (with_intervals l) (delete_at x at.after at.before l.intervals))

unfoldable pub is_in_at : ℕ → List Interval → List Interval → Option Bool
is_in_at x [] [] = some false
is_in_at x [] (i ∷ before) = some (holds x i)
is_in_at x (i ∷ after) before = Option.map (holds x) (at_or_before x i before)

unfoldable pub is_in : ℕ → IntervalList → Option Bool
unfolding is_in_at lower_bound
is_in x l = let at = lower_bound x l.intervals in is_in_at x at.after at.before

-- The end of an interval, or the outer limit for an open one.
abbrev pub max_value : ℕ → ℕ → Interval → ℕ
max_value max outer i = if i.1 == max then outer else i.1

abbrev pub range : ℕ → ℕ → Interval → ℤ
range max outer i = sub_ℕ (max_value max outer i) i.0

unfoldable pub index_from : ℕ → ℕ → ℕ → ℤ → List Interval → ℤ
index_from max outer v count [] = negsuc 0
index_from max outer v count (i ∷ m) =
    if leb i.0 v && ltb v (max_value max outer i)
    then count +ℤ sub_ℕ v i.0
    else index_from max outer v (count +ℤ range max outer i) m

unfoldable pub get_index : ℕ → ℕ → IntervalList → ℤ
unfolding index_from
get_index v outer l = index_from l.max outer v (pos 0) l.intervals

unfoldable pub element_from : ℕ → ℕ → ℤ → ℤ → List Interval → ℤ
element_from max outer n index [] = pos max
element_from max outer n index (i ∷ m) =
    if ltb_ℤ n (index +ℤ range max outer i)
    then pos i.0 +ℤ (n -ℤ index)
    else element_from max outer n (index +ℤ range max outer i) m

unfoldable pub get_element_at : ℤ → ℕ → IntervalList → ℤ
unfolding element_from
get_element_at n outer l = element_from l.max outer n (pos 0) l.intervals

unfoldable pub size_from : ℕ → ℕ → ℤ → List Interval → ℤ
size_from max outer size [] = size
size_from max outer size (i ∷ m) = size_from max outer (size +ℤ range max outer i) m

unfoldable pub get_size : ℕ → IntervalList → ℤ
unfolding size_from
get_size outer l = size_from l.max outer (pos 0) l.intervals

unfoldable pub clear : IntervalList → IntervalList
clear l = record l { intervals = [] }

unfoldable pub set_max_value : ℕ → IntervalList → IntervalList
set_max_value v l = record l { max = v }
