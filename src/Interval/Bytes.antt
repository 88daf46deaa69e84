-- ===== src/Interval/Bytes.antt =====
-- The byte format of `IntervalList`, as it is built (with USE_VSI): the bounds of each interval as
-- SLEB128 numbers. An outer `none` while reading stands for a number that no patch id is.
pub mod RoundTrip
use ostrich.Base.{ℕ, zero, suc, ◌+◌, Bool, Option, none, some, List, [], ◌∷◌, ◌++◌, ◌>>=◌}
use ostrich.Base.{ltb, if◌then◌else◌}
use ostrich.Base.Int.{ℤ, pos, negsuc}
use ostrich.Ordered.{insert}
use ostrich.Interval.{Interval, IntervalList}
use ostrich.VariableInteger.{Decoded, decoded, too_big, past_end, encode_sleb128, read_at}

-- One round of the loop for each interval; the data are empty where there is none.
unfoldable pub write_from : List Interval → Option (List ℕ)
write_from [] = some []
write_from ((start, end) ∷ m) = do
  first ← encode_sleb128 (pos start) []
  second ← encode_sleb128 (pos end) []
  rest ← write_from m
  some (first ++ (second ++ rest))

unfoldable pub serialize : IntervalList → Option (List ℕ)
unfolding write_from
serialize l = write_from l.intervals

-- The bounds that are read, as an interval.
abbrev pub interval_of : ℤ → ℤ → Option Interval
interval_of (pos start) (pos end) = some (start, end)
interval_of (pos start) (negsuc end) = none
interval_of (negsuc start) end = none

unfoldable pub read_interval : List ℕ → ℕ → Decoded (Option Interval)
unfolding read_at
read_interval bytes i =
    read_at bytes i
      (λ s at_end. read_at bytes at_end (λ e behind. decoded (interval_of s e) behind))

-- `intervals.insert(std::make_pair(s, e))`, and the next round at the offset behind.
abbrev pub inserted :
    (ℕ → List Interval → Option (List Interval))
    → List Interval
    → Decoded (Option Interval)
    → Option (List Interval)
inserted next m (decoded (some i) behind) = next behind (insert i.0 i.1 m)
inserted next m (decoded none behind) = none
inserted next m too_big = none
inserted next m past_end = none

-- `while (i < size)`, for at most `fuel` rounds.
unfoldable pub read_loop : ℕ → List ℕ → ℕ → ℕ → List Interval → Option (List Interval)
unfolding read_interval
read_loop zero bytes size i m = none
read_loop (suc fuel) bytes size i m =
    if ltb i size then inserted (read_loop fuel bytes size) m (read_interval bytes i) else some m

-- Each round reads a byte or more, so `size + 1` rounds are enough.
unfoldable pub deserialize : List ℕ → ℕ → IntervalList → Option IntervalList
unfolding read_loop
deserialize bytes size l = do
  m ← read_loop (size + 1) bytes size 0 []
  some (record l { intervals = m })
