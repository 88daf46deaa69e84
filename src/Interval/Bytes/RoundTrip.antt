-- ===== src/Interval/Bytes/RoundTrip.antt =====
-- What `serialize` writes, `deserialize` reads back.
use ostrich.Base.{
  ℕ, zero, suc, ◌+◌, ◌^◌, ◌≡◌, ◌<◌, ◌≤◌, refl, sym, true, false, Option, some, List, [], ◌∷◌, ◌++◌,
}
use ostrich.Base.{arith, length, length-append, drop, ltb, lt→ltb}
use mathlib.Core.List.{append-nil}
use ostrich.Base.Int.{pos}
use ostrich.Ordered.{rewind}
use ostrich.Ordered.Split.{Below, insert-at}
use ostrich.Interval.{Interval, IntervalList}
use ostrich.Interval.Shape.{Chained, ChainedBack, ChainedBack-Below, IsValid, top}
use ostrich.VariableInteger.{decoded}
use ostrich.VariableInteger.Chunks.{Chunk, chunk, read_at-Chunk, Chunk-nonempty}
use ostrich.Interval.Bytes.{write_from, serialize, read_interval, read_loop, deserialize}

module _ {start end : ℕ} (first : Chunk (pos start)) (second : Chunk (pos end)) where
  -- The offset behind an interval.
  abbrev behind : ℕ → ℕ
  behind i = i + length first.bytes + length second.bytes

  read_interval-Chunk :
      (memory : List ℕ) (i : ℕ) (more rest : List ℕ)
      → drop i memory ≡ (first.bytes ++ (second.bytes ++ more)) ++ rest
      → (read_interval memory i ≡ decoded (some (start, end)) (behind i))
        × (drop (behind i) memory ≡ more ++ rest)
  unfolding read_interval
  read_interval-Chunk memory i more rest e =
      let (e1, at_end) =
        read_at-Chunk {B = Option Interval} first memory i (second.bytes ++ more) rest e in
      let (e2, at_next) =
        read_at-Chunk {B = Option Interval} second memory (i + length first.bytes) more rest
          at_end in
      (rw (e1, e2) refl, at_next)

-- The loop reads the intervals `m` behind those that the map already has.
Reads : List Interval → List Interval → List ℕ → Type 0
Reads before m bytes =
    (fuel size i : ℕ) (memory rest : List ℕ)
    → drop i memory ≡ bytes ++ rest
    → size ≡ i + length bytes
    → length m < fuel
    → read_loop fuel memory size i (rewind before []) ≡ some (rewind before m)

loop_ends : (before : List Interval) → Reads before [] []
unfolding Reads read_loop
loop_ends before zero size i memory rest e s f = absurd (omega arith)
loop_ends before (suc fuel) size i memory rest e s f =
    let over : ltb i size ≡ false = ground arith in rw over refl

loop_goes_on :
    {start end : ℕ} (first : Chunk (pos start)) (second : Chunk (pos end))
    (before m : List Interval) (bytes : List ℕ)
    → Below start before
    → Reads ((start, end) ∷ before) m bytes
    → Reads before ((start, end) ∷ m) (first.bytes ++ (second.bytes ++ bytes))
unfolding Reads read_loop
loop_goes_on first second before m bytes b next zero size i memory rest e s f = absurd (omega arith)
loop_goes_on {start} {end} first second before m bytes b next (suc fuel) size i memory rest e s f =
    let total = length-append first.bytes (second.bytes ++ bytes) in
    let total' = length-append second.bytes bytes in
    let (read, there) = read_interval-Chunk first second memory i bytes rest e in
    let more : ltb i size ≡ true = lt→ltb i size (omega (arith, s, total, Chunk-nonempty first)) in
    rw (more, read, insert-at start end before [] b tt)
      (next fuel size (behind first second i) memory rest there (omega (arith, s, total, total'))
        (omega arith))

written :
    (max : ℕ) (before m : List Interval)
    → max < 2 ^ 63
    → ChainedBack max before
    → Chained max (top before) m
    → (bytes : List ℕ) × (write_from m ≡ some bytes)
      × (length m ≤ length bytes)
      × Reads before m bytes
unfolding write_from
written max before [] h b v = ([], refl, omega arith, loop_ends before)
written max before ((start, end) ∷ m) h b v =
    let first = chunk (pos start) (omega arith) in
    let second = chunk (pos end) (omega arith) in
    let (bytes, w, n, r) = written max ((start, end) ∷ before) m h (v.0, v.1, v.2, b) v.3 in
    (
      first.bytes ++ (second.bytes ++ bytes),
      rw (first.written, second.written, w) refl,
      omega (
        arith,
        length-append first.bytes (second.bytes ++ bytes),
        length-append second.bytes bytes,
        Chunk-nonempty first,
      ),
      loop_goes_on first second before m bytes (ChainedBack-Below max start before b v.0) r,
    )

-- A valid list whose `max` is an `int64_t` is serialized, and `deserialize` of these bytes into any
-- list with the same `max` gives the list back.
pub deserialize-serialize_intervals :
    (l : IntervalList) (old : List Interval)
    → IsValid l
    → l.max < 2 ^ 63
    → (bytes : List ℕ) × (serialize l ≡ some bytes)
      × (deserialize bytes (length bytes) (record l { intervals = old }) ≡ some l)
unfolding serialize deserialize Reads
deserialize-serialize_intervals l old v h =
    let (bytes, w, n, r) = written l.max [] l.intervals h tt v in
    (
      bytes,
      w,
      rw
          (r (length bytes + 1) (length bytes) 0 bytes [] (sym (append-nil bytes)) (omega arith)
            (omega arith))
          refl,
    )
