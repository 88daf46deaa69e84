-- ===== src/Positions/Bytes/RoundTrip.antt =====
-- What `serialize` writes, `deserialize` reads back, and it fits into the buffer.
use ostrich.Base.{ℕ, ◌+◌, ◌^◌, ◌≡◌, ◌<◌, ◌≤◌, refl, sym, ap, ◌∙◌, some, List, [], ◌++◌}
use ostrich.Base.{arith, length, length-append}
use ostrich.Positions.{PatchPositions}
use ostrich.VariableInteger.{decoded, get_sleb128_size}
use ostrich.VariableInteger.Signed.Pattern.{magnitude}
use ostrich.Positions.Bytes.{serialize, deserialize, max_serialization_size}
use ostrich.VariableInteger.Chunks.{Chunk, chunk, read_at-Chunk}

-- Every position is an `int64_t`.
abbrev pub AreInt64 : PatchPositions → Type 0
AreInt64 r =
    (magnitude r.sp < 2 ^ 63)
    × (magnitude r.so < 2 ^ 63)
    × (magnitude r.s < 2 ^ 63)
    × (magnitude r.po < 2 ^ 63)
    × (magnitude r.p < 2 ^ 63)
    × (magnitude r.o < 2 ^ 63)
    × (magnitude r.any < 2 ^ 63)

-- The bytes of each position.
record Chunks (r : PatchPositions) : Type 0 where
  sp : Chunk r.sp
  so : Chunk r.so
  s : Chunk r.s
  po : Chunk r.po
  p : Chunk r.p
  o : Chunk r.o
  any : Chunk r.any

module _ (r : PatchPositions) (c : Chunks r) where
  abbrev all_bytes : List ℕ
  all_bytes =
      c.sp.bytes
      ++ (c.so.bytes
          ++ (c.s.bytes ++ (c.po.bytes ++ (c.p.bytes ++ (c.o.bytes ++ (c.any.bytes ++ []))))))

  abbrev end : ℕ
  end =
      0
      + length c.sp.bytes
      + length c.so.bytes
      + length c.s.bytes
      + length c.po.bytes
      + length c.p.bytes
      + length c.o.bytes
      + length c.any.bytes

  serialize-Chunks : serialize r ≡ some all_bytes
  unfolding serialize
  serialize-Chunks =
      rw
        (
          c.sp.written, c.so.written, c.s.written, c.po.written, c.p.written, c.o.written,
          c.any.written,
        )
        refl

  deserialize-Chunks : (rest : List ℕ) → deserialize (all_bytes ++ rest) ≡ decoded r end
  unfolding deserialize
  deserialize-Chunks rest =
      let memory = all_bytes ++ rest in
      let (e1, at_so) = read_at-Chunk {B = PatchPositions} c.sp memory 0 _ rest refl in
      let (e2, at_s) = read_at-Chunk {B = PatchPositions} c.so memory _ _ rest at_so in
      let (e3, at_po) = read_at-Chunk {B = PatchPositions} c.s memory _ _ rest at_s in
      let (e4, at_p) = read_at-Chunk {B = PatchPositions} c.po memory _ _ rest at_po in
      let (e5, at_o) = read_at-Chunk {B = PatchPositions} c.p memory _ _ rest at_p in
      let (e6, at_any) = read_at-Chunk {B = PatchPositions} c.o memory _ _ rest at_o in
      let (e7, at_end) = read_at-Chunk {B = PatchPositions} c.any memory _ _ rest at_any in
      rw (e1, e2, e3, e4, e5, e6, e7) refl

  length-all_bytes : length all_bytes ≡ end
  length-all_bytes = simp length-append (omega arith)

-- Positions that are `int64_t` are serialized into at most `max_serialization_size` bytes, the size of
-- the buffer, and `deserialize` of these bytes, whatever follows them, gives the positions and the
-- number of the bytes.
pub deserialize-serialize :
    (r : PatchPositions) (rest : List ℕ)
    → AreInt64 r
    → (bytes : List ℕ) × (size : ℕ) × (serialize r ≡ some bytes)
      × (max_serialization_size ≡ some size)
      × (length bytes ≤ size)
      × (deserialize (bytes ++ rest) ≡ decoded r (length bytes))
unfolding max_serialization_size get_sleb128_size
deserialize-serialize r rest (sp, so, s, po, p, o, any) =
    let c : Chunks r = record {
      sp = chunk r.sp sp;
      so = chunk r.so so;
      s = chunk r.s s;
      po = chunk r.po po;
      p = chunk r.p p;
      o = chunk r.o o;
      any = chunk r.any any;
    } in
    let size = length-all_bytes r c in
    (
      all_bytes r c,
      70,
      serialize-Chunks r c,
      refl,
      omega (
        arith, size, c.sp.short, c.so.short, c.s.short, c.po.short, c.p.short, c.o.short,
        c.any.short,
      ),
      deserialize-Chunks r c rest ∙ ap (λ (n : ℕ). decoded r n) (sym size),
    )
