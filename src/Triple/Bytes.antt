-- ===== src/Triple/Bytes.antt =====
-- What `Triple::serialize` writes, `deserialize` reads back, and it fits into the buffer.
use ostrich.Base.{ℕ, ◌+◌, ◌^◌, ◌≡◌, ◌<◌, refl, ◌∙◌, some, List, [], ◌++◌}
use ostrich.Base.{arith, length, length-append, drop}
use mathlib.Core.List.{append_assoc}
use mathlib.Core.Path.{subst, sym}
use ostrich.VariableInteger.{Decoded, decoded, encode_uleb128, decode_uleb128}
use ostrich.VariableInteger.Chunks.{drop-append, drop_add}
use ostrich.VariableInteger.Unsigned.{decode-encode_uleb128}
use ostrich.Triple.{Triple, serialize, deserialize, read_component}

-- Every component is a `size_t`.
abbrev pub AreSizes : Triple → Type 0
AreSizes t = (t.subject < 2 ^ 64) × (t.predicate < 2 ^ 64) × (t.object < 2 ^ 64)

-- The bytes of a component, read back whatever follows them.
record Group (n : ℕ) : Type 0 where
  bytes : List ℕ
  written : encode_uleb128 n [] ≡ some bytes
  read : (rest : List ℕ) → decode_uleb128 (bytes ++ rest) ≡ decoded n (length bytes)

same_bytes : (a b : List ℕ) → some a ≡ some b → a ≡ b
same_bytes a b e = cc

group : (n : ℕ) → n < 2 ^ 64 → Group n
group n h =
    let first = decode-encode_uleb128 n [] [] h in
    record {
      bytes = first.0;
      written = first.1;
      read = λ rest.
          let (bytes, enc, len, dec) = decode-encode_uleb128 n [] rest h in
          subst (λ bs. decode_uleb128 (bs ++ rest) ≡ decoded n (length bs))
            (same_bytes bytes first.0 (sym enc ∙ first.1)) dec;
    }

-- Where the data go on with a component, `read_component` takes it, and they go on behind it.
read_component-Group :
    {B : Type 0} {n : ℕ} (c : Group n) (memory : List ℕ) (offset : ℕ) (more : List ℕ)
    → drop offset memory ≡ c.bytes ++ more
    → ((next : ℕ → ℕ → Decoded B)
        → read_component memory offset next ≡ next n (offset + length c.bytes))
      × (drop (offset + length c.bytes) memory ≡ more)
unfolding read_component
read_component-Group c memory offset more e = (
  λ next. rw (e, c.read more) refl,
  drop_add offset (length c.bytes) memory ∙ rw e (drop-append c.bytes more),
)

-- A triple of three `size_t` numbers is written, and `deserialize` of these bytes, whatever follows
-- them, gives the triple and the number of the bytes.
pub deserialize-serialize_triple :
    (t : Triple) (rest : List ℕ)
    → AreSizes t
    → (bytes : List ℕ) × (serialize t ≡ some bytes)
      × (deserialize (bytes ++ rest) ≡ decoded t (length bytes))
unfolding serialize deserialize
deserialize-serialize_triple t rest h =
    let s = group t.subject h.0 in
    let p = group t.predicate h.1 in
    let o = group t.object h.2 in
    let all = s.bytes ++ (p.bytes ++ o.bytes) in
    let start : drop 0 (all ++ rest) ≡ s.bytes ++ ((p.bytes ++ o.bytes) ++ rest) =
      append_assoc s.bytes (p.bytes ++ o.bytes) rest in
    let (e1, at_p) = read_component-Group {B = Triple} s (all ++ rest) 0 _ start in
    let (e2, at_o) =
      read_component-Group {B = Triple} p (all ++ rest) _ _
        (at_p ∙ append_assoc p.bytes o.bytes rest) in
    let (e3, end) = read_component-Group {B = Triple} o (all ++ rest) _ rest at_o in
    let size : 0 + length s.bytes + length p.bytes + length o.bytes ≡ length all =
      omega (arith, length-append s.bytes (p.bytes ++ o.bytes), length-append p.bytes o.bytes) in
    (all, rw (s.written, p.written, o.written) refl, rw (e1, e2, e3) (λ i. decoded t (size i)))
