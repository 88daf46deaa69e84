-- ===== src/VariableInteger/Chunks.antt =====
-- The bytes of one number within the data.
use ostrich.Base.{
  ℕ, zero, suc, ◌+◌, ◌^◌, ◌≡◌, ◌<◌, ◌≤◌, refl, sym, ap, ◌∙◌, Option, none, some, List, [], ◌∷◌,
  ◌++◌,
}
use ostrich.Base.{arith, length, drop, Bool-cases, inl, inr}
use mathlib.Core.Option
use mathlib.Core.Path.{subst}
use mathlib.Core.List.{append_assoc}
use ostrich.Base.Int.{ℤ}
use ostrich.VariableInteger.{
  Decoded, decoded, encode_sleb128, decode_sleb128, signed_encode_loop, signed_decode_loop, is_more,
  low_bits, shift_down,
}
use ostrich.VariableInteger.Signed.{decode-encode_sleb128}
use ostrich.VariableInteger.Signed.Pattern.{magnitude}
use ostrich.VariableInteger.{read_at}

abbrev AtMost : ℕ → Option (List ℕ) → Type 0
AtMost n none = Unit
AtMost n (some bytes) = length bytes ≤ n

AtMost-cons :
    (n b : ℕ) (o : Option (List ℕ))
    → AtMost n o
    → AtMost (suc n) (Option.map (λ bytes. b ∷ bytes) o)
AtMost-cons n b none h = tt
AtMost-cons n b (some bytes) h = omega arith

signed_encode_loop-AtMost : (left : ℕ) (z : ℤ) → AtMost left (signed_encode_loop left z)
unfolding signed_encode_loop
signed_encode_loop-AtMost zero z = tt
signed_encode_loop-AtMost (suc left) z = elim (Bool-cases (is_more (low_bits z) (shift_down z))) [
  | inl e ↦
      rw e (AtMost-cons left (low_bits z + 128) _ (signed_encode_loop-AtMost left (shift_down z)))
  | inr e ↦ rw e (omega arith)
]

encode-AtMost : (z : ℤ) → AtMost 10 (encode_sleb128 z [])
unfolding encode_sleb128
encode-AtMost z = unchanged (signed_encode_loop 10 z) (signed_encode_loop-AtMost 10 z)
  where
    unchanged :
        (o : Option (List ℕ)) → AtMost 10 o → AtMost 10 (Option.map (λ bytes. [] ++ bytes) o)
    unchanged none h = tt
    unchanged (some bytes) h = h

-- The bytes of a number: at most ten, and read back whatever follows them.
pub record Chunk (z : ℤ) : Type 0 where
  pub bytes : List ℕ
  pub written : encode_sleb128 z [] ≡ some bytes
  pub short : length bytes ≤ 10
  pub read : (rest : List ℕ) → decode_sleb128 (bytes ++ rest) ≡ decoded z (length bytes)

same_bytes : (a b : List ℕ) → some a ≡ some b → a ≡ b
same_bytes a b e = cc

pub chunk : (z : ℤ) → magnitude z < 2 ^ 63 → Chunk z
chunk z h =
    let first = decode-encode_sleb128 z [] [] h in
    record {
      bytes = first.0;
      written = first.1;
      short = subst (AtMost 10) first.1 (encode-AtMost z);
      read = λ rest.
          let (bytes, enc, len, dec) = decode-encode_sleb128 z [] rest h in
          subst (λ bs. decode_sleb128 (bs ++ rest) ≡ decoded z (length bs))
            (same_bytes bytes first.0 (sym enc ∙ first.1)) dec;
    }

pub drop-append : (xs ys : List ℕ) → drop (length xs) (xs ++ ys) ≡ ys
drop-append [] ys = refl
drop-append (x ∷ xs) ys = drop-append xs ys

drop-nil : (n : ℕ) → drop {A = ℕ} n [] ≡ []
drop-nil zero = refl
drop-nil (suc n) = refl

pub drop_add : (m n : ℕ) (xs : List ℕ) → drop (m + n) xs ≡ drop n (drop m xs)
drop_add zero n xs = ap (λ (t : ℕ). drop t xs) none_more
  where
    none_more : 0 + n ≡ n
    none_more = omega arith
drop_add (suc m) n [] = drop-nil (suc m + n) ∙ sym (drop-nil n)
drop_add (suc m) n (x ∷ xs) = ap (λ (t : ℕ). drop t (x ∷ xs)) one_more ∙ drop_add m n xs
  where
    one_more : suc m + n ≡ suc (m + n)
    one_more = omega arith

-- Where the data go on with a number, `read_at` takes it, and they go on behind it.
pub read_at-Chunk :
    {B : Type 0} {z : ℤ} (c : Chunk z) (memory : List ℕ) (offset : ℕ) (more rest : List ℕ)
    → drop offset memory ≡ (c.bytes ++ more) ++ rest
    → ((next : ℤ → ℕ → Decoded B) → read_at memory offset next ≡ next z (offset + length c.bytes))
      × (drop (offset + length c.bytes) memory ≡ more ++ rest)
unfolding read_at
read_at-Chunk c memory offset more rest e =
    let there : drop offset memory ≡ c.bytes ++ (more ++ rest) =
      e ∙ append_assoc c.bytes more rest in
    (
      λ next. rw (there, c.read (more ++ rest)) refl,
      drop_add offset (length c.bytes) memory ∙ rw there (drop-append c.bytes (more ++ rest)),
    )

read_nonempty :
    (z : ℤ) (bytes : List ℕ)
    → decode_sleb128 (bytes ++ []) ≡ decoded z (length bytes)
    → 1 ≤ length bytes
unfolding decode_sleb128 signed_decode_loop
read_nonempty z [] e = cc
read_nonempty z (b ∷ bytes) e = omega arith

pub Chunk-nonempty : {z : ℤ} (c : Chunk z) → 1 ≤ length c.bytes
Chunk-nonempty {z} c = read_nonempty z c.bytes (c.read [])
