-- ===== src/VariableInteger/Signed.antt =====
-- What `encode_SLEB128` writes, `decode_SLEB128` reads back, and `get_SLEB128_size` foretells its size.
pub mod Pattern
pub mod Rounds
use ostrich.Base.{
  ℕ, zero, suc, ◌+◌, ◌-◌, ◌*◌, ◌/◌, ◌%◌, ◌^◌, ◌≡◌, ◌<◌, ◌≤◌, refl, sym, ap, ◌∙◌, Bool, true, false,
  not, ◌||◌, ◌&&◌, Option, none, some, List, [], ◌∷◌, ◌++◌,
}
use ostrich.Base.{
  arith, leb, ltb, lt→ltb, ◌==◌, if◌then◌else◌, length, Bool-cases, inl, inr, ==_iff, bit_or,
}
use ostrich.Base.Int.{ℤ, pos, negsuc, eqb_ℤ}
use ostrich.Base.Bits.{bit_or_high, true_below}
use mathlib.Core.Option
use native.Mathlib.Nat.{mul-le-mul_right, mod-eq_of_lt, pow-le-pow_right}
use ostrich.VariableInteger.{
  low_bits, shift_down, sign_bit, is_more, signed_size_loop, signed_encode_loop,
}
use ostrich.VariableInteger.{
  signed_decode_loop, shifted, to_int64, is_too_big, extended, Decoded, decoded,
}
use ostrich.VariableInteger.{rounds, get_sleb128_size, encode_sleb128, decode_sleb128}
use ostrich.VariableInteger.Unsigned.{power_step, groups, low_group, shifted-below}
use ostrich.VariableInteger.Signed.Pattern.{
  magnitude, pattern, to_negative, to_int64-pattern, is_last, goes_on, small_power, group_bound,
  complement, pattern-shift_down,
}
use ostrich.VariableInteger.Signed.Rounds.{
  no_exception, not_leb, le→leb, decode_more, sign_mask, sign_mask_value, extended_negative,
  extended_positive, Reads, byte_inner, byte_tenth_positive, byte_tenth_negative,
}

-- The low bits end where the groups start, and a number that is left fits above them.
Fits : ℤ → ℕ → ℕ → Type 0
Fits z shift low = (low < 2 ^ shift) × (magnitude z * 2 ^ shift < 2 ^ 63)

-- The bytes of a number of at most `left + 1` groups, and what reads them back from a shift on.
Coded : ℕ → ℤ → ℕ → ℕ → ℕ → List ℕ → Type 0
Coded left z low shift size rest =
    (bytes : List ℕ) × (signed_encode_loop (suc left) z ≡ some bytes)
    × (signed_size_loop (suc left) z ≡ some (length bytes))
    × (signed_decode_loop (bytes ++ rest) low shift size
        ≡ decoded (to_int64 (pattern z shift low)) (size + length bytes))

small_remainder : (n : ℕ) → n < 64 → n % 128 ≡ n
small_remainder n h = omega arith

last_inner :
    (z : ℤ) (low shift size : ℕ) (rest : List ℕ)
    → magnitude z < 64
    → shift ≤ 56
    → low < 2 ^ shift
    → signed_decode_loop (low_bits z ∷ rest) low shift size
      ≡ decoded (to_int64 (pattern z shift low)) (size + 1)
unfolding Reads low_bits
last_inner (pos n) low shift size rest h s l = rw (small_remainder n h) (
    byte_inner n low shift size (omega arith) s l rest
    ∙ ap (λ (t : ℕ). decoded (to_int64 t) (size + 1))
        (extended_positive n (low + n * 2 ^ shift) (shift + 7) h))
last_inner (negsuc n) low shift size rest h s l =
    let all = complement n (2 ^ shift) (omega arith) in
    let step = power_step shift in
    let power = small_power shift s in
    let sum : low + (127 - n) * 2 ^ shift + (2 ^ 64 - 2 ^ (shift + 7))
        ≡ low + (2 ^ 64 - (n + 1) * 2 ^ shift) =
      omega (arith, all, step, power) in
    rw (small_remainder n h) (
      byte_inner (127 - n) low shift size (omega arith) s l rest
      ∙ ap (λ (t : ℕ). decoded (to_int64 t) (size + 1))
          (extended_negative (127 - n) (low + (127 - n) * 2 ^ shift) (shift + 7) (omega arith)
              (omega arith) (omega (arith, all, step))
            ∙ sum))

last_tenth :
    (z : ℤ) (low size : ℕ) (rest : List ℕ)
    → magnitude z ≡ 0
    → low < 2 ^ 63
    → signed_decode_loop (low_bits z ∷ rest) low 63 size
      ≡ decoded (to_int64 (pattern z 63 low)) (size + 1)
unfolding Reads low_bits
last_tenth (pos n) low size rest h l = rw h (byte_tenth_positive low size l rest)
last_tenth (negsuc n) low size rest h l = rw h (byte_tenth_negative low size l rest)

low_bits-below : (z : ℤ) → low_bits z < 128
unfolding low_bits
low_bits-below (pos n) = omega arith
low_bits-below (negsuc n) = omega arith

shift_down-Fits :
    (z : ℤ) (shift low : ℕ)
    → Fits z shift low
    → Fits (shift_down z) (shift + 7) (low + low_bits z * 2 ^ shift)
unfolding Fits low_bits shift_down
shift_down-Fits (pos n) shift low (l, h) = (
  omega (arith, power_step shift, complement (n % 128) (2 ^ shift) (omega arith)),
  omega (arith, groups n shift),
)
shift_down-Fits (negsuc n) shift low (l, h) = (
  omega (arith, power_step shift, complement (n % 128) (2 ^ shift) (omega arith)),
  omega (arith, groups n shift),
)

encode_last :
    (left : ℕ) (z : ℤ)
    → is_more (low_bits z) (shift_down z) ≡ false
    → (signed_encode_loop (suc left) z ≡ some (low_bits z ∷ []))
      × (signed_size_loop (suc left) z ≡ some 1)
unfolding signed_encode_loop signed_size_loop
encode_last left z e = (rw e refl, rw e refl)

encode_more :
    (left n : ℕ) (z : ℤ) (bytes : List ℕ)
    → is_more (low_bits z) (shift_down z) ≡ true
    → signed_encode_loop left (shift_down z) ≡ some bytes
    → signed_size_loop left (shift_down z) ≡ some n
    → (signed_encode_loop (suc left) z ≡ some ((low_bits z + 128) ∷ bytes))
      × (signed_size_loop (suc left) z ≡ some (suc n))
unfolding signed_encode_loop signed_size_loop
encode_more left n z bytes e enc len = (rw (e, enc) refl, rw (e, len) refl)

ends_at_ten :
    (z : ℤ) (low shift size : ℕ) (rest : List ℕ)
    → shift ≡ 63
    → low < 2 ^ 63
    → magnitude z * 2 ^ 63 < 2 ^ 63
    → Coded 0 z low shift size rest
unfolding Coded
ends_at_ten z low shift size rest s l h =
    let none_left : magnitude z ≡ 0 = omega arith in
    elim (Bool-cases (is_more (low_bits z) (shift_down z))) [
      | inl e ↦ absurd (omega (arith, goes_on z e))
      | inr e ↦
          let (enc, len) = encode_last 0 z e in
          (low_bits z ∷ [], enc, len, rw s (last_tenth z low size rest none_left l))
    ]

coded :
    (left : ℕ) (z : ℤ) (low shift size : ℕ) (rest : List ℕ)
    → shift + 7 * left ≡ 63
    → Fits z shift low
    → Coded left z low shift size rest
unfolding Coded Fits
coded zero z low shift size rest s (l, h) =
    let tenth : shift ≡ 63 = omega arith in
    ends_at_ten z low shift size rest tenth (rw tenth at l) (rw tenth at h)
coded (suc left) z low shift size rest s (l, h) =
    elim (Bool-cases (is_more (low_bits z) (shift_down z))) [
      | inl e ↦
          let (bytes, enc, len, dec) =
            coded left (shift_down z) (low + low_bits z * 2 ^ shift) (shift + 7) (size + 1) rest
              (omega arith) (shift_down-Fits z shift low (l, h)) in
          let (enc', len') = encode_more (suc left) (length bytes) z bytes e enc len in
          let count : (n : ℕ) → size + 1 + n ≡ size + suc n = λ n. omega arith in
          (
            (low_bits z + 128) ∷ bytes,
            enc',
            len',
            decode_more (low_bits z) low shift size (bytes ++ rest) (low_bits-below z) (omega arith)
                  l
                ∙ dec
                ∙ (λ i.
                    decoded (to_int64 (pattern-shift_down z shift low (omega arith) h i))
                      (count (length bytes) i)),
          )
      | inr e ↦
          let (enc, len) = encode_last (suc left) z e in
          (
            low_bits z ∷ [],
            enc,
            len,
            last_inner z low shift size rest (is_last z e) (omega arith) l,
          )
    ]

-- An `int64_t` is encoded within ten rounds, into as many bytes as `get_SLEB128_size` says, which are
-- appended to the buffer; and `decode_SLEB128` of these bytes, whatever follows them, gives the value
-- and the number of the bytes.
pub decode-encode_sleb128 :
    (value : ℤ) (p rest : List ℕ)
    → magnitude value < 2 ^ 63
    → (bytes : List ℕ) × (encode_sleb128 value p ≡ some (p ++ bytes))
      × (get_sleb128_size value ≡ some (length bytes))
      × (decode_sleb128 (bytes ++ rest) ≡ decoded value (length bytes))
unfolding Coded Fits encode_sleb128 get_sleb128_size decode_sleb128
decode-encode_sleb128 value p rest h =
    let (bytes, enc, len, dec) = coded 9 value 0 0 0 rest refl (omega arith, omega arith) in
    let counted : 0 + length bytes ≡ length bytes = omega arith in
    (bytes, rw enc refl, len, dec ∙ (λ i. decoded (to_int64-pattern value h i) (counted i)))
