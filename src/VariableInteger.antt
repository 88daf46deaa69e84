-- ===== src/VariableInteger.antt =====
-- The variable-size integers of src/main/cpp/patch/variable_size_integer.h: the size, the encoding and the
-- decoding of ULEB128 and SLEB128. A byte is a number below 256: `value & 0x7f` is `value % 128`, a
-- set top bit adds 128, `value >>= 7` is `value / 128`, and a `uint64_t` wraps at `2 ^ 64`.
pub mod Unsigned
pub mod Signed
pub mod Chunks
mod Examples
use ostrich.Base.{
  ℕ, zero, suc, ◌+◌, ◌-◌, ◌*◌, ◌/◌, ◌%◌, ◌^◌, Bool, true, false, not, ◌||◌, ◌&&◌, Option, none,
  some, List, [], ◌∷◌, ◌++◌,
}
use ostrich.Base.{leb, ◌==◌, drop, if◌then◌else◌, bit_or, ltb}
use ostrich.Base.Int.{ℤ, pos, negsuc, eqb_ℤ}
use mathlib.Core.Option

-- The rounds of a loop are bounded by 10, the groups of 7 bits of a `uint64_t`.
abbrev pub rounds : ℕ
rounds = 10

unfoldable pub size_loop : ℕ → ℕ → Option ℕ
size_loop zero value = none
size_loop (suc left) value =
    let rest = size_loop left (value / 128) in
    if value / 128 == 0 then some 1 else Option.map suc rest

unfoldable pub get_uleb128_size : ℕ → Option ℕ
unfolding size_loop
get_uleb128_size value = size_loop rounds value

-- The bytes that the loop appends.
unfoldable pub encode_loop : ℕ → ℕ → Option (List ℕ)
encode_loop zero value = none
encode_loop (suc left) value =
    let rest = encode_loop left (value / 128) in
    if value / 128 == 0
    then some (value % 128 ∷ [])
    else Option.map (λ bytes. (value % 128 + 128) ∷ bytes) rest

unfoldable pub encode_uleb128 : ℕ → List ℕ → Option (List ℕ)
unfolding encode_loop
encode_uleb128 value p = Option.map (λ bytes. p ++ bytes) (encode_loop rounds value)

-- The same for an `int64_t`, in two's complement: `value & 0x7f` and `value >>= 7`.
unfoldable pub low_bits : ℤ → ℕ
low_bits (pos n) = n % 128
low_bits (negsuc n) = 127 - n % 128

unfoldable pub shift_down : ℤ → ℤ
shift_down (pos n) = pos (n / 128)
shift_down (negsuc n) = negsuc (n / 128)

-- `byte & 0x40`, for a byte below 128
abbrev pub sign_bit : ℕ → Bool
sign_bit byte = leb 64 byte

-- `is_more`, of the byte and the value that is left
unfoldable pub is_more : ℕ → ℤ → Bool
is_more byte value =
    not ((eqb_ℤ value (pos 0) && not (sign_bit byte)) || (eqb_ℤ value (negsuc 0) && sign_bit byte))

unfoldable pub signed_size_loop : ℕ → ℤ → Option ℕ
unfolding low_bits shift_down is_more
signed_size_loop zero value = none
signed_size_loop (suc left) value =
    let rest = signed_size_loop left (shift_down value) in
    if is_more (low_bits value) (shift_down value) then Option.map suc rest else some 1

unfoldable pub get_sleb128_size : ℤ → Option ℕ
unfolding signed_size_loop
get_sleb128_size value = signed_size_loop rounds value

unfoldable pub signed_encode_loop : ℕ → ℤ → Option (List ℕ)
unfolding low_bits shift_down is_more
signed_encode_loop zero value = none
signed_encode_loop (suc left) value =
    let rest = signed_encode_loop left (shift_down value) in
    if is_more (low_bits value) (shift_down value)
    then Option.map (λ bytes. (low_bits value + 128) ∷ bytes) rest
    else some (low_bits value ∷ [])

unfoldable pub encode_sleb128 : ℤ → List ℕ → Option (List ℕ)
unfolding signed_encode_loop
encode_sleb128 value p = Option.map (λ bytes. p ++ bytes) (signed_encode_loop rounds value)

-- `too_big` is the exception, and `past_end` undefined behaviour, such as a read behind the bytes.
pub data Decoded (A : Type 0) : Type 0 where
  decoded : A → ℕ → Decoded A
  too_big : Decoded A
  past_end : Decoded A

-- `slice << shift` and `slice << shift >> shift`, for a shift below 64
abbrev pub shifted : ℕ → ℕ → ℕ
shifted slice shift = slice * 2 ^ shift % 2 ^ 64

abbrev pub shifted_back : ℕ → ℕ → ℕ
shifted_back slice shift = shifted slice shift / 2 ^ shift

-- `size` counts the bytes that are read.
unfoldable pub decode_loop : List ℕ → ℕ → ℕ → ℕ → Decoded ℕ
decode_loop [] value shift size = past_end
decode_loop (byte ∷ p) value shift size =
    let slice = byte % 128 in
    let value' = (value + shifted slice shift) % 2 ^ 64 in
    let rest = decode_loop p value' (shift + 7) (size + 1) in
    if leb 64 shift || not (shifted_back slice shift == slice)
    then too_big
    else (if leb 128 byte then rest else decoded value' (size + 1))

unfoldable pub decode_uleb128 : List ℕ → Decoded ℕ
unfolding decode_loop
decode_uleb128 p = decode_loop p 0 0 0

-- `decode_SLEB128` on the 64 bits of `value`: whether they stand for a negative number, ...
abbrev pub below_zero : ℕ → Bool
below_zero value = leb (2 ^ 63) value

-- ... the number, ...
unfoldable pub to_int64 : ℕ → ℤ
to_int64 value = if below_zero value then negsuc (2 ^ 64 - 1 - value) else pos value

-- ... the test for an exception, and the bits that the sign fills, `(-1ULL) << shift`.
abbrev pub is_too_big : ℕ → ℕ → ℕ → Bool
is_too_big slice value shift =
    (leb 64 shift && not (slice == (if below_zero value then 127 else 0)))
    || (shift == 63 && (not (slice == 0) && not (slice == 127)))

abbrev pub extended : ℕ → ℕ → ℕ → ℕ
extended slice value shift =
    if ltb shift 64 && sign_bit slice
    then bit_or value ((2 ^ 64 - 1) * 2 ^ shift % 2 ^ 64)
    else value

-- A shift of 64 or more bits, which the test lets through for padding, is undefined behaviour in the
-- code: such a run ends with `past_end`.
unfoldable pub signed_decode_loop : List ℕ → ℕ → ℕ → ℕ → Decoded ℤ
unfolding to_int64
signed_decode_loop [] value shift size = past_end
signed_decode_loop (byte ∷ p) value shift size =
    let slice = byte % 128 in
    let value' = bit_or value (shifted slice shift) in
    let rest = signed_decode_loop p value' (shift + 7) (size + 1) in
    if is_too_big slice value shift
    then too_big
    else (if leb 64 shift
        then past_end
        else (if leb 128 byte
            then rest
            else decoded (to_int64 (extended slice value' (shift + 7))) (size + 1)))

unfoldable pub decode_sleb128 : List ℕ → Decoded ℤ
unfolding signed_decode_loop
decode_sleb128 p = signed_decode_loop p 0 0 0

-- One number at an offset, and what is done with it and with the offset behind it.
abbrev pub passed_on : {B : Type 0} → ℕ → (ℤ → ℕ → Decoded B) → Decoded ℤ → Decoded B
passed_on offset next (decoded value size) = next value (offset + size)
passed_on offset next too_big = too_big
passed_on offset next past_end = past_end

unfoldable pub read_at : {B : Type 0} → List ℕ → ℕ → (ℤ → ℕ → Decoded B) → Decoded B
read_at bytes offset next = passed_on offset next (decode_sleb128 (drop offset bytes))
