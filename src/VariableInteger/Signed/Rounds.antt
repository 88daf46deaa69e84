-- ===== src/VariableInteger/Signed/Rounds.antt =====
-- What a round of `decode_SLEB128` makes of a byte.
use ostrich.Base.{ℕ, ◌+◌, ◌-◌, ◌*◌, ◌%◌, ◌^◌, ◌≡◌, ◌<◌, ◌≤◌, refl, ap, true, false, List, ◌∷◌}
use ostrich.Base.{arith, leb, lt→ltb, ◌==◌, ==_iff}
use ostrich.Base.Bits.{bit_or_high, true_below}
use native.Mathlib.Nat.{mod-eq_of_lt}
use ostrich.VariableInteger.{signed_decode_loop, to_int64, is_too_big, extended, decoded}
use ostrich.VariableInteger.Unsigned.{low_group, shifted-below}
use ostrich.VariableInteger.Signed.Pattern.{group_bound}

pub no_exception : (slice low shift : ℕ) → shift ≤ 56 → is_too_big slice low shift ≡ false
no_exception slice low shift s = ground arith

pub not_leb : (a b : ℕ) → b < a → leb a b ≡ false
not_leb a b h = ground arith

pub le→leb : (a b : ℕ) → a ≤ b → leb a b ≡ true
le→leb a b h = ground arith

pub decode_more :
    (g low shift size : ℕ) (p : List ℕ)
    → g < 128
    → shift ≤ 56
    → low < 2 ^ shift
    → signed_decode_loop ((g + 128) ∷ p) low shift size
      ≡ signed_decode_loop p (low + g * 2 ^ shift) (shift + 7) (size + 1)
unfolding signed_decode_loop
decode_more g low shift size p h s l =
    let fits : g * 2 ^ shift < 2 ^ 64 = omega (arith, group_bound g shift h s) in
    rw
      (
        low_group g h,
        shifted-below g shift fits,
        bit_or_high shift low g l,
        no_exception g low shift s,
        not_leb 64 shift (omega arith),
        le→leb 128 (g + 128) (omega arith),
      )
      refl

-- The bits from `t` on, for each `t` below 64.
pub sign_mask : (t : ℕ) → t < 64 → (2 ^ 64 - 1) * 2 ^ t % 2 ^ 64 ≡ (2 ^ (64 - t) - 1) * 2 ^ t
sign_mask t h =
    (==_iff _ _).0
      (true_below 64 (λ k. (2 ^ 64 - 1) * 2 ^ k % 2 ^ 64 == (2 ^ (64 - k) - 1) * 2 ^ k) refl t h)

pub sign_mask_value : (t : ℕ) → t < 64 → (2 ^ (64 - t) - 1) * 2 ^ t ≡ 2 ^ 64 - 2 ^ t
sign_mask_value t h =
    (==_iff _ _).0 (true_below 64 (λ k. (2 ^ (64 - k) - 1) * 2 ^ k == 2 ^ 64 - 2 ^ k) refl t h)

-- The sign of the last byte fills the bits above it.
pub extended_negative :
    (slice value t : ℕ)
    → 64 ≤ slice
    → t < 64
    → value < 2 ^ t
    → extended slice value t ≡ value + (2 ^ 64 - 2 ^ t)
extended_negative slice value t n h l =
    rw (lt→ltb t 64 h, le→leb 64 slice n, sign_mask t h, bit_or_high t value (2 ^ (64 - t) - 1) l)
      (ap (λ (k : ℕ). value + k) (sign_mask_value t h))

pub extended_positive : (slice value t : ℕ) → slice < 64 → extended slice value t ≡ value
extended_positive slice value t n = ground arith

-- The last byte, with the groups of a number at a shift.
unfoldable pub Reads : ℕ → ℕ → ℕ → ℕ → ℕ → Type 0
Reads byte low shift size total =
    (p : List ℕ)
    → signed_decode_loop (byte ∷ p) low shift size ≡ decoded (to_int64 total) (size + 1)

pub byte_inner :
    (g low shift size : ℕ)
    → g < 128
    → shift ≤ 56
    → low < 2 ^ shift
    → Reads g low shift size (extended g (low + g * 2 ^ shift) (shift + 7))
unfolding Reads signed_decode_loop
byte_inner g low shift size h s l p =
    let fits : g * 2 ^ shift < 2 ^ 64 = omega (arith, group_bound g shift h s) in
    rw
      (
        mod-eq_of_lt h,
        shifted-below g shift fits,
        bit_or_high shift low g l,
        no_exception g low shift s,
        not_leb 64 shift (omega arith),
        not_leb 128 g h,
      )
      refl

-- The tenth byte holds one bit.
pub byte_tenth_positive : (low size : ℕ) → low < 2 ^ 63 → Reads 0 low 63 size (low + 0)
unfolding Reads signed_decode_loop
byte_tenth_positive low size l p = rw (bit_or_high 63 low 0 l) refl

pub byte_tenth_negative : (low size : ℕ) → low < 2 ^ 63 → Reads 127 low 63 size (low + 2 ^ 63)
unfolding Reads signed_decode_loop
byte_tenth_negative low size l p = rw (bit_or_high 63 low 1 l) refl
