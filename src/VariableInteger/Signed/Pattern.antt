-- ===== src/VariableInteger/Signed/Pattern.antt =====
-- The 64 bits that stand for a number, group by group.
use ostrich.Base.{ℕ, ◌+◌, ◌-◌, ◌*◌, ◌%◌, ◌^◌, ◌≡◌, ◌<◌, ◌≤◌, ap, ◌∙◌, true, false}
use ostrich.Base.{arith}
use ostrich.Base.Int.{ℤ, pos, negsuc}
use native.Mathlib.Nat.{mul-le-mul_right, pow-le-pow_right}
use ostrich.VariableInteger.{low_bits, shift_down, is_more}
use ostrich.VariableInteger.{to_int64}
use ostrich.VariableInteger.Unsigned.{power_step, groups}

-- `n` of a number `n`, and of `- n - 1`.
abbrev pub magnitude : ℤ → ℕ
magnitude (pos n) = n
magnitude (negsuc n) = n

-- The 64 bits of a number whose groups stand from a shift on, above the bits `low`.
abbrev pub pattern : ℤ → ℕ → ℕ → ℕ
pattern (pos n) shift low = low + n * 2 ^ shift
pattern (negsuc n) shift low = low + (2 ^ 64 - (n + 1) * 2 ^ shift)

pub to_negative : (n : ℕ) → n < 2 ^ 63 → to_int64 (2 ^ 64 - 1 - n) ≡ negsuc n
unfolding to_int64
to_negative n h = ground arith

pub to_int64-pattern : (z : ℤ) → magnitude z < 2 ^ 63 → to_int64 (pattern z 0 0) ≡ z
unfolding to_int64
to_int64-pattern (pos n) h = ap to_int64 whole ∙ ground arith
  where
    whole : 0 + n * 2 ^ 0 ≡ n
    whole = omega arith
to_int64-pattern (negsuc n) h = ap to_int64 whole ∙ to_negative n h
  where
    whole : 0 + (2 ^ 64 - (n + 1) * 2 ^ 0) ≡ 2 ^ 64 - 1 - n
    whole = omega arith

pub is_last : (z : ℤ) → is_more (low_bits z) (shift_down z) ≡ false → magnitude z < 64
unfolding is_more low_bits shift_down
is_last (pos n) h = ground arith
is_last (negsuc n) h = ground arith

pub goes_on : (z : ℤ) → is_more (low_bits z) (shift_down z) ≡ true → 64 ≤ magnitude z
unfolding is_more low_bits shift_down
goes_on (pos n) h = ground arith
goes_on (negsuc n) h = ground arith

pub small_power : (shift : ℕ) → shift ≤ 56 → 2 ^ shift ≤ 2 ^ 56
small_power shift s = pow-le-pow_right (omega arith) s

pub group_bound : (g shift : ℕ) → g < 128 → shift ≤ 56 → g * 2 ^ shift < 2 ^ 63
group_bound g shift h s =
    let above : g ≤ 127 = omega arith in
    omega (arith, mul-le-mul_right (2 ^ shift) above, small_power shift s)

pub complement : (r power : ℕ) → r < 128 → (127 - r) * power + r * power ≡ 127 * power
complement r power h = omega (arith, ap (λ (t : ℕ). t * power) whole)
  where
    whole : 127 - r + r ≡ 127
    whole = omega arith

-- One group less, which has become low bits.
pub pattern-shift_down :
    (z : ℤ) (shift low : ℕ)
    → shift ≤ 56
    → magnitude z * 2 ^ shift < 2 ^ 63
    → pattern (shift_down z) (shift + 7) (low + low_bits z * 2 ^ shift) ≡ pattern z shift low
unfolding low_bits shift_down
pattern-shift_down (pos n) shift low s h = omega (arith, groups n shift)
pattern-shift_down (negsuc n) shift low s h = omega (
  arith,
  groups n shift,
  power_step shift,
  small_power shift s,
  complement (n % 128) (2 ^ shift) (omega arith),
)
