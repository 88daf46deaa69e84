-- ===== src/Base/Bits.antt =====
-- `bit_or` of a number with one whose low bits are clear is their sum.
use Prim.Native.Nat.{
  ℕ, zero, suc, ◌+◌, ◌*◌, ◌/◌, ◌%◌, ◌^◌, ◌≤◌, ◌<◌, max, bit_or, digits, bit_or-bitwise,
}
use mathlib.Core.Path.{◌≡◌, refl, ◌∙◌, ap}
use mathlib.Core.Bool.{Bool, true, ◌&&◌}
use native.Mathlib.Omega.{arith}
use native.Mathlib.Nat.{pow-suc}

-- The recursion of `bit_or`, for a count of digits that is large enough.
abbrev counted_or : ℕ → ℕ → ℕ → ℕ
counted_or left a b = digits (λ b. b) max left a b

counted_or_irrelevant : (m n a b : ℕ) → a ≤ m → a ≤ n → counted_or m a b ≡ counted_or n a b
counted_or_irrelevant zero zero a b p q = refl
counted_or_irrelevant (suc m) zero zero b p q = refl
counted_or_irrelevant (suc m) zero (suc a) b p q = absurd (omega arith)
counted_or_irrelevant zero (suc n) zero b p q = refl
counted_or_irrelevant zero (suc n) (suc a) b p q = absurd (omega arith)
counted_or_irrelevant (suc m) (suc n) zero b p q = refl
counted_or_irrelevant (suc m) (suc n) (suc a) b p q =
    ap (λ (t : ℕ). t * 2 + max (suc a % 2) (b % 2))
      (counted_or_irrelevant m n (suc a / 2) (b / 2) (omega arith) (omega arith))

zero-bit_or : (b : ℕ) → bit_or 0 b ≡ b
zero-bit_or b = bit_or-bitwise 0 b

-- An even second number leaves the lowest digit of the first.
bit_or-even : (a c : ℕ) → bit_or a (c * 2) ≡ bit_or (a / 2) c * 2 + a % 2
bit_or-even zero c = omega (arith, zero-bit_or (c * 2), zero-bit_or c)
bit_or-even (suc a) c = omega (
  arith,
  bit_or-bitwise (suc a) (c * 2),
  half,
  counted_or_irrelevant a (suc a / 2) (suc a / 2) c (omega arith) (omega arith),
  bit_or-bitwise (suc a / 2) c,
)
  where
    half : counted_or a (suc a / 2) (c * 2 / 2) ≡ counted_or a (suc a / 2) c
    half = ap (λ (t : ℕ). counted_or a (suc a / 2) t) (omega arith)

pub bit_or_high : (k a q : ℕ) → a < 2 ^ k → bit_or a (q * 2 ^ k) ≡ a + q * 2 ^ k
bit_or_high zero zero q h = zero-bit_or (q * 2 ^ 0) ∙ omega arith
bit_or_high zero (suc a) q h = absurd (omega arith)
bit_or_high (suc k) a q h =
    ap (λ (t : ℕ). bit_or a t) shift_out
    ∙ bit_or-even a (q * 2 ^ k)
    ∙ omega (arith, bit_or_high k (a / 2) q (omega (arith, pow-suc 2 k)), shift_out)
  where
    shift_out : q * 2 ^ suc k ≡ q * 2 ^ k * 2
    shift_out = omega (arith, ap (λ (t : ℕ). q * t) (pow-suc 2 k))

-- Two numbers that are shifted by `k` bits, the first with low bits of its own.
pub bit_or_shifted :
    (k a q r : ℕ) → a < 2 ^ k → bit_or (a + q * 2 ^ k) (r * 2 ^ k) ≡ a + bit_or q r * 2 ^ k
bit_or_shifted zero a q r h = (λ i. bit_or (no_shift i) (no_shift' i)) ∙ omega arith
  where
    no_shift : a + q * 2 ^ 0 ≡ q
    no_shift = omega arith

    no_shift' : r * 2 ^ 0 ≡ r
    no_shift' = omega arith
bit_or_shifted (suc k) a q r h =
    ap (λ (t : ℕ). bit_or (a + q * 2 ^ suc k) t) (shift_out r)
    ∙ bit_or-even (a + q * 2 ^ suc k) (r * 2 ^ k)
    ∙ omega (
      arith,
      bit_or_shifted k (a / 2) q r (omega (arith, pow-suc 2 k)),
      ap (λ (t : ℕ). bit_or t (r * 2 ^ k)) half,
      shift_out q,
      shift_out (bit_or q r),
    )
  where
    shift_out : (n : ℕ) → n * 2 ^ suc k ≡ n * 2 ^ k * 2
    shift_out n = omega (arith, ap (λ (t : ℕ). n * t) (pow-suc 2 k))

    half : (a + q * 2 ^ suc k) / 2 ≡ a / 2 + q * 2 ^ k
    half = omega (arith, shift_out q)

-- A test that every number below a bound passes, by evaluation.
abbrev pub passes_below : ℕ → (ℕ → Bool) → Bool
passes_below zero test = true
passes_below (suc n) test = test n && passes_below n test

pub true_below :
    (n : ℕ) (test : ℕ → Bool) → passes_below n test ≡ true → (k : ℕ) → k < n → test k ≡ true
true_below zero test e k h = absurd (omega arith)
true_below (suc n) test e k h = grind (arith, true_below n test)
