-- ===== src/Patch/Coded.antt =====
-- An order of the triples by one number, which different triples do not share.
use ostrich.Base.{ℕ, ◌+◌, ◌*◌, ◌≡◌, ◌<◌, ◌≤◌, ap}
use ostrich.Base.{arith, inl, inr, compare-cases}
use native.Mathlib.Nat.{mul-le-mul}
use ostrich.Base.Int.{ℤ, sub_ℕ}
use ostrich.Triple.{Triple}
use ostrich.Delta.Rules.{Ranks, sub-is_zero, sub-is_negative}

-- `(a + b)² + a`
abbrev pub pair : ℕ → ℕ → ℕ
pair a b = (a + b) * (a + b) + a

pair-lt : (a s t : ℕ) → a ≤ s → s < t → s * s + a < t * t
pair-lt a s t h k = omega (arith, mul-le-mul k k)

pair-equal : (a b c d : ℕ) → pair a b ≡ pair c d → (a ≡ c) × (b ≡ d)
pair-equal a b c d e = elim (compare-cases (a + b) (c + d)) [
  | inl lt ↦ absurd (omega (arith, pair-lt a (a + b) (c + d) (omega arith) lt))
  | inr (inl eq) ↦
      (omega (arith, ap (λ (n : ℕ). n * n) eq), omega (arith, ap (λ (n : ℕ). n * n) eq))
  | inr (inr gt) ↦ absurd (omega (arith, pair-lt c (c + d) (a + b) (omega arith) gt))
]

-- The number of a triple.
abbrev pub code : Triple → ℕ
code t = pair t.subject (pair t.predicate t.object)

abbrev pub compare_codes : Triple → Triple → ℤ
compare_codes a b = sub_ℕ (code a) (code b)

abbrev pub codes : Ranks compare_codes
codes = record {
  rank = code;
  zero_law = λ a b. sub-is_zero (code a) (code b);
  negative_law = λ a b. sub-is_negative (code a) (code b);
}
