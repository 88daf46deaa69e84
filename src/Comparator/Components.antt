-- ===== src/Comparator/Components.antt =====
-- The comparison of two ids of one section of the dictionary.
use ostrich.Base.{ℕ, ◌+◌, ◌-◌, ◌%◌, ◌^◌, ◌≡◌, ◌<◌, ◌≤◌, refl, Bool, true, false, not}
use ostrich.Base.{arith, ltb, leb, ◌==◌, compare-cases, inl, inr, not_ltb, lt→ltb}
use ostrich.Delta.Rules.{zero_pos}
use ostrich.Base.Int.{ℤ}
use ostrich.Delta.{is_zero, is_negative, differ}
use ostrich.Comparator.{int_difference, compare_component}

below-bits : (a b : ℕ) → a < b → b < 2 ^ 31 → (a + 2 ^ 64 - b) % 2 ^ 32 ≡ a + 2 ^ 32 - b
below-bits a b h k = omega arith

above-bits : (a b : ℕ) → b ≤ a → a < 2 ^ 31 → (a + 2 ^ 64 - b) % 2 ^ 32 ≡ a - b
above-bits a b h k = omega arith

int_difference-sign :
    (a b : ℕ)
    → a < 2 ^ 31
    → b < 2 ^ 31
    → (is_zero (int_difference a b) ≡ (a == b)) × (is_negative (int_difference a b) ≡ ltb a b)
unfolding int_difference
int_difference-sign a b h k = elim (compare-cases a b) [
  | inl lt ↦
      rw (below-bits a b lt k, not_ltb (a + 2 ^ 32 - b) (2 ^ 31) (omega arith))
        (ground arith, ground arith)
  | inr (inl eq) ↦
      rw (above-bits a b (omega arith) h, lt→ltb (a - b) (2 ^ 31) (omega arith), zero_pos (a - b))
        (ground arith, ground arith)
  | inr (inr gt) ↦
      rw (above-bits a b (omega arith) h, lt→ltb (a - b) (2 ^ 31) (omega arith), zero_pos (a - b))
        (ground arith, ground arith)
]

-- Two ids of the HDT dictionary that are both shared between the roles, or both not, and lie below 2^31:
-- they are compared as numbers, although their difference is cast to an `int`.
pub compare_component-numbers :
    (max_hdt_id shared_count : ℕ) (strings : ℕ → ℕ → ℤ) (a b : ℕ)
    → a ≤ max_hdt_id
    → b ≤ max_hdt_id
    → a < 2 ^ 31
    → b < 2 ^ 31
    → ltb shared_count a ≡ ltb shared_count b
    → (is_zero (compare_component max_hdt_id shared_count strings a b) ≡ (a == b))
      × (is_negative (compare_component max_hdt_id shared_count strings a b) ≡ ltb a b)
unfolding compare_component
compare_component-numbers max_hdt_id shared_count strings a b h k small small' same =
    rw (le→leb a max_hdt_id h, le→leb b max_hdt_id k, same, same_flag (ltb shared_count b))
      (int_difference-sign a b small small')
  where
    le→leb : (m n : ℕ) → m ≤ n → leb m n ≡ true
    le→leb m n e = ground arith

    same_flag : (c : Bool) → not (differ c c) ≡ true
    same_flag true = refl
    same_flag false = refl
