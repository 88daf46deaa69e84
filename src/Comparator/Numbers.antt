-- ===== src/Comparator/Numbers.antt =====
-- A dictionary that compares ids as numbers, for the tests: its comparators order the keys.
use ostrich.Base.{arith}
use ostrich.Base.Int.{ℤ, sub_ℕ}
use ostrich.Delta.Rules.{sub-is_zero, sub-is_negative}
use ostrich.Triple.{Triple, ComponentOrder}
use ostrich.Comparator.{Dictionary, compare_keys}
use ostrich.Comparator.Keys.{TermRanks, DictionaryRanks, KeyRanks, compare_keys-KeyRanks}

abbrev pub numbers : Dictionary
numbers = record { subjects = sub_ℕ; predicates = sub_ℕ; objects = sub_ℕ }

abbrev pub number_ranks : TermRanks sub_ℕ
number_ranks = record {
  rank = λ a. a;
  bounded = λ a h. ground arith;
  zero_law = λ a b h k. sub-is_zero a b;
  negative_law = λ a b h k. sub-is_negative a b;
  injective = λ a b h k e. e;
}

abbrev pub numbers-DictionaryRanks : DictionaryRanks numbers
numbers-DictionaryRanks = record {
  subjects = number_ranks;
  predicates = number_ranks;
  objects = number_ranks;
}

-- The comparator of an index.
abbrev pub compare_numbers : ComponentOrder → Triple → Triple → ℤ
compare_numbers o = compare_keys o numbers

abbrev pub number_keys : (o : ComponentOrder) → KeyRanks (compare_keys o numbers)
number_keys o = compare_keys-KeyRanks numbers numbers-DictionaryRanks o
