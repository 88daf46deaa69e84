-- ===== src/Comparator/Examples.antt =====
-- The comparators with a dictionary that orders the terms by their ids.
use ostrich.Base.{◌^◌, ℕ, ◌≡◌, refl, not, ◌&&◌, ◌==◌, ltb, arith}
use ostrich.Base.Int.{ℤ, pos, sub_ℕ}
use ostrich.Triple.{Triple, triple, pos_order, pattern_match_triple}
use ostrich.Delta.{is_zero, is_negative}
use ostrich.Delta.Rules.{sub-is_zero}
use ostrich.PatchTree.Visits.{is_positive}
use ostrich.Comparator.{Dictionary, compare_keys, upper_bound, compare_component}
use ostrich.Comparator.Components.{compare_component-numbers}
use ostrich.Comparator.Keys.{Orders, key_rank, keys-Orders}
use ostrich.Comparator.Numbers.{numbers, numbers-DictionaryRanks}
use ostrich.Comparator.Range.{compare_keys_range, TellsAll}

abbrev by_ids : Dictionary
by_ids = record {
  subjects = λ a b. sub_ℕ a b;
  predicates = λ a b. sub_ℕ a b;
  objects = λ a b. sub_ℕ a b;
}

by_ids-TellsAll : TellsAll by_ids
by_ids-TellsAll =
    (λ a b h k. sub-is_zero a b, λ a b h k. sub-is_zero a b, λ a b h k. sub-is_zero a b)

abbrev pattern : Triple
pattern = triple 0 4 0

compare_keys_range_example :
    (not (is_positive (compare_keys pos_order by_ids pattern (triple 9 4 7)))
      && not (is_negative (compare_keys pos_order by_ids (upper_bound pattern) (triple 9 4 7))))
    ≡ pattern_match_triple (triple 9 4 7) pattern
compare_keys_range_example =
    compare_keys_range pos_order by_ids pattern (triple 9 4 7) by_ids-TellsAll
      (tt, (omega arith, omega arith), tt)
      ((omega arith, omega arith), (omega arith, omega arith), (omega arith, omega arith)) refl

abbrev strings : ℕ → ℕ → ℤ
strings a b = pos 1

compare_component-numbers_example :
    (is_zero (compare_component (2 ^ 40) 10 strings 20 30) ≡ (20 == 30))
    × (is_negative (compare_component (2 ^ 40) 10 strings 20 30) ≡ ltb 20 30)
compare_component-numbers_example =
    compare_component-numbers (2 ^ 40) 10 strings 20 30 (omega arith) (omega arith) (omega arith)
      (omega arith) refl

keys-Orders_example :
    Orders
      (compare_keys pos_order numbers (triple 5 4 6) (triple 3 4 7))
      (key_rank pos_order numbers-DictionaryRanks (triple 5 4 6))
      (key_rank pos_order numbers-DictionaryRanks (triple 3 4 7))
keys-Orders_example =
    keys-Orders numbers numbers-DictionaryRanks pos_order (triple 5 4 6) (triple 3 4 7) refl refl
