-- ===== src/Delta/Examples.antt =====
-- The iterators at small deltas over triples that are numbers.
use ostrich.Base.{ℕ, ◌||◌, Bool, List, [], ◌∷◌, arith, ◌==◌}
use ostrich.Base.Int.{ℤ, sub_ℕ}
use ostrich.Delta.{Delta, drain, merge_next, case2_next, plain_next, snapshot_next}
use ostrich.Delta.{addition_of, deletion_of}
use ostrich.Delta.Rules.{Ranks, sub-is_zero, sub-is_negative}
use ostrich.Delta.Versions.{Between, Changes, apply, contains}
use ostrich.Delta.Versions.{
  merge_next-Between, case2_next-Between, plain_next-Between, snapshot_next-Between,
}

abbrev compare : ℕ → ℕ → ℤ
compare a b = sub_ℕ a b

abbrev ranks : Ranks compare
ranks = record { rank = λ n. n; zero_law = sub-is_zero; negative_law = sub-is_negative }

-- A version that has 3 and 8 only; the first delta adds 2 and removes 3, the second adds 3 again and
-- removes 8.
abbrev version : ℕ → Bool
version r = r == 3 || r == 8

abbrev first : List (Delta ℕ)
first = addition_of 2 ∷ deletion_of 3 ∷ []

abbrev second : List (Delta ℕ)
second = addition_of 3 ∷ deletion_of 8 ∷ []

-- A delta from that version that removes 3 and adds 9.
abbrev other : List (Delta ℕ)
other = deletion_of 3 ∷ addition_of 9 ∷ []

first-Changes : Changes compare ranks first version
first-Changes r = ground arith

second-Changes : Changes compare ranks second (apply compare ranks first version)
second-Changes r = ground arith

other-Changes : Changes compare ranks other version
other-Changes r = ground arith

merge_next-Between_example :
    Between compare ranks
      (drain (merge_next compare) 5 (first, second))
      version
      (apply compare ranks second (apply compare ranks first version))
merge_next-Between_example =
    merge_next-Between compare ranks first second version (omega arith) (omega arith) first-Changes
      second-Changes

case2_next-Between_example :
    Between compare ranks
      (drain (case2_next compare) 5 (first, other))
      (apply compare ranks first version)
      (apply compare ranks other version)
case2_next-Between_example =
    case2_next-Between compare ranks first other version (omega arith) (omega arith) first-Changes
      other-Changes

plain_next-Between_example :
    Between compare ranks
      (drain (λ (m1, m2). plain_next compare m1 m2) 6 (1 ∷ 3 ∷ 4 ∷ [], 3 ∷ 6 ∷ []))
      (contains compare ranks (1 ∷ 3 ∷ 4 ∷ []))
      (contains compare ranks (3 ∷ 6 ∷ []))
plain_next-Between_example =
    plain_next-Between compare ranks (1 ∷ 3 ∷ 4 ∷ []) (3 ∷ 6 ∷ []) (omega arith) (omega arith)

snapshot_next-Between_example :
    Between compare ranks
      (drain (λ (m1, m2). snapshot_next compare m1 m2) 6 (3 ∷ 4 ∷ [], 3 ∷ 4 ∷ 6 ∷ []))
      (contains compare ranks (3 ∷ 4 ∷ []))
      (contains compare ranks (3 ∷ 4 ∷ 6 ∷ []))
snapshot_next-Between_example =
    snapshot_next-Between compare ranks (3 ∷ 4 ∷ []) (3 ∷ 4 ∷ 6 ∷ []) (omega arith) (omega arith)
