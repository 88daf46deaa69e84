-- ===== src/Delta/Rules.antt =====
-- The merges that the iterators compute: what they make of an element of one source or of both.
use ostrich.Base.{ℕ, ◌≡◌, refl, Bool, true, false, Option, none, some}
use ostrich.Base.{arith, zero, suc, ◌-◌, ◌==◌, ltb, if◌then◌else◌}
use ostrich.Base.Int.{ℤ, pos, sub_ℕ}
use ostrich.Delta.{Delta, is_zero, is_negative, differ, reverted, deletion_of, addition_of}
use ostrich.Delta.Merge.{Merging}

-- What a comparator has to do: order the triples by a rank, the same for equal triples only.
pub record Ranks {T : Type 0} (compare : T → T → ℤ) : Type 0 where
  pub rank : T → ℕ
  pub zero_law : (a b : T) → is_zero (compare a b) ≡ (rank a == rank b)
  pub negative_law : (a b : T) → is_negative (compare a b) ≡ ltb (rank a) (rank b)

-- The comparison of numbers by their difference.
pub zero_pos : (n : ℕ) → is_zero (pos n) ≡ (n == 0)
zero_pos zero = refl
zero_pos (suc n) = ground arith

pub sub-is_zero : (a b : ℕ) → is_zero (sub_ℕ a b) ≡ (a == b)
sub-is_zero a b = ground (arith, zero_pos (a - b))

pub sub-is_negative : (a b : ℕ) → is_negative (sub_ℕ a b) ≡ ltb a b
sub-is_negative a b = ground arith

module _ {T : Type 0} (compare : T → T → ℤ) (k : Ranks compare) where
  abbrev pub delta_rank : Delta T → ℕ
  delta_rank d = k.rank d.item

  -- The delta over two versions from the deltas between them: opposite changes cancel out.
  abbrev pub opposite_cancel : Delta T → Delta T → Option (Delta T)
  opposite_cancel a b = if differ a.addition b.addition then none else some b

  cancel-rank :
      (d : Bool) (b c : Delta T)
      → (if d then none else some b) ≡ some c
      → delta_rank c ≡ delta_rank b
  cancel-rank true b c e = cc
  cancel-rank false b c e = cc

  pub opposite_cancel-rank :
      (a b c : Delta T) → opposite_cancel a b ≡ some c → delta_rank c ≡ delta_rank b
  opposite_cancel-rank a b c e = cancel-rank (differ a.addition b.addition) b c e

  pub never-rank : (m : ℕ) (c : Delta T) → none ≡ some c → delta_rank c ≡ m
  never-rank m c e = cc

  abbrev pub merging : Merging (Delta T) (Delta T) (Delta T)
  merging = record {
    rank1 = delta_rank;
    rank2 = delta_rank;
    rank = delta_rank;
    only1 = λ a. a;
    only2 = λ b. b;
    both = opposite_cancel;
    rank-only1 = λ a. refl;
    rank-only2 = λ b. refl;
    rank-both = opposite_cancel-rank;
  }

  -- The delta from the version of the first source to the version of the second, over one snapshot.
  abbrev pub reverting : Merging (Delta T) (Delta T) (Delta T)
  reverting = record {
    rank1 = delta_rank;
    rank2 = delta_rank;
    rank = delta_rank;
    only1 = reverted;
    only2 = λ b. b;
    both = λ a b. none;
    rank-only1 = λ a. refl;
    rank-only2 = λ b. refl;
    rank-both = λ a b c e. never-rank (delta_rank b) c e;
  }

  -- The delta between two sorted sets of triples.
  abbrev pub difference : Merging T T (Delta T)
  difference = record {
    rank1 = k.rank;
    rank2 = k.rank;
    rank = delta_rank;
    only1 = deletion_of;
    only2 = addition_of;
    both = λ a b. none;
    rank-only1 = λ a. refl;
    rank-only2 = λ b. refl;
    rank-both = λ a b c e. never-rank (k.rank b) c e;
  }
