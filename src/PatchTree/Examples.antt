-- ===== src/PatchTree/Examples.antt =====
-- The insertion of a small patch.
use ostrich.Base.{ℕ, suc, ◌≡◌, refl, Bool, true, false, Option, some, List, [], ◌∷◌, arith}
use mathlib.Core.Path.{subst}
use ostrich.Base.{none}
use ostrich.DeletionValue.{Element}
use ostrich.Base.Int.{pos, leb_ℤ, ◌+ℤ◌, ◌-ℤ◌}
use ostrich.Triple.{Triple, TripleVersion, triple}
use ostrich.AdditionValue
use ostrich.AdditionValue.{AdditionValue, int_max, set_max_patch_id}
use ostrich.DeletionValue
use ostrich.DeletionValue.{DeletionValue}
use ostrich.Counts.{no_counters, increment_addition_counts}
use ostrich.Counts.Functions.{positions_db, counts_db}
use ostrich.Interval
use ostrich.Positions
use ostrich.Positions.{no_positions}
use ostrich.Patch.{element_of}
use ostrich.Triple.{spo}
use ostrich.Comparator.Numbers.{compare_numbers, number_keys}
use ostrich.PatchTree.Visits.{Sources, Visit}
use ostrich.PatchTree.Branches.{count_first, Work, carried, step_addition, Outcome}
use ostrich.PatchTree.Append.{append_loop}
use ostrich.PatchTree.Order.{AreSorted, TakeApart, size}
use ostrich.PatchTree.Loop.{handle_all, append_loop-TakeApart}
use ostrich.PatchTree.Changes.{Carries, CanAdd}
use ostrich.PatchTree.Carried.{after_addition, FirstIsDefined, step_addition-Carries}
use ostrich.PatchTree.Turns.{last_addition}

-- A triple that patch 1 adds and patch 3 deletes, and its deletion.
abbrev added_value : AdditionValue
added_value = record {
  patches = record { max = int_max; intervals = (1, 3) ∷ [] };
  local_changes = record { max = int_max; intervals = [] };
  max_patch_id = 4;
}

abbrev deleted_value : DeletionValue
deleted_value = record {
  elements = record {
    patches = record { max = int_max; intervals = (3, int_max) ∷ [] };
    local_changes = record { max = int_max; intervals = (3, int_max) ∷ [] };
    position_vec = (3, no_positions) ∷ [];
  };
  max_patch_id = 4;
}

abbrev t : ℕ → Triple
t s = triple s 1 1

abbrev sources : Sources
sources = record {
  patch = element_of (t 1) true ∷ element_of (t 2) true ∷ element_of (t 4) false ∷ [];
  deletions = (t 2, deleted_value) ∷ [];
  additions = (t 2, added_value) ∷ (t 3, added_value) ∷ [];
  last = triple 0 0 0;
}

sources-AreSorted : AreSorted (compare_numbers spo) (number_keys spo) 1 sources
sources-AreSorted = (
  (omega arith, (omega arith, (omega arith, tt))),
  (omega arith, tt),
  (omega arith, (omega arith, tt)),
)

abbrev work : Work (ℕ → Option ℕ) (TripleVersion → Option ℕ)
work = record { limit = 4; counters = no_counters positions_db; counts = counts_db.empty }

append_loop-TakeApart_example :
    (vs : List Visit) × TakeApart (compare_numbers spo) (number_keys spo) 1 sources vs
    × (append_loop positions_db counts_db 3 4
          (compare_numbers spo)
          (suc (size (compare_numbers spo) (number_keys spo) sources))
          sources
          work
        ≡ handle_all positions_db counts_db 3 4 vs work)
append_loop-TakeApart_example =
    append_loop-TakeApart positions_db counts_db 3 4 (compare_numbers spo) (number_keys spo) sources
      work sources-AreSorted

first_patch : leb_ℤ (AdditionValue.get_patch_id_at (pos 0) added_value) (pos 4) ≡ true
unfolding AdditionValue.get_patch_id_at ◌+ℤ◌ ◌-ℤ◌ Interval.get_element_at
first_patch = refl

added-CanAdd : CanAdd 4 added_value
added-CanAdd = ((omega arith, omega arith, omega arith, tt), omega arith, omega arith)

first-defined : FirstIsDefined positions_db counts_db 4 (t 2) added_value work
unfolding count_first carried AdditionValue.add AdditionValue.get_patch_id_at ◌+ℤ◌ ◌-ℤ◌
    AdditionValue.is_patch_id DeletionValue.is_in Interval.get_element_at Interval.is_in
    Interval.addition ostrich.Ordered.insert
first-defined r run counts =
    subst
      (λ x.
        (counts' : TripleVersion → Option ℕ) × (count_first counts_db (t 2) x.0 counts
          ≡ some counts'))
      (inside run) (_, refl)
  where
    inside : {a b : AdditionValue × Bool} → some a ≡ some b → a ≡ b
    inside e = cc

step_addition-Carries_example :
    (o : Outcome (ℕ → Option ℕ) (TripleVersion → Option ℕ)) × (step_addition positions_db counts_db
        4
        (t 2, added_value)
        work
      ≡ some o)
    × (o.deleted ≡ none)
    × Carries 4 added_value.patches (after_addition added_value o.added).patches
step_addition-Carries_example =
    step_addition-Carries positions_db counts_db 4 (t 2) added_value work added-CanAdd tt tt
      first_patch first-defined

abbrev last : Element
last = record { patch_id = pos 3; local_change = true; positions = no_positions }

last_addition_at : last_addition 4 added_value ≡ pos 2
unfolding AdditionValue.get_patch_id_at AdditionValue.get_size ◌+ℤ◌ ◌-ℤ◌ Interval.get_size
    Interval.get_element_at set_max_patch_id
last_addition_at = refl

abbrev counted_first : TripleVersion → Option ℕ
counted_first = increment_addition_counts counts_db 0 (t 2) counts_db.empty
