-- ===== src/PatchTree/Store.antt =====
-- `insertAdditionSingle` and `insertDeletionSingle` of src/main/cpp/patch/triple_store.cc: what is
-- written for a triple. The three stores of the indexes get the same record under the same key; of a
-- deletion the index in SPO order gets the value, and the other two its reduced form.
use ostrich.Base.{ℕ, ◌+◌, Bool, true, false, Option, none, some, ◌>>=◌, if◌then◌else◌}
use ostrich.Positions.{PatchPositions}
use ostrich.Triple.{Triple, TripleVersion}
use ostrich.Counts.{HashDb, increment_addition_counts}
use ostrich.AdditionValue
use ostrich.AdditionValue.{AdditionValue, set_max_patch_id}
use ostrich.DeletionValue
use ostrich.DeletionValue.{DeletionValue, to_reduced}

pub record AdditionWrite : Type 0 where
  pub addition_key : Triple
  pub addition : AdditionValue

pub record DeletionWrite : Type 0 where
  pub deletion_key : Triple
  pub deletion : DeletionValue
  pub reduced : DeletionValue

-- With `to_reduced()` before the insertion.
unfoldable pub insert_deletion : Triple → DeletionValue → Option DeletionWrite
insert_deletion key v = do
  r ← to_reduced true v
  some (record { deletion_key = key; deletion = v; reduced = r })

-- `if (has_changed) { ... }`
unfoldable pub insert_deletion_if : Bool → Triple → DeletionValue → Option (Option DeletionWrite)
unfolding insert_deletion
insert_deletion_if false key v = some none
insert_deletion_if true key v = do w ← insert_deletion key v; some (some w)

unfoldable pub insert_addition_if : Bool → Triple → AdditionValue → Option AdditionWrite
insert_addition_if false key v = none
insert_addition_if true key v = some (record { addition_key = key; addition = v })

-- The value to start from: the one in the store, `none` where there is none or `ignore_existing` holds.
unfoldable pub addition_base : ℕ → Option AdditionValue → AdditionValue
addition_base patch_id none = AdditionValue.create patch_id
addition_base patch_id (some v) = set_max_patch_id (patch_id + 1) v

unfoldable pub deletion_base : ℕ → Option DeletionValue → DeletionValue
deletion_base patch_id none = DeletionValue.create patch_id
deletion_base patch_id (some v) = record v { max_patch_id = patch_id + 1 }

unfoldable pub set_local_if : Bool → ℕ → AdditionValue → Option (AdditionValue × Bool)
set_local_if true patch_id v = AdditionValue.set_local_change patch_id v
set_local_if false patch_id v = some (v, false)

module _ {C : Type 0} (counts_db : HashDb C TripleVersion ℕ) where
  unfoldable pub insert_addition_single :
      Triple → ℕ → Bool → Option AdditionValue → C → Option (AdditionWrite × C)
  unfolding addition_base set_local_if
  insert_addition_single key patch_id local_change existing counts = do
    (v, added) ← AdditionValue.add patch_id (addition_base patch_id existing)
    (v', set) ← set_local_if local_change patch_id v
    some (
      record { addition_key = key; addition = v' },
      if local_change then counts else increment_addition_counts counts_db patch_id key counts,
    )

unfoldable pub insert_deletion_single :
    Triple → PatchPositions → ℕ → Bool → Option DeletionValue → Option DeletionWrite
unfolding deletion_base insert_deletion
insert_deletion_single key positions patch_id local_change existing = do
  (v, added) ←
      DeletionValue.add true patch_id local_change positions (deletion_base patch_id existing)
  insert_deletion key v
