-- ===== src/PatchTree/Branches.antt =====
-- The branches of the loop of `append_unsafe`: what a round does with the elements it takes. `none` is
-- the undefined behaviour of the values.
use ostrich.Base.{ℕ, ◌+◌, Bool, true, false, not, ◌||◌, Option, none, some, ◌>>=◌, if◌then◌else◌}
use ostrich.Base.Int.{ℤ, pos, ◌-ℤ◌, leb_ℤ, ltb_ℤ}
use ostrich.Positions.{PatchPositions, no_positions, same_positions}
use ostrich.Triple.{Triple, TripleVersion, PatchElement}
use ostrich.Counts.{HashDb, Counters, positions, increment_addition_counts}
use ostrich.AdditionValue
use ostrich.AdditionValue.{AdditionValue, set_max_patch_id}
use ostrich.DeletionValue
use ostrich.DeletionValue.{DeletionValue}
use ostrich.Delta.{differ}
use ostrich.PatchTree.Visits.{Deletion, Addition}
use ostrich.PatchTree.Store.{
  AdditionWrite, DeletionWrite, insert_deletion, insert_deletion_if, insert_addition_if,
  insert_addition_single, insert_deletion_single, set_local_if,
}

-- What the loop keeps beside its cursors: the limit of the one object `addition_value`, the counters of
-- the positions, and the counts of the additions.
pub record Work (S C : Type 0) : Type 0 where
  pub limit : ℕ
  pub counters : Counters S
  pub counts : C

-- What a round has written, and what it leaves.
pub record Outcome (S C : Type 0) : Type 0 where
  pub added : Option AdditionWrite
  pub deleted : Option DeletionWrite
  pub work : Work S C

-- `deserialize` puts the value into an object that keeps its limit.
abbrev pub loaded_addition : ℕ → AdditionValue → AdditionValue
loaded_addition limit v = set_max_patch_id limit v

abbrev pub loaded_deletion : ℕ → DeletionValue → DeletionValue
loaded_deletion limit v = record v { max_patch_id = limit }

-- `is_local_change` of a patch id that may be -1.
abbrev pub is_local_at : ℤ → AdditionValue → Option Bool
is_local_at patch_id v = DeletionValue.is_in patch_id v.local_changes

module _ {S : Type 0} (positions_db : HashDb S ℕ ℕ) where
  -- `local ? PatchPositions() : Patch::positions(triple, ...)`
  abbrev pub positions_unless : Bool → Triple → Counters S → PatchPositions × Counters S
  positions_unless true t c = (no_positions, c)
  positions_unless false t c = positions positions_db t c

module _ {C : Type 0} (counts_db : HashDb C TripleVersion ℕ) where
  -- `if (!local) increment_addition_counts(patch_id, key);`
  abbrev pub count_unless : Bool → ℕ → Triple → C → C
  count_unless true patch_id t m = m
  count_unless false patch_id t m = increment_addition_counts counts_db patch_id t m

  -- `if (!is_local_change(get_patch_id_at(0))) increment_addition_counts(0, key);`
  unfoldable pub count_first : Triple → AdditionValue → C → Option C
  count_first key v m = do
    first_local ← is_local_at (AdditionValue.get_patch_id_at (pos 0) v) v
    some (count_unless first_local 0 key m)

module _ (patch_id : ℕ) where
  -- Whether the deletion is to be added for the patch: its positions have changed, or it is not there.
  unfoldable pub is_stale : PatchPositions → DeletionValue → Option Bool
  is_stale p v =
      let index = DeletionValue.get_patchvalue_index patch_id v in
      if ltb_ℤ index (pos 0)
      then some true
      else (DeletionValue.get_patch_at true index v >>= λ e.
          some (not (same_positions e.positions p)))

  -- The value after the addition of the patch if it is not there yet, and whether it has changed.
  unfoldable pub carried : AdditionValue → Option (AdditionValue × Bool)
  carried v =
      if leb_ℤ (AdditionValue.get_patch_id_at (pos 0) v) (pos patch_id)
      then (AdditionValue.is_patch_id (pos patch_id) v >>= λ here.
          if here then some (v, false) else AdditionValue.add patch_id v)
      else some (v, false)

  unfoldable pub unset_local_if : Bool → AdditionValue → Option (AdditionValue × Bool)
  unset_local_if true v = AdditionValue.unset_local_change patch_id v
  unset_local_if false v = some (v, false)

module _ {S C : Type 0} (positions_db : HashDb S ℕ ℕ) (counts_db : HashDb C TripleVersion ℕ)
    (patch_id : ℕ) where
  unfoldable pub redelete : PatchPositions → Counters S → Deletion → Work S C → Option (Outcome S C)
  unfolding insert_deletion
  redelete p counters (key, v) w = do
    (v', changed) ← DeletionValue.add true patch_id false p v
    written ← insert_deletion key v'
    some (record {
      added = none;
      deleted = if changed then some written else none;
      work = record w { counters = counters };
    })

  -- `// D++`
  unfoldable pub step_deletion : Deletion → Work S C → Option (Outcome S C)
  unfolding is_stale redelete
  step_deletion (key, v) w = DeletionValue.get_patch_at true (pos 0) v >>= λ first.
      if leb_ℤ first.patch_id (pos patch_id)
      then (DeletionValue.is_local_change true patch_id v >>= λ local.
          let (p, counters) = positions_unless positions_db local key w.counters in
          is_stale patch_id p v >>= λ stale.
          if stale
          then redelete p counters (key, v) w
          else some
              (record { added = none; deleted = none; work = record w { counters = counters } }))
      else some (record { added = none; deleted = none; work = w })

  -- `// A++`
  unfoldable pub step_addition : Addition → Work S C → Option (Outcome S C)
  unfolding carried count_first
  step_addition (key, v) w = do
    (v', changed) ← carried patch_id v
    local ← AdditionValue.is_local_change patch_id v'
    counts ← count_first counts_db key v' (count_unless counts_db local patch_id key w.counts)
    some (record {
      added = insert_addition_if changed key v';
      deleted = none;
      work = record w { limit = v'.max_patch_id; counts = counts };
    })

  -- `// P++`
  unfoldable pub step_patch : PatchElement → Work S C → Option (Outcome S C)
  step_patch e w =
      if e.is_addition
      then (insert_addition_single counts_db e.element_triple patch_id false none w.counts >>= λ r.
          some (record {
            added = some r.0;
            deleted = none;
            work = record w { counts = increment_addition_counts counts_db 0 e.element_triple r.1 };
          }))
      else (let (p, counters) = positions positions_db e.element_triple w.counters in
          insert_deletion_single e.element_triple p patch_id false none >>= λ written.
          some (record {
            added = none;
            deleted = some written;
            work = record w { counters = counters };
          }))

  -- `// local change P, D`
  unfoldable pub step_patch_deletion : PatchElement → Deletion → Work S C → Option (Outcome S C)
  step_patch_deletion e (key, v) w =
      if e.is_addition
      then (DeletionValue.del patch_id v >>= λ d. insert_deletion_if d.1 key d.0 >>= λ written.
          insert_addition_single counts_db e.element_triple patch_id true none w.counts >>= λ r.
          some (record { added = some r.0; deleted = written; work = record w { counts = r.1 } }))
      else (DeletionValue.is_local_change true patch_id v >>= λ local.
          let (p, counters) = positions_unless positions_db local e.element_triple w.counters in
          DeletionValue.add true patch_id local p v >>= λ d.
          insert_deletion_if d.1 key d.0 >>= λ written.
          some
            (record { added = none; deleted = written; work = record w { counters = counters } }))

  -- `// local change P, A`
  unfoldable pub step_patch_addition : PatchElement → Addition → Work S C → Option (Outcome S C)
  unfolding count_first
  step_patch_addition e (key, v) w =
      if e.is_addition
      then (AdditionValue.add patch_id v >>= λ a.
          AdditionValue.is_local_change patch_id a.0 >>= λ local.
          count_first counts_db key a.0 (count_unless counts_db local patch_id key w.counts)
          >>= λ counts. some (record {
            added = insert_addition_if a.1 key a.0;
            deleted = none;
            work = record w { limit = a.0.max_patch_id; counts = counts };
          }))
      else (AdditionValue.del patch_id v >>= λ a.
          AdditionValue.unset_local_change patch_id a.0 >>= λ b.
          insert_deletion_single e.element_triple no_positions patch_id true none >>= λ written.
          count_first counts_db key b.0 w.counts >>= λ counts. some (record {
            added = insert_addition_if (a.1 || b.1) key b.0;
            deleted = some written;
            work = record w { limit = b.0.max_patch_id; counts = counts };
          }))

  -- The branch where the addition and the deletion have one triple: the later of them goes on, or with
  -- `stepped`, where the patch has the triple as well, the other one does.
  unfoldable pub add_to_addition : Bool → Deletion → Addition → Work S C → Option (Outcome S C)
  unfolding set_local_if insert_deletion_if insert_addition_if
  add_to_addition local (dkey, d) (akey, a) w = do
    (a1, changed) ← AdditionValue.add patch_id a
    (a2, changed') ← set_local_if local patch_id a1
    (d1, changed'') ← DeletionValue.del patch_id d
    written ← insert_deletion_if changed'' dkey d1
    some (record {
      added = insert_addition_if (changed || changed') akey a2;
      deleted = written;
      work = record w {
        limit = a2.max_patch_id;
        counts = count_unless counts_db local patch_id akey w.counts;
      };
    })

  unfoldable pub add_to_deletion :
      Bool → Triple → Deletion → Addition → Work S C → Option (Outcome S C)
  unfolding insert_deletion_if insert_addition_if unset_local_if
  add_to_deletion local current (dkey, d) (akey, a) w =
      let (p, counters) = positions_unless positions_db local current w.counters in
      do
        (d1, changed) ← DeletionValue.add true patch_id local p d
        written ← insert_deletion_if changed dkey d1
        (a1, changed') ← AdditionValue.del patch_id a
        local' ← AdditionValue.is_local_change patch_id a1
        (a2, changed'') ← unset_local_if patch_id local' a1
        some (record {
          added = insert_addition_if (changed' || changed'') akey a2;
          deleted = written;
          work = record w { limit = a2.max_patch_id; counters = counters };
        })

  -- With the largest patch ids of the two values.
  unfoldable pub invert_or_carry :
      Bool → Triple → Deletion → Addition → ℤ → ℤ → Work S C → Option (Outcome S C)
  unfolding count_first add_to_addition add_to_deletion
  invert_or_carry stepped current (dkey, d) (akey, a) largest_d largest_a w =
      (if ltb_ℤ largest_a largest_d
        then DeletionValue.is_local_change true patch_id d
        else AdditionValue.is_local_change patch_id a)
      >>= λ was_local.
          let local = differ stepped was_local in
          let a' = set_max_patch_id (patch_id + 1) a in
          count_first counts_db akey a' w.counts >>= λ counts.
          let w' : Work S C = record w { limit = patch_id + 1; counts = counts } in
          if differ stepped (ltb_ℤ largest_d largest_a)
          then add_to_addition local (dkey, d) (akey, a') w'
          else (if differ stepped (ltb_ℤ largest_a largest_d)
              then add_to_deletion local current (dkey, d) (akey, a') w'
              else some (record { added = none; deleted = none; work = w' }))

  unfoldable pub step_both : Bool → Triple → Deletion → Addition → Work S C → Option (Outcome S C)
  unfolding invert_or_carry ◌-ℤ◌
  step_both stepped current (dkey, d) (akey, a) w =
      let a' = set_max_patch_id patch_id a in
      let largest_a = AdditionValue.get_patch_id_at (AdditionValue.get_size a' -ℤ pos 1) a' in
      DeletionValue.get_patch_at true (DeletionValue.get_size d -ℤ pos 1) d >>= λ e.
      invert_or_carry stepped current (dkey, d) (akey, a') e.patch_id largest_a w
