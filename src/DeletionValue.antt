-- ===== src/DeletionValue.antt =====
-- `DVIntervalList` of src/main/cpp/patch/patch_tree_deletion_value.h and `PatchTreeDeletionValueBase` of
-- patch_tree_deletion_value.cc, as they are built (with COMPRESSED_DEL_VALUES): the patches in which
-- a triple is deleted, with the local changes and the positions. `positioned` is `T::has_positions()`:
-- true for PatchTreeDeletionValueElement, false for PatchTreeDeletionValueElementBase.
-- `none` is the undefined behaviour of the interval lists and of the positions.

pub mod Changes
mod Examples
use ostrich.Base.{
  ℕ, zero, suc, ◌+◌, Bool, true, false, not, ◌||◌, Option, none, some, List, [], ◌>>=◌,
}
use ostrich.Base.{if◌then◌else◌}
use ostrich.Base.Int.{ℤ, pos, negsuc, ◌-ℤ◌, ltb_ℤ, eqb_ℤ, pos_part}
use ostrich.Ordered.{is_empty}
use ostrich.Interval
use ostrich.Interval.{IntervalList}
use ostrich.Positions
use ostrich.Positions.{PatchPositions, Version, no_positions}
use ostrich.AdditionValue.{int_max}

-- An element: where it has no positions, `positions` is what its class answers, all -1.
pub record Element : Type 0 where
  pub patch_id : ℤ
  pub local_change : Bool
  pub positions : PatchPositions

pub record DvIntervalList : Type 0 where
  pub patches : IntervalList
  pub local_changes : IntervalList
  pub position_vec : List Version

pub record DeletionValue : Type 0 where
  pub elements : DvIntervalList
  pub max_patch_id : ℕ

unfoldable pub set_local_change : Element → Element
set_local_change e = record e { local_change = true }

unfoldable pub create : ℕ → DeletionValue
create max_patch_id = record {
  elements = record {
    patches = record { max = int_max; intervals = [] };
    local_changes = record { max = int_max; intervals = [] };
    position_vec = [];
  };
  max_patch_id = max_patch_id + 1;
}

-- `has_changed |= local_changes.addition(patch)` for a local change.
unfoldable pub add_local : ℕ → Bool → IntervalList → Option (IntervalList × Bool)
add_local patch true l = Interval.addition patch l
add_local patch false l = some (l, false)

unfoldable pub add_positions :
    Bool → ℕ → PatchPositions → List Version → Option (List Version × Bool)
add_positions true patch p m = Positions.insert_positions patch p m
add_positions false patch p m = some (m, false)

-- `addition` of the element of the patch `patch`.
unfoldable pub addition :
    Bool → ℕ → Bool → PatchPositions → DvIntervalList → Option (DvIntervalList × Bool)
unfolding add_local add_positions
addition positioned patch local_change p d = do
  (patches, changed) ← Interval.addition patch d.patches
  (local_changes, changed') ← add_local patch local_change d.local_changes
  (position_vec, changed'') ← add_positions positioned patch p d.position_vec
  some (
    record { patches = patches; local_changes = local_changes; position_vec = position_vec },
    changed || (changed' || changed''),
  )

unfoldable pub deletion : ℕ → DvIntervalList → Option (DvIntervalList × Bool)
deletion patch d = do
  (patches, changed) ← Interval.deletion patch d.patches
  (local_changes, changed') ← Interval.deletion patch d.local_changes
  some (
    record {
      patches = patches;
      local_changes = local_changes;
      position_vec = (Positions.delete_positions patch d.position_vec).0;
    },
    changed || (changed' || (Positions.delete_positions patch d.position_vec).1),
  )

unfoldable pub get_index : ℕ → ℕ → DvIntervalList → ℤ
get_index patch_id outer d = Interval.get_index patch_id outer d.patches

unfoldable pub size : ℕ → DvIntervalList → ℤ
size outer d = Interval.get_size outer d.patches

-- `is_in` and `get_positions` at an `int`: below all keys, so that only an empty map is safe.
unfoldable pub is_in : ℤ → IntervalList → Option Bool
is_in (pos n) l = Interval.is_in n l
is_in (negsuc n) l = if is_empty l.intervals then some false else none

unfoldable pub get_positions : ℤ → List Version → Option (Option PatchPositions)
get_positions (pos n) m = Positions.get_positions n m
get_positions (negsuc n) m = if is_empty m then some none else none

-- `PatchPositions p;` stays as it is where `get_positions` returns false.
abbrev pub or_none : Option PatchPositions → PatchPositions
or_none none = no_positions
or_none (some p) = p

unfoldable pub element : Bool → ℤ → Bool → List Version → Option Element
unfolding get_positions
element false patch_id local_change m =
    some (record { patch_id = patch_id; local_change = local_change; positions = no_positions })
element true patch_id local_change m = do
  p ← get_positions patch_id m
  some (record { patch_id = patch_id; local_change = local_change; positions = or_none p })

unfoldable pub get_element_at : Bool → ℤ → ℕ → DvIntervalList → Option Element
unfolding is_in element
get_element_at positioned index outer d =
    let patch_id = Interval.get_element_at index outer d.patches in
    is_in patch_id d.local_changes >>= λ local_change.
    element positioned patch_id local_change d.position_vec

abbrev pub with_elements : DeletionValue → DvIntervalList × Bool → DeletionValue × Bool
with_elements v (d, changed) = (record v { elements = d }, changed)

unfoldable pub add :
    Bool → ℕ → Bool → PatchPositions → DeletionValue → Option (DeletionValue × Bool)
unfolding addition
add positioned patch local_change p v = do
  r ← addition positioned patch local_change p v.elements
  some (with_elements v r)

unfoldable pub del : ℕ → DeletionValue → Option (DeletionValue × Bool)
unfolding deletion
del patch v = do r ← deletion patch v.elements; some (with_elements v r)

unfoldable pub get_patchvalue_index : ℕ → DeletionValue → ℤ
unfolding get_index
get_patchvalue_index patch_id v = get_index patch_id v.max_patch_id v.elements

unfoldable pub get_size : DeletionValue → ℤ
unfolding size
get_size v = size v.max_patch_id v.elements

unfoldable pub get_patch_at : Bool → ℤ → DeletionValue → Option Element
unfolding get_element_at
get_patch_at positioned index v = get_element_at positioned index v.max_patch_id v.elements

unfoldable pub get : Bool → ℕ → DeletionValue → Option Element
unfolding get_patchvalue_index get_size get_patch_at ◌-ℤ◌
get positioned patch_id v =
    let index = get_patchvalue_index patch_id v in
    let n = get_size v in
    if ltb_ℤ index (pos 0) || not (ltb_ℤ index n)
    then get_patch_at positioned (n -ℤ pos 1) v
    else get_patch_at positioned index v

unfoldable pub is_local_change : Bool → ℕ → DeletionValue → Option Bool
unfolding get_patchvalue_index get_size get_patch_at ◌-ℤ◌
is_local_change positioned patch_id v =
    let index = get_patchvalue_index patch_id v in
    if eqb_ℤ (get_size v) (pos 0)
    then some false
    else (if ltb_ℤ index (pos 0)
        then (get_patch_at positioned (get_size v -ℤ pos 1) v >>= λ e. some e.local_change)
        else (get_patch_at positioned index v >>= λ e. some e.local_change))

-- One round of the loop of `to_reduced`: the element at the index joins the reduced value. A negative
-- patch id, which no index below the size has, is undefined behaviour of the lists.
unfoldable pub reduce_element : Element → DeletionValue → Option DeletionValue
unfolding add
reduce_element e reduced = elim e.patch_id [
  | pos patch ↦ add false patch e.local_change no_positions reduced >>= λ r. some r.0
  | negsuc n ↦ none
]

unfoldable pub reduce_from : Bool → ℕ → ℕ → DeletionValue → DeletionValue → Option DeletionValue
unfolding get_patch_at reduce_element
reduce_from positioned zero i v reduced = some reduced
reduce_from positioned (suc left) i v reduced = get_patch_at positioned (pos i) v >>= λ e.
    reduce_element e reduced >>= λ r. reduce_from positioned left (i + 1) v r

unfoldable pub to_reduced : Bool → DeletionValue → Option DeletionValue
unfolding reduce_from get_size create
to_reduced positioned v = reduce_from positioned (pos_part (get_size v)) 0 v (create v.max_patch_id)
