-- ===== src/PatchTreeIterator.antt =====
-- `PatchTreeIteratorBase` of src/main/cpp/patch/patch_tree_iterator.cc: the records of a deletion tree and
-- of an addition tree under filters, and both merged. A cursor is the list of the records that it still
-- steps over, in the direction that `reverse` gives it. `none` is the undefined behaviour of the values.
pub mod Filtered
pub mod Ends
pub mod Scan
pub mod Rounds
pub mod Merged
pub mod Unordered
mod Examples
use ostrich.Base.{
  ℕ, zero, suc, Bool, true, false, not, ◌&&◌, ◌||◌, Option, none, some, List, [], ◌∷◌, ◌>>=◌,
}
use ostrich.Base.{if◌then◌else◌}
use ostrich.Base.Int.{ℤ, pos, ◌-ℤ◌, leb_ℤ, ltb_ℤ, pos_part}
use ostrich.Triple.{Triple, pattern_match_triple, is_all_matching_pattern}
use ostrich.AdditionValue
use ostrich.DeletionValue
use ostrich.TreeValue
use ostrich.TreeValue.{TreeValue, get_addition_patch_id, get_deletion_patch_id}
use ostrich.Delta.{differ, is_zero}
use ostrich.PatchTree.Visits.{Deletion, Addition, is_positive}

pub record Filters : Type 0 where
  pub has_patch_filter : Bool
  pub is_exact : Bool
  pub patch_id : ℕ
  pub has_pattern_filter : Bool
  pub pattern : Triple
  pub no_local_changes : Bool
  pub can_early_break : Bool
  pub squash_equal : Bool

unfoldable pub set_patch_filter : ℕ → Bool → Filters → Filters
set_patch_filter patch_id exact f = record f {
  has_patch_filter = true;
  is_exact = exact;
  patch_id = patch_id;
}

unfoldable pub reset_patch_filter : Filters → Filters
reset_patch_filter f = record f { has_patch_filter = false }

unfoldable pub set_triple_pattern_filter : Triple → Filters → Filters
unfolding is_all_matching_pattern
set_triple_pattern_filter pattern f =
    if not (is_all_matching_pattern pattern)
    then record f { has_pattern_filter = true; pattern = pattern }
    else f

unfoldable pub reset_triple_pattern_filter : Filters → Filters
reset_triple_pattern_filter f = record f { has_pattern_filter = false }

unfoldable pub set_filter_local_changes : Bool → Filters → Filters
set_filter_local_changes b f = record f { no_local_changes = b }

unfoldable pub set_early_break : Bool → Filters → Filters
set_early_break b f = record f { can_early_break = b }

unfoldable pub set_squash_equal_addition_deletion : Bool → Filters → Filters
set_squash_equal_addition_deletion b f = record f { squash_equal = b }

-- `is_triple_pattern_filter && !pattern_match_triple(*key, triple_pattern_filter)`
unfoldable pub is_filtered_out : Filters → Triple → Bool
unfolding pattern_match_triple
is_filtered_out f t = f.has_pattern_filter && not (pattern_match_triple t f.pattern)

-- The loops over the patch ids from the last to the first, with the indexes that are left.
unfoldable pub any_addition_up_to : ℕ → ℕ → AdditionValue.AdditionValue → Bool
any_addition_up_to zero patch_id v = false
any_addition_up_to (suc i) patch_id v =
    let rest = any_addition_up_to i patch_id v in
    let at = AdditionValue.get_patch_id_at (pos i) v in
    if leb_ℤ (pos 0) at && leb_ℤ at (pos patch_id) then true else rest

unfoldable pub any_deletion_up_to : Bool → ℕ → ℕ → DeletionValue.DeletionValue → Option Bool
any_deletion_up_to positioned zero patch_id v = some false
any_deletion_up_to positioned (suc i) patch_id v =
    let rest = any_deletion_up_to positioned i patch_id v in
    DeletionValue.get_patch_at positioned (pos i) v >>= λ e.
    if leb_ℤ e.patch_id (pos patch_id) then some true else rest

unfoldable pub addition_in_patch : Filters → AdditionValue.AdditionValue → Option Bool
unfolding any_addition_up_to
addition_in_patch f v =
    if f.has_patch_filter
    then (if f.is_exact
        then AdditionValue.is_patch_id (pos f.patch_id) v
        else some (any_addition_up_to (pos_part (AdditionValue.get_size v)) f.patch_id v))
    else some true

unfoldable pub deletion_in_patch : Bool → Filters → DeletionValue.DeletionValue → Option Bool
unfolding any_deletion_up_to
deletion_in_patch positioned f v =
    if f.has_patch_filter
    then (if f.is_exact
        then some (leb_ℤ (pos 0) (DeletionValue.get_patchvalue_index f.patch_id v))
        else any_deletion_up_to positioned (pos_part (DeletionValue.get_size v)) f.patch_id v)
    else some true

-- The filters by patch and by local changes.
unfoldable pub addition_valid : Filters → AdditionValue.AdditionValue → Option Bool
unfolding addition_in_patch
addition_valid f v = addition_in_patch f v >>= λ here.
    if here && f.no_local_changes
    then (AdditionValue.is_local_change f.patch_id v >>= λ local. some (not local))
    else some here

unfoldable pub deletion_valid : Bool → Filters → DeletionValue.DeletionValue → Option Bool
unfolding deletion_in_patch
deletion_valid positioned f v = deletion_in_patch positioned f v >>= λ here.
    if here && f.no_local_changes
    then (DeletionValue.is_local_change positioned f.patch_id v >>= λ local. some (not local))
    else some here

-- What is found, `none` for the result `false`, and what the cursor still steps over.
abbrev pub Found : Type 0 → Type 0
Found A = Option A × List A

unfoldable pub next_addition : Filters → List Addition → Option (Found Addition)
unfolding is_filtered_out addition_valid
next_addition f [] = some (none, [])
next_addition f ((key, v) ∷ l) =
    let rest = next_addition f l in
    if is_filtered_out f key
    then (if f.can_early_break then some (none, l) else rest)
    else (addition_valid f v >>= λ valid. if valid then some (some (key, v), l) else rest)

-- With `silent_step` the cursor stays at the record that is found.
unfoldable pub next_deletion : Bool → Bool → Filters → List Deletion → Option (Found Deletion)
unfolding is_filtered_out deletion_valid
next_deletion positioned silent f [] = some (none, [])
next_deletion positioned silent f ((key, v) ∷ l) =
    let rest = next_deletion positioned silent f l in
    if is_filtered_out f key
    then (if f.can_early_break then some (none, (key, v) ∷ l) else rest)
    else (deletion_valid positioned f v >>= λ valid.
        if valid then some (some (key, v), if silent then (key, v) ∷ l else l) else rest)

-- Both cursors, and the records that were read but not returned yet. Such a record keeps its value, as
-- in the code where every call of `next` is given the same value.
pub record Merger : Type 0 where
  pub deletions : List Deletion
  pub additions : List Addition
  pub temp_deletion : Option Deletion
  pub temp_addition : Option Addition

unfoldable pub read_deletion : Bool → Filters → Merger → Option (Found Deletion)
unfolding next_deletion
read_deletion positioned f m = elim m.temp_deletion [
  | none ↦ next_deletion positioned false f m.deletions
  | some d ↦ some (some d, m.deletions)
]

unfoldable pub read_addition : Filters → Merger → Option (Found Addition)
unfolding next_addition
read_addition f m = elim m.temp_addition [
  | none ↦ next_addition f m.additions
  | some a ↦ some (some a, m.additions)
]

abbrev pub tree_value : Bool → Bool → Bool → Deletion → Addition → TreeValue
tree_value positioned has_deletion has_addition d a = record {
  addition = a.1;
  deletion = d.1;
  has_addition = has_addition;
  has_deletion = has_deletion;
  positioned = positioned;
}

-- Whether the addition is returned for a triple with an addition and a deletion.
unfoldable pub is_addition_later : Filters → TreeValue → Option Bool
unfolding ◌-ℤ◌
is_addition_later f v =
    if f.has_patch_filter
    then (get_deletion_patch_id f.patch_id f.is_exact v >>= λ d.
        some (ltb_ℤ d (get_addition_patch_id f.patch_id f.is_exact v)))
    else (DeletionValue.get_patch_at v.positioned (DeletionValue.get_size v.deletion -ℤ pos 1)
          v.deletion
        >>= λ e. some (
            ltb_ℤ e.patch_id (
              AdditionValue.get_patch_id_at (AdditionValue.get_size v.addition -ℤ pos 1)
                v.addition)))

-- What `next` returns: the triple, with its deletion and its addition as far as they are marked.
pub record Result : Type 0 where
  pub key : Triple
  pub deletion : Option DeletionValue.DeletionValue
  pub addition : Option AdditionValue.AdditionValue

abbrev pub of_deletion : Deletion → Result
of_deletion d = record { key = d.0; deletion = some d.1; addition = none }

abbrev pub of_addition : Addition → Result
of_addition a = record { key = a.0; deletion = none; addition = some a.1 }

-- `value->is_local_change(patch_id_filter)`
unfoldable pub is_result_local : Bool → ℕ → Result → Option Bool
is_result_local positioned patch_id r = elim r.addition [
  | some a ↦ AdditionValue.is_local_change patch_id a
  | none ↦ elim r.deletion [
    | some d ↦ DeletionValue.is_local_change positioned patch_id d
    | none ↦ some false
  ]
]

-- The result, and the records that are kept for the next call.
abbrev pub Chosen : Type 0
Chosen = Result × Option Deletion × Option Addition

unfoldable pub choose_equal : Bool → Filters → Deletion → Addition → Option Chosen
unfolding is_addition_later
choose_equal positioned f d a =
    if f.squash_equal
    then some (record { key = a.0; deletion = some d.1; addition = some a.1 }, none, none)
    else (is_addition_later f (tree_value positioned true true d a) >>= λ later.
        some (if later then of_addition a else of_deletion d, none, none))

module _ (compare : Triple → Triple → ℤ) (positioned : Bool) where
  unfoldable pub choose_next : Filters → Option Deletion → Option Addition → Option (Option Chosen)
  unfolding choose_equal
  choose_next f none none = some none
  choose_next f (some d) none = some (some (of_deletion d, none, none))
  choose_next f none (some a) = some (some (of_addition a, none, none))
  choose_next f (some d) (some a) =
      if is_zero (compare d.0 a.0)
      then (choose_equal positioned f d a >>= λ c. some (some c))
      else (if is_positive (compare d.0 a.0)
          then some (some (of_addition a, some d, none))
          else some (some (of_deletion d, none, some a)))

  -- One round of `next` over both trees: the two reads leave the local changes in.
  unfoldable pub next_round : Filters → Merger → Option (Option (Result × Merger))
  unfolding read_deletion read_addition choose_next
  next_round f m = do
    (d, deletions) ← read_deletion positioned (record f { no_local_changes = false }) m
    (a, additions) ← read_addition (record f { no_local_changes = false }) m
    chosen ← choose_next f d a
    some (elim chosen [
      | none ↦ none
      | some (r, td, ta) ↦ some (
        r,
        record {
          deletions = deletions;
          additions = additions;
          temp_deletion = td;
          temp_addition = ta;
        },
      )
    ])

  -- `next` over both trees, which calls itself behind a local change, for at most `fuel` calls.
  unfoldable pub next_merged : ℕ → Filters → Merger → Option (Option (Result × Merger))
  unfolding next_round is_result_local
  next_merged zero f m = none
  next_merged (suc fuel) f m = next_round f m >>= λ o. elim o [
    | none ↦ some none
    | some (r, m') ↦
        let rest = next_merged fuel f m' in
        if f.no_local_changes
        then (is_result_local positioned f.patch_id r >>= λ local.
            if local then rest else some (some (r, m')))
        else some (some (r, m'))
  ]

  -- `next` over one tree only.
  unfoldable pub next_in_additions : Filters → Merger → Option (Option (Result × Merger))
  unfolding next_addition
  next_in_additions f m = next_addition f m.additions >>= λ r. elim r.0 [
    | none ↦ some none
    | some a ↦ some (some (of_addition a, record m { additions = r.1 }))
  ]

  unfoldable pub next_in_deletions : Filters → Merger → Option (Option (Result × Merger))
  unfolding next_deletion
  next_in_deletions f m = next_deletion positioned false f m.deletions >>= λ r. elim r.0 [
    | none ↦ some none
    | some d ↦ some (some (of_deletion d, record m { deletions = r.1 }))
  ]
