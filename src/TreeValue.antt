-- ===== src/TreeValue.antt =====
-- `PatchTreeValueBase` of src/main/cpp/patch/patch_tree_value.cc: the addition value and the deletion
-- value of a triple side by side, and what they tell about the triple in a patch. `none` is the
-- undefined behaviour of the two values.
pub mod Presence
mod Examples
use ostrich.Base.{
  ℕ, zero, suc, Bool, true, false, not, ◌&&◌, Option, none, some, ◌>>=◌, if◌then◌else◌,
}
use ostrich.Base.Int.{ℤ, pos, negsuc, pos_part, ltb_ℤ, leb_ℤ, eqb_ℤ}
use ostrich.AdditionValue
use ostrich.AdditionValue.{AdditionValue}
use ostrich.DeletionValue
use ostrich.DeletionValue.{DeletionValue}

-- `positioned` as in DeletionValue: whether the class of the deletions has positions.
pub record TreeValue : Type 0 where
  pub addition : AdditionValue
  pub deletion : DeletionValue
  pub has_addition : Bool
  pub has_deletion : Bool
  pub positioned : Bool

unfoldable pub create : Bool → ℕ → TreeValue
create positioned max_patch_id = record {
  addition = AdditionValue.create max_patch_id;
  deletion = DeletionValue.create max_patch_id;
  has_addition = false;
  has_deletion = false;
  positioned = positioned;
}

unfoldable pub set_addition : Bool → TreeValue → TreeValue
set_addition has v = record v { has_addition = has }

unfoldable pub set_deletion : Bool → TreeValue → TreeValue
set_deletion has v = record v { has_deletion = has }

unfoldable pub is_exact : ℕ → TreeValue → Option Bool
is_exact patch_id v =
    if v.has_addition
    then AdditionValue.is_patch_id (pos patch_id) v.addition
    else some (leb_ℤ (pos 0) (DeletionValue.get_patchvalue_index patch_id v.deletion))

-- `for (i = size - 1; i >= 0; i--)`, with the rounds that are left: the first patch id from the end
-- that is not above `patch_id`.
unfoldable pub addition_up_to : ℕ → ℕ → AdditionValue → ℤ
addition_up_to zero patch_id a = negsuc 0
addition_up_to (suc i) patch_id a =
    let rest = addition_up_to i patch_id a in
    let at = AdditionValue.get_patch_id_at (pos i) a in if leb_ℤ at (pos patch_id) then at else rest

unfoldable pub get_addition_patch_id : ℕ → Bool → TreeValue → ℤ
unfolding addition_up_to
get_addition_patch_id patch_id exact v =
    if v.has_addition
    then (if exact
        then AdditionValue.get_patchvalue_index patch_id v.addition
        else addition_up_to (pos_part (AdditionValue.get_size v.addition)) patch_id v.addition)
    else negsuc 0

unfoldable pub deletion_up_to : Bool → ℕ → ℕ → DeletionValue → Option ℤ
deletion_up_to positioned zero patch_id d = some (negsuc 0)
deletion_up_to positioned (suc i) patch_id d =
    let rest = deletion_up_to positioned i patch_id d in
    DeletionValue.get_patch_at positioned (pos i) d >>= λ e.
    if leb_ℤ e.patch_id (pos patch_id) then some e.patch_id else rest

unfoldable pub get_deletion_patch_id : ℕ → Bool → TreeValue → Option ℤ
unfolding deletion_up_to
get_deletion_patch_id patch_id exact v =
    if v.has_deletion
    then (if exact
        then some (DeletionValue.get_patchvalue_index patch_id v.deletion)
        else deletion_up_to v.positioned (pos_part (DeletionValue.get_size v.deletion)) patch_id
            v.deletion)
    else some (negsuc 0)

unfoldable pub is_addition : ℕ → Bool → TreeValue → Bool
unfolding get_addition_patch_id
is_addition patch_id exact v = leb_ℤ (pos 0) (get_addition_patch_id patch_id exact v)

unfoldable pub is_deletion : ℕ → Bool → TreeValue → Option Bool
unfolding get_deletion_patch_id
is_deletion patch_id exact v =
    get_deletion_patch_id patch_id exact v >>= λ d. some (leb_ℤ (pos 0) d)

-- The first deletion comes before the first addition, or there is no addition.
unfoldable pub exists_in_snapshot : TreeValue → Option Bool
exists_in_snapshot v =
    if v.has_deletion
    then (if v.has_addition
        then (DeletionValue.get_patch_at v.positioned (pos 0) v.deletion >>= λ e.
            some (ltb_ℤ e.patch_id (AdditionValue.get_patch_id_at (pos 0) v.addition)))
        else some true)
    else some false

unfoldable pub is_present : ℕ → TreeValue → Option Bool
unfolding get_addition_patch_id get_deletion_patch_id
is_present patch_id v =
    let addition = get_addition_patch_id patch_id true v in
    get_deletion_patch_id patch_id true v >>= λ deletion.
    if eqb_ℤ addition (negsuc 0) && eqb_ℤ deletion (negsuc 0)
    then exists_in_snapshot v
    else some (ltb_ℤ deletion addition)

unfoldable pub is_local_change : ℕ → TreeValue → Option Bool
is_local_change patch_id v =
    if v.has_addition
    then AdditionValue.is_local_change patch_id v.addition
    else (if v.has_deletion
        then DeletionValue.is_local_change v.positioned patch_id v.deletion
        else some false)

unfoldable pub is_delta_type_equal : ℕ → ℕ → TreeValue → Option Bool
unfolding is_present
is_delta_type_equal patch_id_start patch_id_end v = is_present patch_id_start v >>= λ a.
    is_present patch_id_end v >>= λ b. some (if a then b else not b)
