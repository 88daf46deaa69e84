-- ===== src/AdditionValue.antt =====
-- `PatchTreeAdditionValue` of src/main/cpp/patch/patch_tree_addition_value.cc, as it is built (with
-- COMPRESSED_ADD_VALUES): the patches in which a triple is an addition. `none` is the undefined
-- behaviour of the interval lists.
pub mod History
mod Examples
use ostrich.Base.{
  ℕ, ◌+◌, ◌-◌, ◌^◌, Bool, true, false, Option, none, some, [], ◌>>=◌, ltb, leb, if◌then◌else◌,
}
use ostrich.Base.Int.{ℤ, pos, negsuc, eqb_ℤ}
use ostrich.Interval
use ostrich.Interval.{IntervalList}

-- `std::numeric_limits<int>::max()`
abbrev pub int_max : ℕ
int_max = 2 ^ 31 - 1

pub record AdditionValue : Type 0 where
  pub patches : IntervalList
  pub local_changes : IntervalList
  pub max_patch_id : ℕ

unfoldable pub create : ℕ → AdditionValue
create max_patch_id = record {
  patches = record { max = int_max; intervals = [] };
  local_changes = record { max = int_max; intervals = [] };
  max_patch_id = max_patch_id + 1;
}

unfoldable pub set_max_patch_id : ℕ → AdditionValue → AdditionValue
set_max_patch_id id v = record v { max_patch_id = id }

-- `if (patch_id >= max_patch_id) max_patch_id = patch_id + 1;`
unfoldable pub grow : ℕ → AdditionValue → AdditionValue
grow patch_id v =
    if leb v.max_patch_id patch_id then record v { max_patch_id = patch_id + 1 } else v

abbrev pub with_patches : AdditionValue → IntervalList × Bool → AdditionValue × Bool
with_patches v (l, changed) = (record v { patches = l }, changed)

abbrev pub with_local_changes : AdditionValue → IntervalList × Bool → AdditionValue × Bool
with_local_changes v (l, changed) = (record v { local_changes = l }, changed)

unfoldable pub add : ℕ → AdditionValue → Option (AdditionValue × Bool)
unfolding grow
add patch_id v = do
  r ← Interval.addition patch_id (grow patch_id v).patches
  some (with_patches (grow patch_id v) r)

unfoldable pub add_unique : ℕ → AdditionValue → Option (AdditionValue × Bool)
unfolding grow
add_unique patch_id v = do
  r ← Interval.lone_addition patch_id (grow patch_id v).patches
  some (with_patches (grow patch_id v) r)

unfoldable pub del : ℕ → AdditionValue → Option (AdditionValue × Bool)
unfolding grow
del patch_id v = do
  r ← Interval.deletion patch_id (grow patch_id v).patches
  some (with_patches (grow patch_id v) r)

unfoldable pub is_patch_id : ℤ → AdditionValue → Option Bool
is_patch_id (negsuc n) v = some false
is_patch_id (pos patch_id) v =
    if ltb patch_id v.max_patch_id then Interval.is_in patch_id v.patches else some false

unfoldable pub get_patchvalue_index : ℕ → AdditionValue → ℤ
get_patchvalue_index patch_id v = Interval.get_index patch_id v.max_patch_id v.patches

unfoldable pub get_patch_id_at : ℤ → AdditionValue → ℤ
get_patch_id_at i v =
    let p = Interval.get_element_at i v.max_patch_id v.patches in
    if eqb_ℤ p (pos v.patches.max) then negsuc 0 else p

unfoldable pub get_size : AdditionValue → ℤ
get_size v = Interval.get_size v.max_patch_id v.patches

unfoldable pub set_local_change : ℕ → AdditionValue → Option (AdditionValue × Bool)
set_local_change patch_id v = do
  r ← Interval.addition patch_id v.local_changes
  some (with_local_changes v r)

unfoldable pub set_local_change_unique : ℕ → AdditionValue → Option (AdditionValue × Bool)
set_local_change_unique patch_id v = do
  r ← Interval.lone_addition patch_id v.local_changes
  some (with_local_changes v r)

unfoldable pub unset_local_change : ℕ → AdditionValue → Option (AdditionValue × Bool)
unset_local_change patch_id v = do
  r ← Interval.deletion patch_id v.local_changes
  some (with_local_changes v r)

unfoldable pub is_local_change : ℕ → AdditionValue → Option Bool
is_local_change patch_id v = Interval.is_in patch_id v.local_changes
