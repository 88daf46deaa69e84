-- ===== src/Positions.antt =====
-- `PatchPositions`, `VerPatchPositions` and `DeltaPatchPositionsContainerV2` of
-- src/main/cpp/patch/patch_tree_deletion_value.h and .cc: the positions of a deleted triple for each
-- triple pattern, and the versions of these positions by patch id. `none` is undefined behaviour: the
-- code steps an iterator back from `begin()` and reads there.
pub mod Latest
pub mod Insert
pub mod Container
pub mod Bytes
mod Examples
use ostrich.Base.{ℕ, ◌<◌, Bool, true, false, not, ◌&&◌, Option, none, some, List, [], ◌∷◌}
use ostrich.Base.{ltb, leb, ◌==◌, if◌then◌else◌}
use ostrich.Base.Int.{ℤ, pos, negsuc, eqb_ℤ}
use ostrich.Ordered.{lower_bound, rewind, assign, is_empty}
use mathlib.Core.Option

-- The position for each triple pattern but S P O, which is always 0.
pub record PatchPositions : Type 0 where
  pub sp : ℤ
  pub so : ℤ
  pub s : ℤ
  pub po : ℤ
  pub p : ℤ
  pub o : ℤ
  pub any : ℤ

-- The constructor with no argument sets all of them to -1.
abbrev pub no_positions : PatchPositions
no_positions = record {
  sp = negsuc 0;
  so = negsuc 0;
  s = negsuc 0;
  po = negsuc 0;
  p = negsuc 0;
  o = negsuc 0;
  any = negsuc 0;
}

-- The three components of the pattern, 0 where it is a variable.
unfoldable pub get_by_pattern : ℕ → ℕ → ℕ → PatchPositions → ℤ
get_by_pattern subject predicate object r =
    let s = ltb 0 subject in
    let p = ltb 0 predicate in
    let o = ltb 0 object in
    if s && (p && o)
    then pos 0
    else (if s && (p && not o)
        then r.sp
        else (if s && (not p && o)
            then r.so
            else (if s && (not p && not o)
                then r.s
                else (if not s && (p && o)
                    then r.po
                    else (if not s && (p && not o)
                        then r.p
                        else (if not s && (not p && o) then r.o else r.any))))))

-- `operator==`
unfoldable pub same_positions : PatchPositions → PatchPositions → Bool
same_positions a b =
    eqb_ℤ a.sp b.sp
    && (eqb_ℤ a.so b.so
        && (eqb_ℤ a.s b.s
            && (eqb_ℤ a.po b.po && (eqb_ℤ a.p b.p && (eqb_ℤ a.o b.o && eqb_ℤ a.any b.any)))))

-- A patch id with its positions.
abbrev pub Version : Type 0
Version = ℕ × PatchPositions

-- `*it_insert` at the patch id, or the entry before it in the order.
unfoldable pub insert_after :
    ℕ → PatchPositions → List Version → List Version → List Version → Version → List Version × Bool
insert_after patch_id positions before after m (id, old) =
    if id == patch_id
    then (assign patch_id positions m, true)
    else (if not (same_positions old positions)
        then (rewind before ((patch_id, positions) ∷ after), true)
        else (m, false))

-- The entries from `lower_bound` on, and those before it, nearest first.
unfoldable pub insert_at_bound :
    ℕ → PatchPositions → List Version → List Version → List Version → Option (List Version × Bool)
unfolding insert_after
insert_at_bound id positions [] [] m = none
insert_at_bound id positions [] (e ∷ before) m =
    some (insert_after id positions (e ∷ before) [] m e)
insert_at_bound id positions (e ∷ after) [] m =
    if ltb id e.0 then none else some (insert_after id positions [] (e ∷ after) m e)
insert_at_bound id positions (e ∷ after) (d ∷ before) m =
    if ltb id e.0
    then some (insert_after id positions (d ∷ before) (e ∷ after) m d)
    else some (insert_after id positions (d ∷ before) (e ∷ after) m e)

unfoldable pub insert_positions : ℕ → PatchPositions → List Version → Option (List Version × Bool)
unfolding insert_at_bound lower_bound
insert_positions id positions m =
    if is_empty m
    then some ((id, positions) ∷ [], true)
    else (let at = lower_bound id m in insert_at_bound id positions at.after at.before m)

-- Deletions keep their positions: `return false;`
unfoldable pub delete_positions : ℕ → List Version → List Version × Bool
delete_positions id m = (m, false)

abbrev pub positions_of : ℕ → Version → Option PatchPositions
positions_of id (j, positions) = if leb j id then some positions else none

unfoldable pub get_at_bound : ℕ → List Version → List Version → Option (Option PatchPositions)
get_at_bound id [] [] = none
get_at_bound id [] (e ∷ before) = some (positions_of id e)
get_at_bound id (e ∷ after) [] = if ltb id e.0 then none else some (positions_of id e)
get_at_bound id (e ∷ after) (d ∷ before) =
    if ltb id e.0 then some (positions_of id d) else some (positions_of id e)

-- The outer `none` is undefined behaviour, the inner one the result `false`.
unfoldable pub get_positions : ℕ → List Version → Option (Option PatchPositions)
unfolding get_at_bound lower_bound
get_positions id m =
    if is_empty m
    then some none
    else (let at = lower_bound id m in get_at_bound id at.after at.before)
