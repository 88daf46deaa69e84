-- ===== src/Managers.antt =====
-- The choice of the snapshot and of the patch tree for a patch: the look-ups of `SnapshotManager`
-- (src/main/cpp/snapshot/snapshot_manager.cc) and of `PatchTreeManager`
-- (src/main/cpp/patch/patch_tree_manager.cc) in their maps by the first patch id.
pub mod Latest
mod Examples
use ostrich.Base.{ℕ, List, [], ◌∷◌, leb, ltb, if◌then◌else◌}
use ostrich.Base.Int.{ℤ, pos, negsuc}
use ostrich.Ordered.{Position, lower_bound}

module _ {V : Type 0} where
  -- `while(it != loaded_snapshots.begin())` at an entry, with the entries before it.
  unfoldable pub walk_back : ℕ → ℕ → List (ℕ × V) → ℤ
  walk_back patch_id k [] = if leb k patch_id then pos k else negsuc 0
  walk_back patch_id k ((j, v) ∷ before) =
      if leb k patch_id then pos k else walk_back patch_id j before

  -- `get_latest_snapshot` from the lower bound on, stepped back from `end()`.
  unfoldable pub latest_at : ℕ → List (ℕ × V) → List (ℕ × V) → ℤ
  unfolding walk_back
  latest_at patch_id [] [] = negsuc 0
  latest_at patch_id ((j, v) ∷ before) [] = walk_back patch_id j before
  latest_at patch_id before ((k, v) ∷ after) = walk_back patch_id k before

  unfoldable pub get_latest_snapshot : ℕ → List (ℕ × V) → ℤ
  unfolding latest_at
  get_latest_snapshot patch_id m =
      let it = lower_bound patch_id m in latest_at patch_id it.before it.after

  -- `it--` at the begin is the answer -1.
  unfoldable pub step_back : List (ℕ × V) → ℤ
  step_back [] = negsuc 0
  step_back ((j, v) ∷ before) = pos j

  unfoldable pub tree_at : ℕ → List (ℕ × V) → List (ℕ × V) → ℤ
  unfolding step_back
  tree_at patch_id before [] = step_back before
  tree_at patch_id before ((k, v) ∷ after) = if ltb patch_id k then step_back before else pos k

  unfoldable pub get_patch_tree_id : ℕ → List (ℕ × V) → ℤ
  unfolding tree_at
  get_patch_tree_id patch_id m =
      let it = lower_bound patch_id m in tree_at patch_id it.before it.after

  unfoldable pub get_max_snapshot_id : List (ℕ × V) → ℤ
  get_max_snapshot_id [] = negsuc 0
  get_max_snapshot_id ((k, v) ∷ []) = pos k
  get_max_snapshot_id ((k, v) ∷ e ∷ m) = get_max_snapshot_id (e ∷ m)

  unfoldable pub get_snapshots_ids : List (ℕ × V) → List ℕ
  get_snapshots_ids [] = []
  get_snapshots_ids ((k, v) ∷ m) = k ∷ get_snapshots_ids m
