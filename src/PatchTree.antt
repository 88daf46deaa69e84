-- ===== src/PatchTree.antt =====
-- The insertion of a patch into a patch tree: `PatchTree::append_unsafe`, `append` and `contains` of
-- src/main/cpp/patch/patch_tree.cc, and the insertions of src/main/cpp/patch/triple_store.cc, as they
-- are built (with COMPRESSED_ADD_VALUES and COMPRESSED_DEL_VALUES).
pub mod Visits
pub mod Store
pub mod Branches
pub mod Append
pub mod Chosen
pub mod Order
pub mod Loop
pub mod Changes
pub mod Carried
pub mod Turns
pub mod Queries
mod Examples
