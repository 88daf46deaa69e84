-- ===== src/Lib.antt =====
-- OSTRICH, a store for versioned RDF datasets: each version is a snapshot (an HDT file) or a patch, and
-- for each triple a patch tree keeps a value that tells in which patches the triple is added or deleted.
-- Patches are numbered, and a change holds from its patch on until another change.
--
-- The files follow the value of a triple from the bottom up, and then the deltas between versions:
--   Ordered        the part of `std::map` and `std::lower_bound` that the code uses, as a list of
--                  entries in the order of their keys, with a position between two entries
--   Interval       `IntervalList` of src/main/cpp/patch/interval_list.h: a set of patch ids as disjoint
--                  intervals; an interval that ends at `max` is open
--   AdditionValue  `PatchTreeAdditionValue` of src/main/cpp/patch/patch_tree_addition_value.cc: two
--                  interval lists, the patches with the triple and the local changes
--   Positions      `PatchPositions` and `DeltaPatchPositionsContainerV2` of
--                  src/main/cpp/patch/patch_tree_deletion_value.h and .cc
--   DeletionValue  `DVIntervalList` and `PatchTreeDeletionValueBase` of the same files
--   TreeValue      `PatchTreeValueBase` of src/main/cpp/patch/patch_tree_value.cc, which asks both values
--   Delta          the iterators of src/main/cpp/controller/triple_delta_iterator.cc that merge deltas
--   VariableInteger  the LEB128 codes of src/main/cpp/patch/variable_size_integer.h
--   Triple         triples, patterns, the elements of a patch and their byte formats, of
--                  src/main/cpp/patch/triple.cc, patch_element.cc and triple_store.h
--   Comparator     the order of the keys in each index, of src/main/cpp/patch/patch_tree_key_comparator.cc
--                  and src/main/cpp/dictionary/dictionary_manager.cc; what an order of the keys does for
--                  the walks over the trees, and that the comparators of the three indexes do it, is in
--                  Keys
--   Counts         the counters of the positions (src/main/cpp/patch/patch.cc) and of the additions
--                  (src/main/cpp/patch/triple_store.cc) that an insertion keeps, with the flush of the
--                  latter into the counts that queries read (Lasting)
--   Patch          the patches of src/main/cpp/patch/patch.cc
--   PatchTree      the insertion of a patch, of src/main/cpp/patch/patch_tree.cc: which elements a round
--                  of its loop takes (Visits), what a round does (Branches, with Store for the
--                  insertions of triple_store.cc), the loop and `append` (Append), and what is shown of
--                  them: the order of the rounds (Chosen, Order, Loop), and the values that they leave
--                  (Changes, Carried, Turns); the queries over a tree, with its cursors, are in Queries
--   PatchTreeIterator  the records of a patch tree under filters, of
--                  src/main/cpp/patch/patch_tree_iterator.cc: one call over one tree (Scan) and all of
--                  them (Filtered), a round over both trees (Rounds), all calls (Merged, Ends), and the
--                  trees of another index than that of the comparator (Unordered)
--   SnapshotManager  the search in a snapshot from an offset, of src/main/cpp/snapshot/snapshot_manager.cc,
--                  and the sorted iterator of src/main/cpp/snapshot/sorted_triple_iterator.cc
--   Managers       the choice of the snapshot and of the patch tree for a patch id, of that file and of
--                  src/main/cpp/patch/patch_tree_manager.cc
--   VersionQuery   the query for one version: the loop over offsets of `get_version_materialized`
--                  (src/main/cpp/controller/controller.cc) and its iterator
--                  (src/main/cpp/controller/snapshot_patch_iterator_triple_id.cc). Cursor, Deleted, Emitted and
--                  Collected are about the iterator, Counting, First, Offset and Skipped about the loop,
--                  Additions and Drops about its second part, and Result joins them; Repeats is about a
--                  pattern whose deletions are not together in the tree
--   Versions       the versions of triples, of src/main/cpp/controller/triple_versions_iterator.cc
--   Base           tests, lists, integers and fallible results for all of them
-- A definition has the name of the function that it models. A member function that changes its object
-- takes the object and returns the new one with the result; a loop over a map or a container is a
-- recursion on the list of its entries, and a helper stands for its body or for the code behind a look-up.
--
-- The code steps an iterator back from `begin()` in some cases, which is undefined behaviour; such a run
-- returns `none`. The class of the deletions is a flag for whether it has positions. The triples of the delta and
-- versions iterators are a parameter, with the order that is given on them as a hypothesis. The comparator of
-- the patches and trees is a parameter that orders the keys (KeyRanks): the triples that it ranks above 0,
-- while nothing is asked for a triple with a reserved id. The comparator of each index does it, where
-- the comparisons of its dictionary order the ids (DictionaryRanks). A hash store
-- of Kyoto Cabinet is a parameter with the documented laws of its `get` and `set` (HashDb); a tree comes as
-- the list of its records in order, which its cursor walks, and what is written to it comes as a list.
--
-- Bounds and fuel: patch ids are natural numbers and `max` is `INT_MAX` where the code sets it; counters
-- do not wrap. An iterator is run for as many calls of `next` as its sources have elements and one more,
-- which the theorems show to be enough, a LEB128 loop for ten rounds, and the loop of an insertion for
-- as many rounds as the patch and the two trees have elements and one more, which is shown to be enough;
-- the iterator over both trees calls itself behind a local change at most once for each record, which is
-- shown, too; every other loop is a recursion on a list or on its bound.
--
-- The HDT library is a parameter (Hdt), with what its searches give as a hypothesis (HdtLaws). The loop over
-- offsets runs for as many rounds as the tree has deletions and two more, and the search for the next
-- deletion for as many as are left and two more; both are shown to be enough.
--
-- Not modelled: the byte formats but those of the numbers, the positions, the interval lists and the
-- triples; the strings; the stores of Kyoto Cabinet and the HDT library with the code that mostly calls
-- them (the files of the patch trees, dictionaries, snapshots); the caches of snapshots and patch trees; the
-- controller but its query for one version, with the strategies for new snapshots and the metadata; the
-- evaluation; and the variants of the values that the build does not select.
--
-- Nothing shows that the insertions leave a tree whose positions and counts fit the snapshot, as the query
-- for a version asks it: for a pattern whose triples are not together in the SPO order this need not be so.
pub mod Base
pub mod Ordered
pub mod Interval
pub mod AdditionValue
pub mod Positions
pub mod DeletionValue
pub mod TreeValue
pub mod Triple
pub mod Comparator
pub mod Counts
pub mod Patch
pub mod PatchTree
pub mod SnapshotManager
pub mod VersionQuery
pub mod Managers
pub mod Versions
pub mod PatchTreeIterator
pub mod Delta
pub mod VariableInteger
