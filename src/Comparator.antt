-- ===== src/Comparator.antt =====
-- `PatchTreeKeyComparator` of src/main/cpp/patch/patch_tree_key_comparator.cc, and `compareComponent` of
-- src/main/cpp/dictionary/dictionary_manager.cc: the order of the keys of the trees.
pub mod Range
pub mod Components
pub mod Keys
pub mod Numbers
mod Examples
use ostrich.Base.{ℕ, ◌+◌, ◌-◌, ◌%◌, ◌^◌, Bool, not, ◌&&◌, ◌||◌, ltb, leb, ◌==◌, if◌then◌else◌}
use ostrich.Base.Int.{ℤ, pos, negsuc}
use ostrich.Triple.{Triple, triple, ComponentOrder, spo, pos_order, osp}
use ostrich.Delta.{is_zero, differ}

-- `std::numeric_limits<size_t>::max()`: in a key, 0 comes first and this comes last.
abbrev pub max_id : ℕ
max_id = 2 ^ 64 - 1

-- `comp_s`, `comp_p` and `comp_o` on the component, with the comparison of the dictionary.
unfoldable pub component : (ℕ → ℕ → ℤ) → ℕ → ℕ → ℤ
component dict a b =
    if a == max_id || b == 0 then pos 1 else (if b == max_id || a == 0 then negsuc 0 else dict a b)

-- The comparisons of the dictionary for the three roles.
pub record Dictionary : Type 0 where
  pub subjects : ℕ → ℕ → ℤ
  pub predicates : ℕ → ℕ → ℤ
  pub objects : ℕ → ℕ → ℤ

unfoldable pub comp_s : Dictionary → Triple → Triple → ℤ
unfolding component
comp_s d a b = component d.subjects a.subject b.subject

unfoldable pub comp_p : Dictionary → Triple → Triple → ℤ
unfolding component
comp_p d a b = component d.predicates a.predicate b.predicate

unfoldable pub comp_o : Dictionary → Triple → Triple → ℤ
unfolding component
comp_o d a b = component d.objects a.object b.object

-- `compare` with the three comparisons that the comparator was made with.
unfoldable pub compare_by :
    (Triple → Triple → ℤ) → (Triple → Triple → ℤ) → (Triple → Triple → ℤ) → Triple → Triple → ℤ
compare_by compare_1 compare_2 compare_3 a b =
    if is_zero (compare_1 a b)
    then (if is_zero (compare_2 a b) then compare_3 a b else compare_2 a b)
    else compare_1 a b

-- The comparator of each index.
unfoldable pub compare_keys : ComponentOrder → Dictionary → Triple → Triple → ℤ
unfolding comp_s comp_p comp_o compare_by
compare_keys spo d = compare_by (comp_s d) (comp_p d) (comp_o d)
compare_keys pos_order d = compare_by (comp_p d) (comp_o d) (comp_s d)
compare_keys osp d = compare_by (comp_o d) (comp_s d) (comp_p d)

-- `static_cast<int>(a - b)` of two `size_t` numbers.
unfoldable pub int_difference : ℕ → ℕ → ℤ
int_difference a b =
    let bits = (a + 2 ^ 64 - b) % 2 ^ 32 in
    if ltb bits (2 ^ 31) then pos bits else negsuc (2 ^ 32 - 1 - bits)

-- `compareComponent`, with the comparison of the terms as strings as a parameter.
unfoldable pub compare_component : ℕ → ℕ → (ℕ → ℕ → ℤ) → ℕ → ℕ → ℤ
unfolding int_difference
compare_component max_hdt_id shared_count strings a b =
    if leb a max_hdt_id
      && (leb b max_hdt_id && not (differ (ltb shared_count a) (ltb shared_count b)))
    then int_difference a b
    else strings a b

-- The key behind all triples that match a pattern: the largest id in the place of each variable.
unfoldable pub upper_bound : Triple → Triple
upper_bound pattern =
    let up : ℕ → ℕ = λ n. if n == 0 then max_id else n in
    triple (up pattern.subject) (up pattern.predicate) (up pattern.object)
