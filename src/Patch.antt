-- ===== src/Patch.antt =====
-- `PatchSorted`, `PatchUnsorted` and `PatchHashed` of src/main/cpp/patch/patch.cc, with the comparator of
-- the elements of src/main/cpp/patch/patch_element_comparator.cc. A vector is a list. `std::lower_bound`
-- gives the first position of a sorted vector whose element is not less.
pub mod Sorted
pub mod Lookup
pub mod Coded
mod Examples
use ostrich.Base.{
  ℕ, zero, suc, ◌+◌, Bool, true, false, not, ◌&&◌, ◌||◌, Option, none, some, List, [], ◌∷◌, ◌++◌,
}
use ostrich.Base.{◌==◌, if◌then◌else◌, length, get_elem?}
use ostrich.Base.Int.{ℤ, pos, negsuc}
use ostrich.Triple.{Triple, PatchElement, equals}
use ostrich.Delta.{differ, is_negative}
use mathlib.Core.Option

-- `PatchElement(triple, addition)`
abbrev pub element_of : Triple → Bool → PatchElement
element_of t addition = record {
  element_triple = t;
  is_addition = addition;
  is_local_change = false;
}

-- `operator==` of the elements
unfoldable pub same_element : PatchElement → PatchElement → Bool
unfolding equals
same_element a b =
    equals a.element_triple b.element_triple && not (differ a.is_addition b.is_addition)

-- What an element leaves of the one with its triple: a change of the other kind flips the local flag.
unfoldable pub overwritten : PatchElement → PatchElement → PatchElement
overwritten old e =
    if differ old.is_addition e.is_addition
    then record e { is_local_change = not old.is_local_change }
    else e

-- `get`: `none` is the exception for an index out of bounds.
unfoldable pub get : ℤ → List PatchElement → Option PatchElement
get (pos i) elements = get_elem? elements i
get (negsuc i) elements = none

-- `PatchUnsorted::add` and `PatchSorted::add_unsorted`
unfoldable pub push_back : PatchElement → List PatchElement → List PatchElement
push_back e elements = elements ++ (e ∷ [])

-- Whether the element at the bound is the one that is looked for.
abbrev pub starts_with : PatchElement → List PatchElement → Bool
starts_with e [] = false
starts_with e (x ∷ l) = same_element x e

module _ (compare : Triple → Triple → ℤ) where
  unfoldable pub is_less : PatchElement → PatchElement → Bool
  is_less a b = is_negative (compare a.element_triple b.element_triple)

  -- At the bound.
  unfoldable pub put : PatchElement → List PatchElement → List PatchElement
  unfolding overwritten equals
  put e [] = e ∷ []
  put e (x ∷ l) =
      if equals x.element_triple e.element_triple then overwritten x e ∷ l else e ∷ x ∷ l

  unfoldable pub add : PatchElement → List PatchElement → List PatchElement
  unfolding is_less put
  add e [] = put e []
  add e (x ∷ l) = let rest = add e l in if is_less x e then x ∷ rest else put e (x ∷ l)

  -- `addAll`
  unfoldable pub add_all : List PatchElement → List PatchElement → List PatchElement
  unfolding add
  add_all [] elements = elements
  add_all (e ∷ patch) elements = add_all patch (add e elements)

  -- The elements from `lower_bound` on.
  unfoldable pub from_bound : PatchElement → List PatchElement → List PatchElement
  unfolding is_less
  from_bound e [] = []
  from_bound e (x ∷ l) = let rest = from_bound e l in if is_less x e then rest else x ∷ l

  unfoldable pub position_of : PatchElement → List PatchElement → ℕ
  unfolding is_less
  position_of e [] = 0
  position_of e (x ∷ l) = let rest = position_of e l in if is_less x e then suc rest else 0

  unfoldable pub position_of_strict : PatchElement → List PatchElement → ℤ
  unfolding position_of from_bound same_element
  position_of_strict e l =
      if starts_with e (from_bound e l) then pos (position_of e l) else negsuc 0

  unfoldable pub index_of_triple : Triple → List PatchElement → ℤ
  unfolding position_of from_bound same_element
  index_of_triple t l =
      if starts_with (element_of t false) (from_bound (element_of t false) l)
      then pos (position_of (element_of t false) l)
      else (if starts_with (element_of t true) (from_bound (element_of t true) l)
          then pos (position_of (element_of t true) l)
          else negsuc 0)

-- `PatchHashed`: the map from triples to the two flags, as the list of its entries.
abbrev pub Entry : Type 0
Entry = Triple × Bool × Bool

unfoldable pub find_entry : Triple → List Entry → Option Entry
unfolding equals
find_entry t [] = none
find_entry t (x ∷ l) = let rest = find_entry t l in if equals x.0 t then some x else rest

-- `insert` keeps an entry that is there.
unfoldable pub add_hashed : PatchElement → List Entry → List Entry
unfolding find_entry
add_hashed e l = elim (find_entry e.element_triple l) [
  | none ↦ (e.element_triple, e.is_addition, e.is_local_change) ∷ l
  | some x ↦ l
]

-- The element of the new patch in the loop of `join_sorted`.
unfoldable pub joined_element : PatchElement → List Entry → PatchElement
unfolding find_entry overwritten
joined_element e l = elim (find_entry e.element_triple l) [
  | none ↦ e
  | some (t, addition, local) ↦
      overwritten (record { element_triple = t; is_addition = addition; is_local_change = local }) e
]

-- Whether the triple of an entry is among those of the patch.
unfoldable pub is_skipped : Triple → List PatchElement → Bool
unfolding equals
is_skipped t [] = false
is_skipped t (e ∷ patch) = equals e.element_triple t || is_skipped t patch

unfoldable pub rest_elements : List PatchElement → List Entry → List PatchElement
unfolding is_skipped
rest_elements patch [] = []
rest_elements patch ((t, addition, local) ∷ l) =
    let rest = rest_elements patch l in
    if is_skipped t patch
    then rest
    else record { element_triple = t; is_addition = addition; is_local_change = local } ∷ rest

abbrev pub joined_elements : List PatchElement → List Entry → List PatchElement
joined_elements [] l = []
joined_elements (e ∷ patch) l = joined_element e l ∷ joined_elements patch l

module _ (sort : List PatchElement → List PatchElement) where
  -- `join_sorted`, with `std::sort` by the comparator as a parameter.
  unfoldable pub join_sorted : List PatchElement → List Entry → List PatchElement
  unfolding joined_element rest_elements
  join_sorted patch [] = sort patch
  join_sorted patch (x ∷ l) = sort (joined_elements patch (x ∷ l) ++ rest_elements patch (x ∷ l))
