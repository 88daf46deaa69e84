-- ===== src/Versions/Combined.antt =====
-- `TripleVersionsIteratorCombinedV2` and `TripleVersionsIteratorMerged` of
-- src/main/cpp/controller/triple_versions_iterator.cc. `T` is a triple with its dictionary, and `compare`
-- the comparator of the iterators. A position in the vector is the list of the elements before it,
-- nearest first, and the list of those from it on.
use ostrich.Base.{ℕ, zero, suc, ◌+◌, Bool, true, false, Option, none, some, List, [], ◌∷◌}
use ostrich.Base.{ltb, if◌then◌else◌, length, drop}
use ostrich.Base.Int.{ℤ}
use ostrich.Delta.{is_zero, is_negative}
use Prim.Native.Nat.{compare as compare_ℕ, Ordering}

pub record Annotated (T : Type 0) : Type 0 where
  pub item : T
  pub versions : List ℕ

-- `std::set_union` of two sorted ranges.
unfoldable pub set_union : List ℕ → List ℕ → List ℕ
set_union [] ys = ys
set_union (x ∷ xs) [] = x ∷ xs
set_union (x ∷ xs) (y ∷ ys) = elim (compare_ℕ x y) [
  | Ordering.lt ↦ x ∷ set_union xs (y ∷ ys)
  | Ordering.gt ↦ y ∷ set_union (x ∷ xs) ys
  | Ordering.eq ↦ x ∷ set_union xs ys
]

-- `std::merge`, which keeps both of two equal elements.
unfoldable pub merge : List ℕ → List ℕ → List ℕ
merge [] ys = ys
merge (x ∷ xs) [] = x ∷ xs
merge (x ∷ xs) (y ∷ ys) = elim (ltb y x) [
  | true ↦ y ∷ merge (x ∷ xs) ys
  | false ↦ x ∷ merge xs (y ∷ ys)
]

-- `std::unique` and `erase`: of equal neighbours the first one stays.
unfoldable pub unique : List ℕ → List ℕ
unique [] = []
unique (x ∷ []) = x ∷ []
unique (x ∷ y ∷ l) = let rest = unique (y ∷ l) in if ostrich.Base.◌==◌ x y then rest else x ∷ rest

module _ {T : Type 0} where
  abbrev pub rewind : List (Annotated T) → List (Annotated T) → List (Annotated T)
  rewind [] after = after
  rewind (a ∷ before) after = rewind before (a ∷ after)

  -- `(*pos)` with the versions of both.
  abbrev pub united : Annotated T → Annotated T → Annotated T
  united p t = record p { versions = set_union p.versions t.versions }

  module _ (compare : T → T → ℤ) where
    -- `std::lower_bound(pos, triples.end(), t, *comparator)`
    unfoldable pub skip_less :
        Annotated T
        → List (Annotated T)
        → List (Annotated T)
        → List (Annotated T) × List (Annotated T)
    skip_less t before [] = (before, [])
    skip_less t before (p ∷ after) =
        let further = skip_less t (p ∷ before) after in
        if is_negative (compare p.item t.item) then further else (before, p ∷ after)

    -- `while (status)`, for at most `fuel` rounds, over what the added iterator still gives.
    unfoldable pub add_loop :
        ℕ
        → List (Annotated T)
        → List (Annotated T)
        → List (Annotated T)
        → Option (List (Annotated T))
    unfolding skip_less
    add_loop zero before after source = none
    add_loop (suc fuel) before after [] = some (rewind before after)
    add_loop (suc fuel) before [] (t ∷ ts) = add_loop fuel (t ∷ before) [] ts
    add_loop (suc fuel) before (p ∷ after) (t ∷ ts) =
        let same = add_loop fuel (united p t ∷ before) after ts in
        let less = add_loop fuel (t ∷ before) (p ∷ after) ts in
        let more =
          add_loop fuel (skip_less t before (p ∷ after)).0 (skip_less t before (p ∷ after)).1
            (t ∷ ts) in
        if is_zero (compare t.item p.item)
        then same
        else (if is_negative (compare t.item p.item) then less else more)

    -- `add_iterator`, with the first position; with nothing to add the position is not used.
    unfoldable pub add_iterator :
        List (Annotated T) → List (Annotated T) → Option (List (Annotated T))
    unfolding add_loop
    add_iterator triples [] = add_loop (suc (length triples)) [] triples []
    add_iterator triples (t ∷ ts) =
        add_loop (suc (length triples + length (t ∷ ts))) (skip_less t [] triples).0
          (skip_less t [] triples).1 (t ∷ ts)

    -- `next` of TripleVersionsIteratorMerged over what its two iterators still give.
    unfoldable pub next_merged_versions :
        List (Annotated T)
        → List (Annotated T)
        → Option (Annotated T × (List (Annotated T) × List (Annotated T)))
    unfolding unique merge
    next_merged_versions [] [] = none
    next_merged_versions (a ∷ l1) [] = some (a, (l1, []))
    next_merged_versions [] (b ∷ l2) = some (b, ([], l2))
    next_merged_versions (a ∷ l1) (b ∷ l2) =
        if is_negative (compare a.item b.item)
        then some (a, (l1, b ∷ l2))
        else (if is_zero (compare a.item b.item)
            then some (record a { versions = unique (merge a.versions b.versions) }, (l1, l2))
            else some (b, (a ∷ l1, l2)))

  -- `next`, `get_count` and `offset` of the combined iterator, over the elements from `triples_it` on.
  unfoldable pub next_combined : List (Annotated T) → Option (Annotated T × List (Annotated T))
  next_combined [] = none
  next_combined (a ∷ l) = some (a, l)

  unfoldable pub offset_combined : ℕ → List (Annotated T) → List (Annotated T)
  offset_combined offset l = if ltb (length l) offset then [] else drop offset l
