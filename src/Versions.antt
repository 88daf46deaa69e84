-- ===== src/Versions.antt =====
-- The versions of each triple: the iterators of src/main/cpp/controller/triple_versions_iterator.cc that
-- `Controller::get_version` uses (PatchTreeTripleVersionsIteratorV2, TripleVersionsIteratorCombinedV2),
-- with PatchTreeTripleVersionsIterator and TripleVersionsIteratorMerged. `none` is undefined behaviour.
pub mod Erased
pub mod Combined
pub mod Joined
mod Examples
use ostrich.Base.{
  ℕ, zero, suc, ◌+◌, ◌-◌, Bool, true, false, not, Option, none, some, List, [], ◌∷◌, ◌++◌, ◌>>=◌,
}
use ostrich.Base.{ltb, ◌==◌, if◌then◌else◌}
use ostrich.Base.Int.{ℤ, pos, pos_part, eqb_ℤ, negsuc}
use ostrich.Triple.{Triple, ComponentOrder, spo}
use ostrich.AdditionValue
use ostrich.DeletionValue
use ostrich.DeletionValue.{DeletionValue}
use ostrich.Delta.{is_zero, is_negative}
use ostrich.PatchTree.Visits.{Addition}
use ostrich.PatchTreeIterator.{Filters, next_addition}
use ostrich.PatchTree.Queries.{Trees, AdditionIterator, find_value, addition_iterator}

pub record TripleVersions : Type 0 where
  pub item : Triple
  pub versions : List ℕ

abbrev pub versions_of : Triple → List ℕ → TripleVersions
versions_of t l = record { item = t; versions = l }

-- `std::iota` into a vector of that size.
abbrev pub iota : ℕ → ℕ → List ℕ
iota start zero = []
iota start (suc n) = start ∷ iota (start + 1) n

-- `equal_range` and `erase` on the sorted vector.
unfoldable pub erase_equal : ℤ → List ℕ → List ℕ
erase_equal id [] = []
erase_equal id (v ∷ l) = if eqb_ℤ (pos v) id then erase_equal id l else v ∷ erase_equal id l

-- `for (v_del = 0; v_del < deletion->get_size(); v_del++)`, with the rounds that are left.
unfoldable pub erase_from : ℕ → ℕ → DeletionValue → List ℕ → Option (List ℕ)
unfolding erase_equal
erase_from zero i deletion versions = some versions
erase_from (suc n) i deletion versions = DeletionValue.get_patch_at true (pos i) deletion >>= λ e.
    erase_from n (suc i) deletion (erase_equal e.patch_id versions)

unfoldable pub erase_deleted : Option DeletionValue → List ℕ → Option (List ℕ)
unfolding erase_from
erase_deleted none versions = some versions
erase_deleted (some d) versions = erase_from (pos_part (DeletionValue.get_size d)) 0 d versions

-- `eraseDeletedVersions`, the same in both iterators.
unfoldable pub erase_deleted_versions : Option Trees → Triple → ℕ → Option (List ℕ)
unfolding erase_deleted
erase_deleted_versions none t initial = some (initial ∷ [])
erase_deleted_versions (some trees) t initial =
    erase_deleted (find_value t (trees.deletions spo))
      (iota initial (trees.max_patch_id + 1 - initial))

-- `value->get_patch_id_at(0)`, which is a version if the value has a patch.
unfoldable pub first_patch : Addition → Option ℕ
first_patch a = elim (AdditionValue.get_patch_id_at (pos 0) a.1) [
  | pos v ↦ some v
  | negsuc n ↦ none
]

-- `PatchTreeTripleVersionsIterator`: the snapshot iterator, and the addition iterator once it is made.
pub record Plain : Type 0 where
  pub snapshot_it : List Triple
  pub addition_it : Option AdditionIterator

-- `while (addition_it->next_addition(...))`: the additions whose first patch is no local change, for at
-- most `fuel` rounds.
unfoldable pub next_new_addition :
    ℕ → Filters → List Addition → Option (Option Addition × List Addition)
unfolding first_patch
next_new_addition zero f l = none
next_new_addition (suc fuel) f l = next_addition f l >>= λ r. elim r.0 [
  | none ↦ some (none, r.1)
  | some a ↦
      let rest = next_new_addition fuel f r.1 in
      first_patch a >>= λ v.
      AdditionValue.is_local_change v a.1 >>= λ local. if local then rest else some (some a, r.1)
]

-- `PatchTreeTripleVersionsIteratorV2`: the two triples that were read ahead, `none` where the status is
-- false, and what the iterators still give.
pub record Ahead : Type 0 where
  pub t1 : Option Triple
  pub snapshot_it : List Triple
  pub t2 : Option Addition
  pub cursor : List Addition

-- `step_snapshot_it`
unfoldable pub step_snapshot_it : Ahead → Ahead
step_snapshot_it s = elim s.snapshot_it [
  | [] ↦ record s { t1 = none }
  | ◌∷◌ t l ↦ record s { t1 = some t; snapshot_it = l }
]

module _ (compare : Triple → Triple → ℤ) (trees : Option Trees) (filters : Filters)
    (first_version : ℕ) where
  unfoldable pub step_addition_it : Ahead → Option Ahead
  step_addition_it s =
      next_addition filters s.cursor >>= λ r. some (record s { t2 = r.0; cursor = r.1 })

  -- The constructor.
  unfoldable pub read_ahead : List Triple → List Addition → Option Ahead
  unfolding step_snapshot_it step_addition_it
  read_ahead snapshot additions =
      let s =
        step_snapshot_it
          (record { t1 = none; snapshot_it = snapshot; t2 = none; cursor = additions }) in
      elim trees [ none ↦ some s | some p ↦ step_addition_it s ]

  unfoldable pub emit_snapshot : Triple → Option TripleVersions
  unfolding erase_deleted_versions
  emit_snapshot t = erase_deleted_versions trees t first_version >>= λ l. some (versions_of t l)

  unfoldable pub emit_addition : Addition → Option TripleVersions
  unfolding erase_deleted_versions first_patch
  emit_addition a =
      first_patch a >>= λ v. erase_deleted_versions trees a.0 v >>= λ l. some (versions_of a.0 l)

  -- `next` of PatchTreeTripleVersionsIteratorV2 by the two triples.
  unfoldable pub next_of :
      Option Triple → Option Addition → Ahead → Option (Option (TripleVersions × Ahead))
  unfolding emit_snapshot emit_addition step_snapshot_it step_addition_it
  next_of none none s = some none
  next_of (some t) none s = emit_snapshot t >>= λ v. some (some (v, step_snapshot_it s))
  next_of none (some a) s =
      emit_addition a >>= λ v. step_addition_it s >>= λ s'. some (some (v, s'))
  next_of (some t) (some a) s =
      if is_zero (compare t a.0)
      then (emit_snapshot t >>= λ v.
          step_addition_it (step_snapshot_it s) >>= λ s'. some (some (v, s')))
      else (if is_negative (compare t a.0)
          then (emit_snapshot t >>= λ v. some (some (v, step_snapshot_it s)))
          else (emit_addition a >>= λ v. step_addition_it s >>= λ s'. some (some (v, s'))))

  unfoldable pub next_version : Ahead → Option (Option (TripleVersions × Ahead))
  unfolding next_of
  next_version s = next_of s.t1 s.t2 s

  -- `next` of PatchTreeTripleVersionsIterator; `patch_additions` is the iterator of the patch tree.
  unfoldable pub next_plain : AdditionIterator → Plain → Option (Option (TripleVersions × Plain))
  unfolding emit_snapshot emit_addition next_new_addition
  next_plain patch_additions s = elim s.snapshot_it [
    | ◌∷◌ t l ↦ emit_snapshot t >>= λ v. some (some (v, record s { snapshot_it = l }))
    | [] ↦ elim trees [
      | none ↦ some none
      | some p ↦
          let it : AdditionIterator = elim s.addition_it [
            | none ↦ patch_additions
            | some it ↦ it
          ] in
          next_new_addition (suc (ostrich.Base.length it.cursor)) it.filters it.cursor >>= λ r.
          elim r.0 [
            | none ↦ some none
            | some a ↦ emit_addition a >>= λ v. some (
                some
                  (v, record { snapshot_it = []; addition_it = some (record it { cursor = r.1 }) }))
          ]
    ]
  ]
