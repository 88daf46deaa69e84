-- ===== src/PatchTree/Append.antt =====
-- `append_unsafe`, `contains` and `append`: the whole insertion of a patch.
use ostrich.Base.{
  ℕ, zero, suc, ◌+◌, Bool, true, false, ◌||◌, Option, none, some, List, [], ◌∷◌, ◌>>=◌, ltb,
  if◌then◌else◌,
}
use ostrich.Base.Int.{ℤ, pos, leb_ℤ}
use ostrich.Triple.{Triple, TripleVersion, PatchElement, triple}
use ostrich.Counts.{HashDb, no_counters, flush_addition_counts}
use ostrich.AdditionValue
use ostrich.AdditionValue.{AdditionValue}
use ostrich.DeletionValue
use ostrich.DeletionValue.{DeletionValue}
use ostrich.PatchTree.Visits.{Deletion, Addition, Sources, Visit, next_visit}
use ostrich.PatchTree.Branches.{
  Work, Outcome, loaded_addition, loaded_deletion, step_deletion, step_addition, step_patch,
  step_patch_deletion, step_patch_addition, step_both,
}

abbrev pub is_some : {A : Type 0} → Option A → Bool
is_some none = false
is_some (some a) = true

module _ {S C : Type 0} (positions_db : HashDb S ℕ ℕ) (counts_db : HashDb C TripleVersion ℕ)
    (max_patch_id patch_id : ℕ) where
  -- The values of a round as they are loaded.
  abbrev pub loaded_d : Deletion → Deletion
  loaded_d (key, v) = (key, loaded_deletion (max_patch_id + 1) v)

  abbrev pub loaded_a : Work S C → Addition → Addition
  loaded_a w (key, v) = (key, loaded_addition w.limit v)

  -- The body of a round by the elements that it takes; a round with none of them does not occur.
  unfoldable pub handle_parts :
      Triple
      → Option PatchElement
      → Option Deletion
      → Option Addition
      → Work S C
      → Option (Outcome S C)
  unfolding step_deletion step_addition step_patch step_patch_deletion step_patch_addition step_both
  handle_parts t none none none w = none
  handle_parts t none (some d) none w = step_deletion positions_db counts_db patch_id (loaded_d d) w
  handle_parts t none none (some a) w =
      step_addition positions_db counts_db patch_id (loaded_a w a) w
  handle_parts t (some e) none none w = step_patch positions_db counts_db patch_id e w
  handle_parts t (some e) (some d) none w =
      step_patch_deletion positions_db counts_db patch_id e (loaded_d d) w
  handle_parts t (some e) none (some a) w =
      step_patch_addition positions_db counts_db patch_id e (loaded_a w a) w
  handle_parts t none (some d) (some a) w =
      step_both positions_db counts_db patch_id false t (loaded_d d) (loaded_a w a) w
  handle_parts t (some e) (some d) (some a) w =
      step_both positions_db counts_db patch_id true t (loaded_d d) (loaded_a w a) w

  unfoldable pub handle : Visit → Work S C → Option (Outcome S C)
  unfolding handle_parts
  handle v w = handle_parts v.current v.patch v.deletion v.addition w

  module _ (compare : Triple → Triple → ℤ) where
    -- `while (true)`, for at most `fuel` rounds: what the rounds write, and what is left of the work.
    unfoldable pub append_loop : ℕ → Sources → Work S C → Option (List (Outcome S C) × Work S C)
    unfolding next_visit handle
    append_loop zero s w = none
    append_loop (suc fuel) s w = elim (next_visit compare s) [
      | none ↦ some ([], w)
      | some (v, s') ↦ handle v w >>= λ o. append_loop fuel s' o.work >>= λ r. some (o ∷ r.0, r.1)
    ]

    -- In a tree that is not read-only. `records` gives the records of the temporary counts in the order
    -- of their cursor, and `lasting` are the lasting counts. The result is what is written, the new
    -- lasting counts and the new `max_patch_id`.
    unfoldable pub append_unsafe :
        ℕ
        → List PatchElement
        → List Deletion
        → List Addition
        → (C → List (TripleVersion × ℕ))
        → C
        → Option (List (Outcome S C) × C × ℕ)
    unfolding append_loop
    append_unsafe fuel patch deletions additions records lasting = do
      (outcomes, work) ←
          append_loop fuel
            (record {
              patch = patch;
              deletions = deletions;
              additions = additions;
              last = triple 0 0 0;
            })
            (record {
              limit = max_patch_id + 1;
              counters = no_counters positions_db;
              counts = counts_db.empty;
            })
      some (
        outcomes,
        (flush_addition_counts counts_db (records work.counts) lasting).1,
        if ltb max_patch_id patch_id then patch_id else max_patch_id,
      )

-- `contains` in a tree, whose look-up of a triple is a parameter.
module _ (get_addition : Triple → Option AdditionValue)
    (get_deletion : Triple → Option DeletionValue) (max_patch_id patch_id : ℕ) where
  unfoldable pub contains_addition : PatchElement → Option Bool
  contains_addition e = elim (get_addition e.element_triple) [
    | none ↦ some false
    | some v ↦ AdditionValue.is_patch_id (pos patch_id) (loaded_addition (max_patch_id + 1) v)
  ]

  unfoldable pub contains_deletion : PatchElement → Bool
  contains_deletion e = elim (get_deletion e.element_triple) [
    | none ↦ false
    | some v ↦
        leb_ℤ (pos 0)
          (DeletionValue.get_patchvalue_index patch_id (loaded_deletion (max_patch_id + 1) v))
  ]

  unfoldable pub contains : Bool → PatchElement → Option Bool
  unfolding contains_addition contains_deletion
  contains ignore_type e =
      if ignore_type
      then (contains_addition e >>= λ found. some (found || contains_deletion e))
      else (if e.is_addition then contains_addition e else some (contains_deletion e))

  -- The loop of `append` before the insertion: whether some element is there.
  unfoldable pub any_contained : List PatchElement → Option Bool
  unfolding contains
  any_contained [] = some false
  any_contained (e ∷ patch) =
      let rest = any_contained patch in
      contains true e >>= λ found. if found then some true else rest

module _ {S C : Type 0} (positions_db : HashDb S ℕ ℕ) (counts_db : HashDb C TripleVersion ℕ)
    (get_addition : Triple → Option AdditionValue) (get_deletion : Triple → Option DeletionValue)
    (max_patch_id patch_id : ℕ) (compare : Triple → Triple → ℤ) where
  -- `none` inside for the result `false`.
  unfoldable pub append :
      ℕ
      → List PatchElement
      → List Deletion
      → List Addition
      → (C → List (TripleVersion × ℕ))
      → C
      → Option (Option (List (Outcome S C) × C × ℕ))
  unfolding any_contained append_unsafe
  append fuel patch deletions additions records lasting =
      any_contained get_addition get_deletion max_patch_id patch_id patch >>= λ found.
      if found
      then some none
      else (append_unsafe positions_db counts_db max_patch_id patch_id compare fuel patch deletions
            additions records lasting
          >>= λ r. some (some r))
