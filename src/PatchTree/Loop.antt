-- ===== src/PatchTree/Loop.antt =====
-- The loop of `append_unsafe` is a fold over its rounds.
use ostrich.Base.{ℕ, zero, suc, ◌≡◌, refl, sym, ◌∙◌, ap, Option, none, some, List, [], ◌∷◌, ◌>>=◌}
use ostrich.Base.{inl, inr, Option-cases}
use mathlib.Core.Option
use mathlib.Core.Path.{subst}
use ostrich.Base.Int.{ℤ}
use ostrich.Triple.{Triple, TripleVersion}
use ostrich.Counts.{HashDb}
use ostrich.Delta.{drain, and_then}
use ostrich.Comparator.Keys.{KeyRanks}
use ostrich.PatchTree.Visits.{Sources, Visit, next_visit}
use ostrich.PatchTree.Branches.{Work, Outcome}
use ostrich.PatchTree.Append.{handle, append_loop}
use ostrich.PatchTree.Order.{AreSorted, TakeApart, size, next_visit-TakeApart}

module _ {S C : Type 0} (positions_db : HashDb S ℕ ℕ) (counts_db : HashDb C TripleVersion ℕ)
    (max_patch_id patch_id : ℕ) where
  -- The rounds one after the other, each with the work that the one before it leaves.
  abbrev pub handle_all : List Visit → Work S C → Option (List (Outcome S C) × Work S C)
  handle_all [] w = some ([], w)
  handle_all (v ∷ vs) w = handle positions_db counts_db max_patch_id patch_id v w >>= λ o.
      handle_all vs o.work >>= λ r. some (o ∷ r.0, r.1)

  module _ (compare : Triple → Triple → ℤ) where
    abbrev after_step :
        ℕ → Option (Visit × Sources) → Work S C → Option (List (Outcome S C) × Work S C)
    after_step fuel none w = some ([], w)
    after_step fuel (some (v, s')) w =
        handle positions_db counts_db max_patch_id patch_id v w >>= λ o.
        append_loop positions_db counts_db max_patch_id patch_id compare fuel s' o.work >>= λ r.
        some (o ∷ r.0, r.1)

    same_list : (a b : List Visit) → some a ≡ some b → a ≡ b
    same_list a b e = cc

    after_step-drain :
        (fuel : ℕ) (o : Option (Visit × Sources)) (vs : List Visit) (w : Work S C)
        → ((s : Sources) (us : List Visit) (x : Work S C)
            → drain (next_visit compare) fuel s ≡ some us
            → append_loop positions_db counts_db max_patch_id patch_id compare fuel s x
              ≡ handle_all us x)
        → and_then (drain (next_visit compare) fuel) o ≡ some vs
        → after_step fuel o w ≡ handle_all vs w
    after_step-drain fuel none vs w ih e =
        subst (λ us. some ([], w) ≡ handle_all us w) (same_list [] vs e) refl
    after_step-drain fuel (some (v, s')) vs w ih e =
        elim (Option-cases (drain (next_visit compare) fuel s')) [
          | inl n ↦ absurd (never vs (sym (ap (Option.map (λ ds. v ∷ ds)) n) ∙ e))
          | inr (us, run) ↦
              subst (λ xs. after_step fuel (some (v, s')) w ≡ handle_all xs w)
                (same_list (v ∷ us) vs (sym (ap (Option.map (λ ds. v ∷ ds)) run) ∙ e))
                (λ i. handle positions_db counts_db max_patch_id patch_id v w >>= λ o.
                  ih s' us o.work run i >>= λ r. some (o ∷ r.0, r.1))
        ]
      where
        never : (xs : List Visit) → none ≡ some xs → ⊥
        never xs h = cc

    after_step-loop :
        (fuel : ℕ) (s : Sources) (w : Work S C)
        → append_loop positions_db counts_db max_patch_id patch_id compare (suc fuel) s w
          ≡ after_step fuel (next_visit compare s) w
    unfolding append_loop
    after_step-loop fuel s w = same_step (next_visit compare s)
      where
        same_step :
            (o : Option (Visit × Sources))
            → elim o as (λ x. Option (List (Outcome S C) × Work S C)) [
              | none ↦ some ([], w)
              | some (v, s') ↦ handle positions_db counts_db max_patch_id patch_id v w >>= λ o.
                  append_loop positions_db counts_db max_patch_id patch_id compare fuel s' o.work
                  >>= λ r. some (o ∷ r.0, r.1)
            ]
              ≡ after_step fuel o w
        same_step none = refl
        same_step (some x) = refl

    append_loop-drain :
        (fuel : ℕ) (s : Sources) (vs : List Visit) (w : Work S C)
        → drain (next_visit compare) fuel s ≡ some vs
        → append_loop positions_db counts_db max_patch_id patch_id compare fuel s w
          ≡ handle_all vs w
    unfolding drain
    append_loop-drain zero s vs w e = cc
    append_loop-drain (suc fuel) s vs w e =
        after_step-loop fuel s w
        ∙ after_step-drain fuel (next_visit compare s) vs w (append_loop-drain fuel) e

    module _ (k : KeyRanks compare) where
      -- For a patch and two trees of keys that are sorted by the order of the comparator, the loop ends after
      -- at most one round for each of their elements, and is the run of the bodies of its rounds in
      -- turn. The rounds take all elements of the patch, all deletions and all additions, each in their
      -- order; the elements of one round have equal triples, and the triples of the rounds ascend
      -- strictly.
      pub append_loop-TakeApart :
          (s : Sources) (w : Work S C)
          → AreSorted compare k 1 s
          → (vs : List Visit) × TakeApart compare k 1 s vs
            × (append_loop positions_db counts_db max_patch_id patch_id compare
                  (suc (size compare k s))
                  s
                  w
                ≡ handle_all vs w)
      append_loop-TakeApart s w h =
          let (vs, run, parts) = next_visit-TakeApart compare k s h in
          (vs, parts, append_loop-drain (suc (size compare k s)) s vs w run)
