-- ===== src/PatchTree/Carried.antt =====
-- The round of `append_unsafe` that finds an addition alone: it ends, and what it writes.
use ostrich.Base.{ℕ, ◌≡◌, refl, sym, Bool, true, false, Option, none, some}
use mathlib.Core.Path.{subst}
use ostrich.Base.Int.{pos, leb_ℤ}
use ostrich.Interval.Shape.{IsValid, CanSeek}
use ostrich.Interval.Covers.{covers}
use ostrich.Interval.Lookup.{is_in-covers}
use ostrich.Triple.{Triple, TripleVersion}
use ostrich.Counts.{HashDb}
use ostrich.AdditionValue
use ostrich.AdditionValue.{AdditionValue}
use ostrich.PatchTree.Store.{AdditionWrite, insert_addition_if}
use ostrich.PatchTree.Branches.{Work, Outcome, carried, count_first, count_unless, step_addition}
use ostrich.PatchTree.Changes.{stored, Carries, CanAdd, carried-Carries}

-- The value of a key in the addition tree behind a round.
abbrev pub after_addition : AdditionValue → Option AdditionWrite → AdditionValue
after_addition v none = v
after_addition v (some w) = w.addition

pub after-stored :
    (key : Triple) (v : AdditionValue) (r : AdditionValue × Bool)
    → after_addition v (insert_addition_if r.1 key r.0) ≡ stored v r
unfolding insert_addition_if
after-stored key v (new, true) = refl
after-stored key v (new, false) = refl

module _ {S C : Type 0} (positions_db : HashDb S ℕ ℕ) (counts_db : HashDb C TripleVersion ℕ) (p : ℕ)
    (key : Triple) (v : AdditionValue) (w : Work S C) where
  -- The look-up of the first patch of the new value in its local changes is defined.
  abbrev pub FirstIsDefined : Type 0
  FirstIsDefined =
      (r : AdditionValue × Bool)
      → carried p v ≡ some r
      → (counts : C) → (counts' : C) × (count_first counts_db key r.0 counts ≡ some counts')

  -- Where the first patch of an addition is not later than the inserted patch, and the look-up of the
  -- first patch in the local changes is defined, the round that finds the addition alone ends; the
  -- addition tree then has the triple as an addition of the inserted patch, with the patches before
  -- unchanged; and no deletion is written. The two sets of the value have to be valid, with an interval
  -- that does not start behind the patch unless they are empty, and the limit of the first above the
  -- patch.
  pub step_addition-Carries :
      CanAdd p v
      → IsValid v.local_changes
      → CanSeek p v.local_changes.intervals
      → leb_ℤ (AdditionValue.get_patch_id_at (pos 0) v) (pos p) ≡ true
      → FirstIsDefined
      → (o : Outcome S C) × (step_addition positions_db counts_db p (key, v) w ≡ some o)
        × (o.deleted ≡ none)
        × Carries p v.patches (after_addition v o.added).patches
  unfolding step_addition AdditionValue.is_local_change
  step_addition-Carries can valid seek first defined =
      let (r, run, same, carries) = carried-Carries p v can first in
      let local = covers p r.0.local_changes.intervals in
      let (counts, counted) = defined r run (count_unless counts_db local p key w.counts) in
      (
        record {
          added = insert_addition_if r.1 key r.0;
          deleted = none;
          work = record w { limit = r.0.max_patch_id; counts = counts };
        },
        rw
            (
              run,
              is_in-covers p r.0.local_changes (subst IsValid (sym same) valid)
                  (subst (λ l. CanSeek p l.intervals) (sym same) seek),
              counted,
            )
            refl,
        refl,
        subst (λ a. Carries p v.patches a.patches) (sym (after-stored key v r)) carries,
      )
