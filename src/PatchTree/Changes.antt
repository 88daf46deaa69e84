-- ===== src/PatchTree/Changes.antt =====
-- What the branches of `append_unsafe` make of the values of a triple in the patch that is inserted.
use ostrich.Base.{
  ℕ, ◌≡◌, ◌<◌, refl, sym, ap, ◌∙◌, Bool, true, false, ◌&&◌, ◌||◌, some, List, [], ◌∷◌,
}
use ostrich.Base.{arith, ltb, if◌then◌else◌, Bool-cases, inl, inr}
use ostrich.Base.Int.{pos, leb_ℤ}
use mathlib.Core.Path.{subst}
use ostrich.Interval.{Interval, IntervalList}
use ostrich.Interval.Shape.{IsValid, Chained, CanSeek}
use ostrich.Interval.Covers.{covers, starts_between}
use ostrich.Interval.Addition.{addition-Added}
use ostrich.Interval.Addition.Gaps.{Added}
use ostrich.Interval.Deletion.{deletion-Deleted, Deleted}
use ostrich.Interval.Lookup.{is_in-covers}
use ostrich.AdditionValue
use ostrich.AdditionValue.{AdditionValue, grow, with_patches}
use ostrich.Positions.{PatchPositions, delete_positions}
use ostrich.DeletionValue
use ostrich.DeletionValue.{DeletionValue, addition, deletion}
use ostrich.DeletionValue.Changes.{
  IsSound, CanSeekIn, add_local-Gains, add_positions-Sets, deletion-Loses,
}
use ostrich.PatchTree.Branches.{carried}

-- The value in the store after the round: the new one if it has changed, as it is written then.
abbrev pub stored {ℓ} : {A : Type ℓ} → A → A × Bool → A
stored old (new, changed) = if changed then new else old

-- The patches gain the patch `p`, and keep all those before it.
abbrev pub Carries : ℕ → IntervalList → IntervalList → Type 0
Carries p l l' =
    IsValid l'
    × (covers p l'.intervals ≡ true)
    × ((y : ℕ) → y < p → covers y l'.intervals ≡ covers y l.intervals)

grow-same : (p : ℕ) (v : AdditionValue) → (grow p v).patches ≡ v.patches
unfolding grow
grow-same p v = ground arith

starts_between_self : (x : ℕ) (m : List Interval) → starts_between x x m ≡ false
starts_between_self x [] = refl
starts_between_self x (i ∷ m) = ground (arith, starts_between_self x m)

grow-local : (p : ℕ) (v : AdditionValue) → (grow p v).local_changes ≡ v.local_changes
unfolding grow
grow-local p v = ground arith

-- A list that gains or loses `p`, where the old list stays if nothing has changed.
Carries-Added :
    (p : ℕ) (l new : IntervalList) (changed other : Bool)
    → IsValid l
    → p < l.max
    → new.max ≡ l.max
    → Added l.max p l.intervals (new.intervals, changed)
    → Carries p l (if changed || other then new else l)
Carries-Added p l new false false valid h same (chain, set, changed, starts) =
    (valid, ground (arith, changed), λ y k. refl)
Carries-Added p l new false true valid h same (chain, set, changed, starts) = (
  subst (λ m. Chained m 0 new.intervals) (sym same) chain,
  ground (arith, set p, changed),
  λ y k. ground (arith, set y),
)
Carries-Added p l new true other valid h same (chain, set, changed, starts) = (
  subst (λ m. Chained m 0 new.intervals) (sym same) chain,
  ground (arith, set p, changed, starts_between_self p l.intervals),
  λ y k. ground (arith, set y),
)

-- The patches lose the patch `p`, and keep all those before it.
abbrev pub Drops : ℕ → IntervalList → IntervalList → Type 0
Drops p l l' =
    IsValid l'
    × (covers p l'.intervals ≡ false)
    × ((y : ℕ) → y < p → covers y l'.intervals ≡ covers y l.intervals)

Drops-Deleted :
    (p : ℕ) (l new : IntervalList) (changed other : Bool)
    → IsValid l
    → new.max ≡ l.max
    → Deleted l.max p l.intervals (new.intervals, changed)
    → Drops p l (if changed || other then new else l)
Drops-Deleted p l new false false valid same (chain, set, changed, starts) =
    (valid, sym changed, λ y k. refl)
Drops-Deleted p l new false true valid same (chain, set, changed, starts) = (
  subst (λ m. Chained m 0 new.intervals) (sym same) chain,
  ground (arith, set p, changed),
  λ y k. ground (arith, set y),
)
Drops-Deleted p l new true other valid same (chain, set, changed, starts) = (
  subst (λ m. Chained m 0 new.intervals) (sym same) chain,
  ground (arith, set p, changed, starts_between_self p l.intervals),
  λ y k. ground (arith, set y),
)

stored_patches :
    (v w : AdditionValue) (b : Bool)
    → (stored v (w, b)).patches ≡ (if b then w.patches else v.patches)
stored_patches v w true = refl
stored_patches v w false = refl

stored_elements :
    (v w : DeletionValue) (b : Bool)
    → (stored v (w, b)).elements.patches ≡ (if b then w.elements.patches else v.elements.patches)
stored_elements v w true = refl
stored_elements v w false = refl

or_false : (b : Bool) → (b || false) ≡ b
or_false true = refl
or_false false = refl

-- An addition value may be changed for the patch `p`.
abbrev pub CanAdd : ℕ → AdditionValue → Type 0
CanAdd p v = IsValid v.patches × CanSeek p v.patches.intervals × (p < v.patches.max)

-- Adding or deleting the patch `p`, with what else may have changed the value.
pub add-Carries :
    (p : ℕ) (v : AdditionValue)
    → CanAdd p v
    → (r : AdditionValue × Bool) × (AdditionValue.add p v ≡ some r)
      × (r.0.local_changes ≡ v.local_changes)
      × ((w : AdditionValue) (other : Bool)
          → w.patches ≡ r.0.patches
          → Carries p v.patches (stored v (w, r.1 || other)).patches)
unfolding AdditionValue.add
add-Carries p v (valid, seek, h) =
    let g : (grow p v).patches ≡ v.patches = grow-same p v in
    let (r, run, same, added) =
      addition-Added p (grow p v).patches (subst IsValid (sym g) valid)
        (subst (λ l. CanSeek p l.intervals) (sym g) seek) (subst (λ l. p < l.max) (sym g) h) in
    (
      with_patches (grow p v) r,
      rw run refl,
      grow-local p v,
      λ w other e.
          rw (stored_patches v w (r.1 || other), e)
            (Carries-Added p v.patches r.0 r.1 other valid h (same ∙ ap (λ l. l.max) g)
              (subst (λ l. Added l.max p l.intervals (r.0.intervals, r.1)) g added)),
    )

pub del-Drops :
    (p : ℕ) (v : AdditionValue)
    → CanAdd p v
    → (r : AdditionValue × Bool) × (AdditionValue.del p v ≡ some r)
      × (r.0.local_changes ≡ v.local_changes)
      × ((w : AdditionValue) (other : Bool)
          → w.patches ≡ r.0.patches
          → Drops p v.patches (stored v (w, r.1 || other)).patches)
unfolding AdditionValue.del
del-Drops p v (valid, seek, h) =
    let g : (grow p v).patches ≡ v.patches = grow-same p v in
    let (r, run, same, deleted) =
      deletion-Deleted p (grow p v).patches (subst IsValid (sym g) valid)
        (subst (λ l. CanSeek p l.intervals) (sym g) seek) in
    (
      with_patches (grow p v) r,
      rw run refl,
      grow-local p v,
      λ w other e.
          rw (stored_patches v w (r.1 || other), e)
            (Drops-Deleted p v.patches r.0 r.1 other valid (same ∙ ap (λ l. l.max) g)
              (subst (λ l. Deleted l.max p l.intervals (r.0.intervals, r.1)) g deleted)),
    )

-- A deletion value may be changed for the patch `p`.
abbrev pub CanDelete : ℕ → DeletionValue → Type 0
CanDelete p v =
    IsSound v.elements
    × CanSeekIn p v.elements
    × (p < v.elements.patches.max)
    × (p < v.elements.local_changes.max)

pub deletion_add-Carries :
    (local : Bool) (p : ℕ) (q : PatchPositions) (v : DeletionValue)
    → CanDelete p v
    → (r : DeletionValue × Bool) × (DeletionValue.add true p local q v ≡ some r)
      × Carries p v.elements.patches (stored v r).elements.patches
unfolding DeletionValue.add addition
deletion_add-Carries local p q v (s, c, h, h') =
    let (a, run, same, added) = addition-Added p v.elements.patches s.0 c.0 h in
    let (b, run', gains') = add_local-Gains local p v.elements.local_changes s.1 c.1 h' in
    let (d, run'', sets) = add_positions-Sets true p q v.elements.position_vec s.2 c.2 in
    let w : DeletionValue = record v {
      elements = record { patches = a.0; local_changes = b.0; position_vec = d.0 };
    } in
    (
      (w, a.1 || (b.1 || d.1)),
      rw (run, run', run'') refl,
      rw (stored_elements v w (a.1 || (b.1 || d.1)))
          (Carries-Added p v.elements.patches a.0 a.1 (b.1 || d.1) s.0 h same added),
    )

pub deletion_del-Drops :
    (p : ℕ) (v : DeletionValue)
    → CanDelete p v
    → (r : DeletionValue × Bool) × (DeletionValue.del p v ≡ some r)
      × Drops p v.elements.patches (stored v r).elements.patches
unfolding DeletionValue.del deletion delete_positions
deletion_del-Drops p v (s, c, h, h') =
    let (a, run, same, deleted) = deletion-Deleted p v.elements.patches s.0 c.0 in
    let (b, run', loses') = deletion-Loses p v.elements.local_changes s.1 c.1 in
    let w : DeletionValue = record v {
      elements = record {
        patches = a.0;
        local_changes = b.0;
        position_vec = v.elements.position_vec;
      };
    } in
    (
      (w, a.1 || (b.1 || false)),
      rw (run, run') refl,
      rw (stored_elements v w (a.1 || (b.1 || false)))
          (Drops-Deleted p v.elements.patches a.0 a.1 (b.1 || false) s.0 same deleted),
    )

is_patch_id-answer :
    (p : ℕ) (v : AdditionValue)
    → IsValid v.patches
    → CanSeek p v.patches.intervals
    → AdditionValue.is_patch_id (pos p) v
      ≡ some (ltb p v.max_patch_id && covers p v.patches.intervals)
unfolding AdditionValue.is_patch_id
is_patch_id-answer p v valid seek = elim (Bool-cases (ltb p v.max_patch_id)) [
  | inl e ↦ rw e (is_in-covers p v.patches valid seek)
  | inr e ↦ rw e refl
]

-- What `carried` leaves, where the first patch of the addition is not later than the inserted patch.
pub carried-Carries :
    (p : ℕ) (v : AdditionValue)
    → CanAdd p v
    → leb_ℤ (AdditionValue.get_patch_id_at (pos 0) v) (pos p) ≡ true
    → (r : AdditionValue × Bool) × (carried p v ≡ some r)
      × (r.0.local_changes ≡ v.local_changes)
      × Carries p v.patches (stored v r).patches
unfolding carried
carried-Carries p v (valid, seek, h) first =
    elim (Bool-cases (ltb p v.max_patch_id && covers p v.patches.intervals)) [
      | inl e ↦ (
        (v, false),
        rw (first, is_patch_id-answer p v valid seek, e) refl,
        refl,
        (valid, ground arith, λ y k. refl),
      )
      | inr e ↦
          let (r, run, kept, c) = add-Carries p v (valid, seek, h) in
          (
            r,
            rw (first, is_patch_id-answer p v valid seek, e) run,
            kept,
            subst (λ b. Carries p v.patches (stored v (r.0, b)).patches) (or_false r.1)
                (c r.0 false refl),
          )
    ]
