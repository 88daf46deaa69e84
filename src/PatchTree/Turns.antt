-- ===== src/PatchTree/Turns.antt =====
-- Where a triple is in both trees, a round makes it an addition or a deletion of the inserted patch, and
-- takes it from the other tree for that patch.
use ostrich.Base.{
  ℕ, ◌+◌, ◌≡◌, ◌<◌, refl, sym, Bool, true, false, ◌||◌, Option, some, ◌>>=◌, if◌then◌else◌,
}
use mathlib.Core.Path.{subst}
use ostrich.Base.{none}
use ostrich.Base.Int.{ℤ, pos, ◌-ℤ◌, ltb_ℤ}
use ostrich.PatchTree.Carried.{after_addition, after-stored}
use ostrich.Interval.{IntervalList}
use ostrich.Interval.Shape.{IsValid, CanSeek}
use ostrich.Interval.Covers.{covers}
use ostrich.Interval.Lookup.{is_in-covers}
use ostrich.Triple.{Triple, TripleVersion}
use ostrich.Counts.{HashDb}
use ostrich.AdditionValue
use ostrich.AdditionValue.{AdditionValue, with_local_changes, set_max_patch_id}
use ostrich.DeletionValue
use ostrich.DeletionValue.{DeletionValue, to_reduced}
use ostrich.DeletionValue.Changes.{addition-Gains, deletion-Loses}
use ostrich.Delta.{differ}
use ostrich.PatchTree.Store.{
  AdditionWrite, DeletionWrite, set_local_if, insert_deletion, insert_deletion_if,
  insert_addition_if,
}
use ostrich.PatchTree.Branches.{
  Work, Outcome, add_to_addition, add_to_deletion, unset_local_if, positions_unless, count_unless,
  count_first, invert_or_carry,
}
use ostrich.PatchTree.Changes.{
  stored, Carries, Drops, CanAdd, CanDelete, add-Carries, del-Drops, deletion_add-Carries,
  deletion_del-Drops,
}

-- The value of a key in the deletion tree behind a round.
abbrev pub after_deletion : DeletionValue → Option DeletionWrite → DeletionValue
after_deletion d none = d
after_deletion d (some x) = x.deletion

after_deletion-stored :
    (key : Triple) (d : DeletionValue) (r : DeletionValue × Bool) (written : Option DeletionWrite)
    → insert_deletion_if r.1 key r.0 ≡ some written
    → after_deletion d written ≡ stored d r
unfolding insert_deletion_if insert_deletion
after_deletion-stored key d (new, false) written e =
    subst (λ x. after_deletion d x ≡ d) (inside e) refl
  where
    inside : some none ≡ some written → none ≡ written
    inside e = cc
after_deletion-stored key d (new, true) written e = written_value (to_reduced true new) e
  where
    written_value :
        (x : Option DeletionValue)
        → (x >>= λ r. some (record { deletion_key = key; deletion = new; reduced = r }))
            >>= (λ w. some (some w))
          ≡ some written
        → after_deletion d written ≡ new
    written_value none e = cc
    written_value (some r) e =
        subst (λ y. after_deletion d y ≡ new)
          (inside (some (record { deletion_key = key; deletion = new; reduced = r })) e) refl
      where
        inside : (x : Option DeletionWrite) → some x ≡ some written → x ≡ written
        inside x e = cc

-- The largest patch id of an addition, as a round reads it.
abbrev pub last_addition : ℕ → AdditionValue → ℤ
last_addition p a =
    AdditionValue.get_patch_id_at (AdditionValue.get_size (set_max_patch_id p a) -ℤ pos 1)
      (set_max_patch_id p a)

abbrev pub CanSetLocal : ℕ → IntervalList → Type 0
CanSetLocal p l = IsValid l × CanSeek p l.intervals × (p < l.max)

set_local-patches :
    (local : Bool) (p : ℕ) (v : AdditionValue)
    → CanSetLocal p v.local_changes
    → (r : AdditionValue × Bool) × (set_local_if local p v ≡ some r) × (r.0.patches ≡ v.patches)
unfolding set_local_if AdditionValue.set_local_change
set_local-patches true p v (valid, seek, h) =
    let (r, run, gains) = addition-Gains p v.local_changes valid seek h in
    (with_local_changes v r, rw run refl, refl)
set_local-patches false p v c = ((v, false), refl, refl)

unset_local-patches :
    (local : Bool) (p : ℕ) (v : AdditionValue)
    → CanSetLocal p v.local_changes
    → (r : AdditionValue × Bool) × (unset_local_if p local v ≡ some r) × (r.0.patches ≡ v.patches)
unfolding unset_local_if AdditionValue.unset_local_change
unset_local-patches true p v (valid, seek, h) =
    let (r, run, loses) = deletion-Loses p v.local_changes valid seek in
    (with_local_changes v r, rw run refl, refl)
unset_local-patches false p v c = ((v, false), refl, refl)

module _ {S C : Type 0} (positions_db : HashDb S ℕ ℕ) (counts_db : HashDb C TripleVersion ℕ)
    (p : ℕ) where
  -- The deletion that the round writes has a reduced form.
  abbrev pub CanReduce : Triple → Option (DeletionValue × Bool) → Type 0
  CanReduce key x =
      (r : DeletionValue × Bool)
      → x ≡ some r
      → (written : Option DeletionWrite) × (insert_deletion_if r.1 key r.0 ≡ some written)

  module _ (akey dkey : Triple) (a : AdditionValue) (d : DeletionValue) (w : Work S C) where
    -- The round ends, and in the trees behind it the triple is an addition of the patch and not a
    -- deletion; the patches before are as they were.
    abbrev pub BecomesAddition : Option (Outcome S C) → Type 0
    BecomesAddition x =
        (o : Outcome S C) × (x ≡ some o)
        × Carries p a.patches (after_addition a o.added).patches
        × Drops p d.elements.patches (after_deletion d o.deleted).elements.patches

    abbrev pub BecomesDeletion : Option (Outcome S C) → Type 0
    BecomesDeletion x =
        (o : Outcome S C) × (x ≡ some o)
        × Drops p a.patches (after_addition a o.added).patches
        × Carries p d.elements.patches (after_deletion d o.deleted).elements.patches

    abbrev pub CanDrop : Type 0
    CanDrop = CanDelete p d × CanReduce dkey (DeletionValue.del p d)

    -- With the positions that the round gives the deletion.
    abbrev pub CanCarry : Bool → Triple → Type 0
    CanCarry local current =
        CanDelete p d
        × CanReduce dkey (
            DeletionValue.add true p local
              (positions_unless positions_db local current w.counters).0 d)

    add_to_addition-BecomesAddition :
        (local : Bool)
        → CanAdd p a
        → CanSetLocal p a.local_changes
        → CanDrop
        → BecomesAddition (add_to_addition positions_db counts_db p local (dkey, d) (akey, a) w)
    unfolding add_to_addition
    add_to_addition-BecomesAddition local ca cl cd =
        let (a1, run, kept, carries) = add-Carries p a ca in
        let (a2, run', same) =
          set_local-patches local p a1.0 (subst (CanSetLocal p) (sym kept) cl) in
        let (d1, run'', drops) = deletion_del-Drops p d cd.0 in
        let (written, writes) = cd.1 d1 run'' in
        (
          record {
            added = insert_addition_if (a1.1 || a2.1) akey a2.0;
            deleted = written;
            work = record w {
              limit = a2.0.max_patch_id;
              counts = count_unless counts_db local p akey w.counts;
            };
          },
          rw (run, run', run'', writes) refl,
          subst (λ v. Carries p a.patches v.patches)
              (sym (after-stored akey a (a2.0, a1.1 || a2.1))) (carries a2.0 a2.1 same),
          subst (λ v. Drops p d.elements.patches v.elements.patches)
              (sym (after_deletion-stored dkey d d1 written writes)) drops,
        )

    add_to_deletion-BecomesDeletion :
        (local : Bool) (current : Triple)
        → CanAdd p a
        → CanSetLocal p a.local_changes
        → CanCarry local current
        → BecomesDeletion
            (add_to_deletion positions_db counts_db p local current (dkey, d) (akey, a) w)
    unfolding add_to_deletion AdditionValue.is_local_change unset_local-patches
    add_to_deletion-BecomesDeletion local current ca cl cd =
        let (d1, run, carries) =
          deletion_add-Carries local p (positions_unless positions_db local current w.counters).0 d
            cd.0 in
        let (written, writes) = cd.1 d1 run in
        let (a1, run', kept, drops) = del-Drops p a ca in
        let settable = subst (CanSetLocal p) (sym kept) cl in
        let local' = covers p a1.0.local_changes.intervals in
        let (a2, run'', same) = unset_local-patches local' p a1.0 settable in
        (
          record {
            added = insert_addition_if (a1.1 || a2.1) akey a2.0;
            deleted = written;
            work = record w {
              limit = a2.0.max_patch_id;
              counters = (positions_unless positions_db local current w.counters).1;
            };
          },
          rw (run, writes, run', is_in-covers p a1.0.local_changes settable.0 settable.1, run'')
              refl,
          subst (λ v. Drops p a.patches v.patches) (sym (after-stored akey a (a2.0, a1.1 || a2.1)))
              (drops a2.0 a2.1 same),
          subst (λ v. Carries p d.elements.patches v.elements.patches)
              (sym (after_deletion-stored dkey d d1 written writes)) carries,
        )

  after-limit :
      (n : ℕ) (a : AdditionValue) (added : Option AdditionWrite)
      → (after_addition (set_max_patch_id n a) added).patches ≡ (after_addition a added).patches
  unfolding set_max_patch_id
  after-limit n a none = refl
  after-limit n a (some x) = refl

  module _ (akey dkey : Triple) (a : AdditionValue) (d : DeletionValue) (w : Work S C) where
    with_limit :
        (n : ℕ) (w' : Work S C) (o : Option (Outcome S C))
        → BecomesAddition akey dkey (set_max_patch_id n a) d w' o
        → BecomesAddition akey dkey a d w o
    unfolding set_max_patch_id
    with_limit n w' x (o, run, carries, drops) =
        (o, run, subst (Carries p a.patches) (after-limit n a o.added) carries, drops)

    with_limit' :
        (n : ℕ) (w' : Work S C) (o : Option (Outcome S C))
        → BecomesDeletion akey dkey (set_max_patch_id n a) d w' o
        → BecomesDeletion akey dkey a d w o
    unfolding set_max_patch_id
    with_limit' n w' x (o, run, drops, carries) =
        (o, run, subst (Drops p a.patches) (after-limit n a o.added) drops, carries)

    -- By the largest patch ids of both values.
    pub invert_or_carry-Turns :
        (stepped was_local : Bool) (current : Triple) (largest_d largest_a : ℤ) (counts : C)
        → CanAdd p a
        → CanSetLocal p a.local_changes
        → CanDrop akey dkey a d w
        → CanCarry akey dkey a d w (differ stepped was_local) current
        → (if ltb_ℤ largest_a largest_d
            then DeletionValue.is_local_change true p d
            else AdditionValue.is_local_change p a)
          ≡ some was_local
        → count_first counts_db akey (set_max_patch_id (p + 1) a) w.counts ≡ some counts
        → (differ stepped (ltb_ℤ largest_d largest_a) ≡ true
            → BecomesAddition akey dkey a d w (
                invert_or_carry positions_db counts_db p stepped current
                  (dkey, d)
                  (akey, a)
                  largest_d
                  largest_a
                  w))
          × (differ stepped (ltb_ℤ largest_d largest_a) ≡ false
              → differ stepped (ltb_ℤ largest_a largest_d) ≡ true
              → BecomesDeletion akey dkey a d w (
                  invert_or_carry positions_db counts_db p stepped current
                    (dkey, d)
                    (akey, a)
                    largest_d
                    largest_a
                    w))
    unfolding invert_or_carry set_max_patch_id
    invert_or_carry-Turns stepped was_local current largest_d largest_a counts ca cl cd cc' l c =
        let a1 = set_max_patch_id (p + 1) a in
        let w1 : Work S C = record w { limit = p + 1; counts = counts } in
        let local = differ stepped was_local in
        (
          λ e.
              rw (l, c, e)
                (with_limit (p + 1) w1 _
                  (add_to_addition-BecomesAddition akey dkey a1 d w1 local ca cl cd)),
          λ e e'.
              rw (l, c, e, e')
                (with_limit' (p + 1) w1 _
                  (add_to_deletion-BecomesDeletion akey dkey a1 d w1 local current ca cl cc')),
        )
