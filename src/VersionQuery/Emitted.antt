-- ===== src/VersionQuery/Emitted.antt =====
-- One triple of the snapshot in `SnapshotPatchIteratorTripleID::next`: it is emitted exactly if it has
-- no deletion that passes the filters, whatever `has_last_deleted_triple` held at the start.
use ostrich.Base.{
  ℕ, suc, ◌≡◌, ◌<◌, refl, sym, Bool, true, false, not, Option, none, some, List, [], ◌∷◌,
}
use ostrich.Base.{arith, length, All}
use mathlib.Core.Path.{subst}
use ostrich.Base.Int.{ℤ}
use ostrich.Comparator.Keys.{KeyRanks}
use ostrich.Triple.{Triple, triple, equals}
use ostrich.Delta.Merge.{Sorted}
use ostrich.PatchTree.Visits.{Deletion, is_positive}
use ostrich.PatchTreeIterator.{Filters, Found, set_triple_pattern_filter, next_deletion}
use ostrich.PatchTree.Queries.{Positioned, jump, next_positioned}
use ostrich.VersionQuery.{Deleter, find_deleted, try_triple}
use ostrich.VersionQuery.Cursor.{All-jump}
use ostrich.VersionQuery.Deleted.{
  IsTriple, Answers, is_deleted, set_pattern-Answers, not_positive, rank, jump-Sorted,
  is_deleted-jump, Looked, next-Looked,
}

abbrev pub null_triple : Triple
null_triple = triple 0 0 0

null-other : (t : Triple) → IsTriple t → equals null_triple t ≡ false
unfolding equals
null-other t i = ground arith

module _ (compare : Triple → Triple → ℤ) (o : KeyRanks compare) (tree : List Deletion)
    (valid : Deletion → Bool) (patch_id : ℕ) (pattern : Triple) where
  abbrev pub positioned : Filters → List Deletion → Positioned
  positioned f c = record {
    filters = f;
    tree = tree;
    cursor = c;
    of_patch = patch_id;
    of_pattern = pattern;
  }

  abbrev pub deleter : Filters → List Deletion → Bool → Triple → Deleter
  deleter f c has_last last = record {
    deletion_it = some (positioned f c);
    has_last = has_last;
    last = last;
  }

  -- The deletion iterator of a state, for the next triple.
  pub record IsReady (f : Filters) (has_last : Bool) (last : Triple) : Type 0 where
    pub early : f.can_early_break ≡ true
    pub answers : All (Answers f valid) tree
    pub none_kept : has_last ≡ true → last ≡ null_triple

  -- The triple is tested by its deletion, and the iterator stays ready.
  abbrev pub Tested : Triple → Option (Bool × Deleter) → Type 0
  Tested t r =
      (f' : Filters) × (c' : List Deletion) × (last' : Triple) × (r
        ≡ some (not (is_deleted valid tree t), deleter f' c' false last'))
      × IsReady f' false last'

  All-set :
      (f : Filters) (t : Triple) (l : List Deletion)
      → IsTriple t
      → All (Answers f valid) l
      → All (Answers (set_triple_pattern_filter t f) valid) l
  All-set f t [] i a = tt
  All-set f t (d ∷ l) i a = (set_pattern-Answers f valid t d i a.0, All-set f t l i a.1)

  module _ (sorted : Sorted (rank compare o) 1 tree) (t : Triple) (is_triple : IsTriple t)
      (is_key : 0 < o.rank t) where
    set_early :
        (f : Filters)
        → f.can_early_break ≡ true
        → (set_triple_pattern_filter t f).can_early_break ≡ true
    unfolding set_triple_pattern_filter
    set_early f h = ground arith

    IsReady-set :
        (f : Filters) (has_last : Bool) (last last' : Triple)
        → IsReady f has_last last
        → IsReady (set_triple_pattern_filter t f) false last'
    IsReady-set f has_last last last' r = record {
      early = set_early f r.early;
      answers = All-set f t tree is_triple r.answers;
      none_kept = λ h. absurd (no h);
    }
      where
        no : false ≡ true → ⊥
        no h = cc

    -- The round that reads.
    find-read :
        (fuel : ℕ) (f : Filters) (has_last : Bool) (last : Triple) (r : Found Deletion)
        → (k : IsReady f has_last last)
        → next_deletion true false (set_triple_pattern_filter t f) (jump compare t tree) ≡ some r
        → Looked compare o f valid t is_triple is_key k.early (is_deleted valid tree t) r
        → Tested t (
            find_deleted compare
              (suc fuel)
              false
              last
              (positioned (set_triple_pattern_filter t f) (jump compare t tree))
              t)
    unfolding find_deleted next_positioned
    find-read fuel f has_last last (none, l) k run n = (
      set_triple_pattern_filter t f,
      l,
      last,
      rw (run, n) refl,
      IsReady-set f has_last last last k,
    )
    find-read fuel f has_last last (some d, l) k run y = (
      set_triple_pattern_filter t f,
      l,
      d.0,
      rw (run, y.0, y.1) refl,
      IsReady-set f has_last last d.0 k,
    )

    find-first :
        (fuel : ℕ) (f : Filters) (has_last : Bool) (last : Triple)
        → (k : IsReady f has_last last)
        → Tested t (
            find_deleted compare
              (suc fuel)
              false
              last
              (positioned (set_triple_pattern_filter t f) (jump compare t tree))
              t)
    find-first fuel f has_last last k =
        let (r, run, looked) =
          next-Looked compare o f valid t is_triple is_key k.early (jump compare t tree)
            (jump-Sorted compare o t 1 tree is_key (omega arith) sorted)
            (All-jump (Answers f valid) compare t tree k.answers) in
        find-read fuel f has_last last r k run (
          subst (λ b. Looked compare o f valid t is_triple is_key k.early b r)
            (is_deleted-jump compare o valid t 1 tree is_key (omega arith) sorted) looked)

    -- A null triple that is taken for a deletion is passed over.
    find-kept :
        (fuel : ℕ) (it : Positioned)
        → find_deleted compare (suc fuel) true null_triple it t
          ≡ find_deleted compare fuel false null_triple it t
    unfolding find_deleted
    find-kept fuel it = rw (different, behind) refl
      where
        different : equals null_triple t ≡ false
        different = null-other t is_triple

        behind : is_positive (compare null_triple t) ≡ false
        behind = not_positive (compare null_triple t) (o.null_law t is_key)

    find-any :
        (fuel : ℕ) (f : Filters) (has_last : Bool) (last : Triple)
        → IsReady f has_last last
        → Tested t (
            find_deleted compare
              (suc (suc fuel))
              has_last
              last
              (positioned (set_triple_pattern_filter t f) (jump compare t tree))
              t)
    find-any fuel f false last k = find-first (suc fuel) f false last k
    find-any fuel f true last k =
        subst
          (λ u. Tested t (
            find_deleted compare (suc (suc fuel)) true u
              (positioned (set_triple_pattern_filter t f) (jump compare t tree)) t))
          (sym (k.none_kept refl))
          (subst (Tested t) (sym (find-kept (suc fuel) _))
            (find-first fuel f true null_triple nulled))
      where
        nulled : IsReady f true null_triple
        nulled = record { early = k.early; answers = k.answers; none_kept = λ e. refl }

    pub try_triple-Tested :
        (f : Filters) (c : List Deletion) (has_last : Bool) (last : Triple)
        → IsReady f has_last last
        → Tested t (try_triple compare (deleter f c has_last last) t)
    unfolding try_triple
    try_triple-Tested f c has_last last k = find-any (length tree) f has_last last k
