-- ===== src/PatchTreeIterator/Rounds.antt =====
-- One round of `next` over both trees, where equal triples are squashed: a step of the merge of what passes
-- of the deletions with what passes of the additions.
use ostrich.Base.{
  ◌≡◌, ◌<◌, refl, sym, ◌∙◌, Bool, true, false, not, Option, none, some, List, [], ◌∷◌, ◌>>=◌,
}
use mathlib.Core.Path.{subst}
use ostrich.Base.{arith, if◌then◌else◌, Bool-cases, Option-cases, inl, inr}
use ostrich.Base.Int.{ℤ, pos, negsuc}
use ostrich.AdditionValue
use ostrich.AdditionValue.{AdditionValue}
use ostrich.DeletionValue
use ostrich.DeletionValue.{DeletionValue}
use ostrich.Triple.{Triple}
use ostrich.Delta.{is_zero, is_negative}
use ostrich.Comparator.Keys.{KeyRanks}
use ostrich.Delta.Merge.{Merging, Merges, rest1, rest2, first1, first2, joined}
use ostrich.PatchTree.Visits.{Deletion, Addition, is_positive}
use ostrich.PatchTreeIterator.{
  Filters, Found, Result, Merger, Chosen, addition_valid, deletion_valid, read_addition,
  read_deletion, choose_next, choose_equal, of_addition, of_deletion, next_round, is_result_local,
}
use ostrich.PatchTreeIterator.Filtered.{filter}
use ostrich.PatchTreeIterator.Scan.{
  passing, put_back, IsReadable, IsKept, Finds, scan-Finds, next_addition-scan, next_deletion-scan,
}

positive-negative : (x : ℤ) → is_zero x ≡ false → is_positive x ≡ not (is_negative x)
positive-negative (pos n) h = ground arith
positive-negative (negsuc n) h = refl

module _ (compare : Triple → Triple → ℤ) (k : KeyRanks compare) where
  -- A triple that has both is given once, with both values.
  abbrev pub squashed : Merging Deletion Addition Result
  squashed = record {
    rank1 = λ d. k.rank d.0;
    rank2 = λ a. k.rank a.0;
    rank = λ r. k.rank r.key;
    only1 = of_deletion;
    only2 = of_addition;
    both = λ d a. some (record { key = a.0; deletion = some d.1; addition = some a.1 });
    rank-only1 = λ d. refl;
    rank-only2 = λ a. refl;
    rank-both = λ d a c e. same d a c e;
  }
    where
      same :
          (d : Deletion) (a : Addition) (c : Result)
          → some (record { key = a.0; deletion = some d.1; addition = some a.1 }) ≡ some c
          → k.rank c.key ≡ k.rank a.0
      same d a c e =
          ostrich.Base.ap (λ (r : Result). k.rank r.key) {x = c}
            {y = record { key = a.0; deletion = some d.1; addition = some a.1 }} (cc)

  module _ (positioned : Bool) (f : Filters) (dvalid : DeletionValue → Bool)
      (avalid : AdditionValue → Bool) (dlocal : DeletionValue → Bool)
      (alocal : AdditionValue → Bool) where
    -- The filters of the two reads.
    abbrev pub reading : Filters
    reading = record f { no_local_changes = false }

    -- The records are those of keys, and their values answer whether they are local changes.
    abbrev pub AnswersLocal : Deletion → Type 0
    AnswersLocal d =
        (0 < k.rank d.0)
        × (DeletionValue.is_local_change positioned f.patch_id d.1 ≡ some (dlocal d.1))

    abbrev pub AddsLocal : Addition → Type 0
    AddsLocal a =
        (0 < k.rank a.0) × (AdditionValue.is_local_change f.patch_id a.1 ≡ some (alocal a.1))

    abbrev pub result_local : Result → Bool
    result_local r = elim r.addition [
      | some a ↦ alocal a
      | none ↦ elim r.deletion [ some d ↦ dlocal d | none ↦ false ]
    ]

    abbrev pub ReadsDeletions : List Deletion → Type 0
    ReadsDeletions l = IsReadable reading (deletion_valid positioned reading) dvalid AnswersLocal l

    abbrev pub ReadsAdditions : List Addition → Type 0
    ReadsAdditions l = IsReadable reading (addition_valid reading) avalid AddsLocal l

    abbrev pub deletions_of : Option Deletion → List Deletion → List Deletion
    deletions_of o l = put_back reading o (filter (passing reading dvalid) l)

    abbrev pub additions_of : Option Addition → List Addition → List Addition
    additions_of o l = put_back reading o (filter (passing reading avalid) l)

    abbrev pub IsReady : Merger → Type 0
    IsReady m =
        ReadsDeletions m.deletions
        × ReadsAdditions m.additions
        × IsKept reading (deletion_valid positioned reading) dvalid AnswersLocal m.temp_deletion
        × IsKept reading (addition_valid reading) avalid AddsLocal m.temp_addition

    -- What is left of both, merged.
    abbrev pub Remain : Merger → List Result → Type 0
    Remain m out =
        Merges squashed (deletions_of m.temp_deletion m.deletions)
          (additions_of m.temp_addition m.additions) out

    abbrev pub Rounds : List Deletion → List Addition → Option (Result × Merger) → Type 0
    Rounds ds es none = (ds ≡ []) × (es ≡ [])
    Rounds ds es (some (r, m)) =
        IsReady m
        × (is_result_local positioned f.patch_id r ≡ some (result_local r))
        × ((out : List Result) → Remain m out → Merges squashed ds es (r ∷ out))

    abbrev merger : List Deletion → List Addition → Option Chosen → Option (Result × Merger)
    merger ds es none = none
    merger ds es (some (r, td, ta)) =
        some (r, record { deletions = ds; additions = es; temp_deletion = td; temp_addition = ta })

    chosen-Rounds :
        f.squash_equal ≡ true
        → (d : Option Deletion) (a : Option Addition) (ds : List Deletion) (es : List Addition)
        → IsReady (record { deletions = ds; additions = es; temp_deletion = d; temp_addition = a })
        → (d ≡ none → filter (passing reading dvalid) ds ≡ [])
        → (a ≡ none → filter (passing reading avalid) es ≡ [])
        → (c : Option Chosen) × (choose_next compare positioned f d a ≡ some c)
          × Rounds (deletions_of d ds) (additions_of a es) (merger ds es c)
    unfolding choose_next choose_equal is_result_local
    chosen-Rounds s none none ds es r nd na = (none, refl, (nd refl, na refl))
    chosen-Rounds s (some d) none ds es r nd na = (
      some (of_deletion d, none, none),
      refl,
      ((r.0, r.1, tt, tt), r.2.1, rw (na refl) (λ out g. rest1 g)),
    )
    chosen-Rounds s none (some a) ds es r nd na = (
      some (of_addition a, none, none),
      refl,
      ((r.0, r.1, tt, tt), r.3.1, rw (nd refl) (λ out g. rest2 g)),
    )
    chosen-Rounds s (some d) (some a) ds es r nd na =
        elim (Bool-cases (is_zero (compare d.0 a.0))) [
          | inl z ↦ (
            some (record { key = a.0; deletion = some d.1; addition = some a.1 }, none, none),
            rw (z, s) refl,
            (
              (r.0, r.1, tt, tt),
              r.3.1,
              λ out g. joined (ground (arith, k.zero_law d.0 a.0 r.2.0 r.3.0)) refl g,
            ),
          )
          | inr z ↦ elim (Bool-cases (is_positive (compare d.0 a.0))) [
            | inl p ↦ (
              some (of_addition a, some d, none),
              rw (z, p) refl,
              ((r.0, r.1, r.2, tt), r.3.1, λ out g. first2 (greater d a r.2.0 r.3.0 z p) g),
            )
            | inr p ↦ (
              some (of_deletion d, none, some a),
              rw (z, p) refl,
              ((r.0, r.1, tt, r.3), r.2.1, λ out g. first1 (less d a r.2.0 r.3.0 z p) g),
            )
          ]
        ]
      where
        greater :
            (d : Deletion) (a : Addition)
            → 0 < k.rank d.0
            → 0 < k.rank a.0
            → is_zero (compare d.0 a.0) ≡ false
            → is_positive (compare d.0 a.0) ≡ true
            → k.rank a.0 < k.rank d.0
        greater d a u v z p = ground (
          arith,
          positive-negative (compare d.0 a.0) z,
          k.zero_law d.0 a.0 u v,
          k.negative_law d.0 a.0 u v,
        )

        less :
            (d : Deletion) (a : Addition)
            → 0 < k.rank d.0
            → 0 < k.rank a.0
            → is_zero (compare d.0 a.0) ≡ false
            → is_positive (compare d.0 a.0) ≡ false
            → k.rank d.0 < k.rank a.0
        less d a u v z p = ground (
          arith,
          positive-negative (compare d.0 a.0) z,
          k.zero_law d.0 a.0 u v,
          k.negative_law d.0 a.0 u v,
        )

    read_deletion-Finds :
        (m : Merger)
        → IsReady m
        → (r : Found Deletion) × (read_deletion positioned reading m ≡ some r)
          × Finds reading
              (deletion_valid positioned reading)
              dvalid
              AnswersLocal
              (deletions_of m.temp_deletion m.deletions)
              r
    unfolding read_deletion
    read_deletion-Finds m h = elim (Option-cases m.temp_deletion) [
      | inl e ↦
          let (r, run, found) =
            scan-Finds reading (deletion_valid positioned reading) dvalid AnswersLocal true
              m.deletions h.0 in
          (r, rw e (next_deletion-scan positioned reading m.deletions ∙ run), rw e found)
      | inr (d, e) ↦ (
        (some d, m.deletions),
        rw e refl,
        (
          rw e refl,
          λ n. absurd (not_none n),
          h.0,
          subst (IsKept reading (deletion_valid positioned reading) dvalid AnswersLocal) e h.2,
        ),
      )
    ]
      where
        not_none : {A : Type 0} {a : A} → some a ≡ none → ⊥
        not_none n = cc

    read_addition-Finds :
        (m : Merger)
        → IsReady m
        → (r : Found Addition) × (read_addition reading m ≡ some r)
          × Finds reading
              (addition_valid reading)
              avalid
              AddsLocal
              (additions_of m.temp_addition m.additions)
              r
    unfolding read_addition
    read_addition-Finds m h = elim (Option-cases m.temp_addition) [
      | inl e ↦
          let (r, run, found) =
            scan-Finds reading (addition_valid reading) avalid AddsLocal false m.additions h.1 in
          (r, rw e (next_addition-scan reading m.additions ∙ run), rw e found)
      | inr (a, e) ↦ (
        (some a, m.additions),
        rw e refl,
        (
          rw e refl,
          λ n. absurd (not_none n),
          h.1,
          subst (IsKept reading (addition_valid reading) avalid AddsLocal) e h.3,
        ),
      )
    ]
      where
        not_none : {A : Type 0} {a : A} → some a ≡ none → ⊥
        not_none n = cc

    pub next_round-Rounds :
        f.squash_equal ≡ true
        → (m : Merger) → IsReady m
        → (o : Option (Result × Merger)) × (next_round compare positioned f m ≡ some o)
          × Rounds
              (deletions_of m.temp_deletion m.deletions)
              (additions_of m.temp_addition m.additions)
              o
    unfolding next_round
    next_round-Rounds s m h =
        let ((d, ds), run, (whole, none_left, readable, kept)) = read_deletion-Finds m h in
        let ((a, es), run', (whole', none_left', readable', kept')) = read_addition-Finds m h in
        let (c, chosen, rounds) =
          chosen-Rounds s d a ds es (readable, readable', kept, kept') none_left none_left' in
        (merger ds es c, rw (run, run', chosen) (as_merger ds es c), rw (whole, whole') rounds)
      where
        as_merger :
            (ds : List Deletion) (es : List Addition) (c : Option Chosen)
            → some (elim c [
              | none ↦ none
              | some (r, td, ta) ↦ some (
                r,
                record { deletions = ds; additions = es; temp_deletion = td; temp_addition = ta },
              )
            ])
              ≡ some (merger ds es c)
        as_merger ds es none = refl
        as_merger ds es (some c) = refl
