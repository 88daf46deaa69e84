-- ===== src/VersionQuery/Deleted.antt =====
-- Which triples of the snapshot the iterator leaves out: those with a deletion that passes its filters.
use ostrich.Base.{
  ℕ, ◌+◌, ◌≡◌, ◌<◌, refl, ap, ◌∙◌, Bool, true, false, not, none, some, List, [], ◌∷◌,
}
use ostrich.Base.{arith, All, ◌==◌, if◌then◌else◌, Bool-cases, inl, inr}
use ostrich.Base.Int.{ℤ, pos, negsuc}
use ostrich.Comparator.Keys.{KeyRanks}
use ostrich.Triple.{Triple, equals, pattern_match_triple, is_all_matching_pattern}
use ostrich.Delta.{is_negative}
use ostrich.Delta.Merge.{Sorted}
use ostrich.PatchTree.Visits.{Deletion, is_positive}
use ostrich.PatchTreeIterator.{
  Filters, Found, is_filtered_out, set_triple_pattern_filter, deletion_valid, next_deletion,
}
use ostrich.PatchTree.Queries.{jump}

-- The ids of terms are not 0.
abbrev pub IsTriple : Triple → Type 0
IsTriple t = (0 < t.subject) × (0 < t.predicate) × (0 < t.object)

-- The filters by patch and by local changes, where the value answers them.
abbrev pub Answers : Filters → (Deletion → Bool) → Deletion → Type 0
Answers f valid d = deletion_valid true f d.1 ≡ some (valid d)

-- Whether the record with a triple, if there is one, passes.
abbrev pub is_deleted : (Deletion → Bool) → List Deletion → Triple → Bool
is_deleted valid [] t = false
is_deleted valid (d ∷ l) t = if equals d.0 t then valid d else is_deleted valid l t

pub set_pattern-Answers :
    (f : Filters) (valid : Deletion → Bool) (t : Triple) (d : Deletion)
    → IsTriple t
    → Answers f valid d
    → Answers (set_triple_pattern_filter t f) valid d
unfolding set_triple_pattern_filter is_all_matching_pattern deletion_valid
set_pattern-Answers f valid t d i h = rw (sets_pattern t i) h
  where
    sets_pattern : (t : Triple) → IsTriple t → (t.subject == 0) ≡ false
    sets_pattern t i = ground arith

pub filtered_out :
    (f : Filters) (t u : Triple)
    → IsTriple t
    → is_filtered_out (set_triple_pattern_filter t f) u ≡ not (equals u t)
unfolding is_filtered_out set_triple_pattern_filter is_all_matching_pattern equals
    pattern_match_triple
filtered_out f t u i = ground arith

pub not_positive : (x : ℤ) → is_negative x ≡ true → is_positive x ≡ false
not_positive (pos n) h = cc
not_positive (negsuc n) h = refl

module _ (compare : Triple → Triple → ℤ) (o : KeyRanks compare) where
  abbrev pub rank : Deletion → ℕ
  rank d = o.rank d.0

  -- The jump keeps all records from the key on, and only those.
  pub jump-Sorted :
      (t : Triple) (low : ℕ) (l : List Deletion)
      → 0 < o.rank t
      → 0 < low
      → Sorted rank low l
      → Sorted rank (o.rank t) (jump compare t l)
  unfolding jump
  jump-Sorted t low [] p q s = tt
  jump-Sorted t low (d ∷ l) p q s = ground (
    arith,
    o.negative_law d.0 t (omega arith) p,
    jump-Sorted t (rank d + 1) l p (omega arith) s.1,
  )

  pub is_deleted-jump :
      (valid : Deletion → Bool) (t : Triple) (low : ℕ) (l : List Deletion)
      → 0 < o.rank t
      → 0 < low
      → Sorted rank low l
      → is_deleted valid (jump compare t l) t ≡ is_deleted valid l t
  unfolding jump
  is_deleted-jump valid t low [] p q s = refl
  is_deleted-jump valid t low (d ∷ l) p q s = ground (
    arith,
    o.negative_law d.0 t (omega arith) p,
    o.equals_law d.0 t (omega arith) p,
    is_deleted-jump valid t (rank d + 1) l p (omega arith) s.1,
  )

  is_deleted-above :
      (valid : Deletion → Bool) (t : Triple) (low : ℕ) (l : List Deletion)
      → 0 < o.rank t
      → Sorted rank low l
      → o.rank t < low
      → is_deleted valid l t ≡ false
  is_deleted-above valid t low [] p s h = refl
  is_deleted-above valid t low (d ∷ l) p s h =
      ground
        (arith, o.equals_law d.0 t (omega arith) p, is_deleted-above valid t (rank d + 1) l p s.1)

  module _ (f : Filters) (valid : Deletion → Bool) (t : Triple) (is_triple : IsTriple t)
      (is_key : 0 < o.rank t) (early : f.can_early_break ≡ true) where
    -- What a read behind the jump gives.
    abbrev pub Looked : Bool → Found Deletion → Type 0
    Looked deleted (none, l) = deleted ≡ false
    Looked deleted (some d, l) = (deleted ≡ true) × (equals d.0 t ≡ true)

    abbrev pub filters : Filters
    filters = set_triple_pattern_filter t f

    still_early : filters.can_early_break ≡ true
    unfolding set_triple_pattern_filter
    still_early = ground arith

    out : (u : Triple) (b : Bool) → equals u t ≡ b → is_filtered_out filters u ≡ not b
    out u b e = filtered_out f t u is_triple ∙ ap not e

    -- Above the triple the iterator breaks at once.
    next-above :
        (low : ℕ) (l : List Deletion)
        → Sorted rank low l
        → o.rank t < low
        → (l' : List Deletion) × (next_deletion true false filters l ≡ some (none, l'))
    unfolding next_deletion
    next-above low [] s h = ([], refl)
    next-above low (d ∷ l) s h = (d ∷ l, rw (out d.0 false different, still_early) refl)
      where
        different : equals d.0 t ≡ false
        different = ground (arith, o.equals_law d.0 t (omega arith) is_key)

    pub next-Looked :
        (l : List Deletion)
        → Sorted rank (o.rank t) l
        → All (Answers f valid) l
        → (r : Found Deletion) × (next_deletion true false filters l ≡ some r)
          × Looked (is_deleted valid l t) r
    unfolding next_deletion
    next-Looked [] s a = ((none, []), refl, refl)
    next-Looked (d ∷ l) s a = elim (Bool-cases (equals d.0 t)) [
      | inl same ↦ elim (Bool-cases (valid d)) [
        | inl v ↦ (
          (some d, l),
          rw (out d.0 true same, set_pattern-Answers f valid t d is_triple a.0, v) refl,
          (rw same v, same),
        )
        | inr n ↦
            let (l', run) = next-above (rank d + 1) l s.1 (omega arith) in
            (
              (none, l'),
              rw (out d.0 true same, set_pattern-Answers f valid t d is_triple a.0, n) run,
              rw same n,
            )
      ]
      | inr other ↦ (
        (none, d ∷ l),
        rw (out d.0 false other, still_early) refl,
        rw other (
            is_deleted-above valid t (rank d + 1) l is_key s.1
              (ground (arith, o.equals_law d.0 t (omega arith) is_key))),
      )
    ]
