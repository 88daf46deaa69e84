-- ===== src/VersionQuery/First.antt =====
-- The first deletion that the deletion iterator finds from a triple on, and how many lie before.
use ostrich.Base.{
  ℕ, ◌+◌, ◌≡◌, ◌<◌, ◌≤◌, refl, sym, Bool, true, false, not, ◌&&◌, none, some, List, [], ◌∷◌,
}
use mathlib.Core.Path.{subst}
use ostrich.Base.{arith, All, if◌then◌else◌, Bool-cases, inl, inr}
use ostrich.Base.Int.{ℤ}
use ostrich.Comparator.Keys.{KeyRanks}
use ostrich.Triple.{Triple}
use ostrich.Delta.{is_negative}
use ostrich.Delta.Merge.{Sorted}
use ostrich.PatchTree.Visits.{Deletion}
use ostrich.PatchTreeIterator.{Filters, Found, is_filtered_out, next_deletion}
use ostrich.PatchTreeIterator.Filtered.{filter}
use ostrich.PatchTree.Queries.{jump}
use ostrich.VersionQuery.Deleted.{Answers, rank}

-- The deletions that pass all filters.
abbrev pub passes : Filters → (Deletion → Bool) → Deletion → Bool
passes f valid d = not (is_filtered_out f d.0) && valid d

-- The triples that match the pattern come first.
abbrev pub MatchesFirst : Filters → List Deletion → Type 0
MatchesFirst f [] = Unit
MatchesFirst f (d ∷ l) =
    if is_filtered_out f d.0 then All (λ e. is_filtered_out f e.0 ≡ true) l else MatchesFirst f l

module _ (f : Filters) (valid : Deletion → Bool) where
  abbrev pub IsFirst : List Deletion → Found Deletion → Type 0
  IsFirst l (none, l') = filter (passes f valid) l ≡ []
  IsFirst l (some d, l') = (rest : List Deletion) × (filter (passes f valid) l ≡ d ∷ rest)

  none_pass :
      (l : List Deletion)
      → All (λ d. is_filtered_out f d.0 ≡ true) l
      → filter (passes f valid) l ≡ []
  none_pass [] h = refl
  none_pass (d ∷ l) h = rw (h.0) (none_pass l h.1)

  pass_over :
      (d : Deletion) (l : List Deletion) (r : Found Deletion)
      → passes f valid d ≡ false
      → IsFirst l r
      → IsFirst (d ∷ l) r
  pass_over d l (none, l') n e = rw n e
  pass_over d l (some d', l') n (rest, e) = (rest, rw n e)

  pub next_deletion-IsFirst :
      (l : List Deletion)
      → All (Answers f valid) l
      → MatchesFirst f l
      → f.can_early_break ≡ true
      → (r : Found Deletion) × (next_deletion true true f l ≡ some r) × IsFirst l r
  unfolding next_deletion
  next_deletion-IsFirst [] a m early = ((none, []), refl, refl)
  next_deletion-IsFirst (d ∷ l) a m early = elim (Bool-cases (is_filtered_out f d.0)) [
    | inl out ↦ (
      (none, d ∷ l),
      rw (out, early) refl,
      rw out (
          none_pass l (
            subst (λ b. if b then All (λ c. is_filtered_out f c.0 ≡ true) l else MatchesFirst f l)
              out m)),
    )
    | inr here ↦ elim (Bool-cases (valid d)) [
      | inl v ↦
          ((some d, d ∷ l), rw (here, a.0, v) refl, (filter (passes f valid) l, rw (here, v) refl))
      | inr n ↦
          let (r, run, first) =
            next_deletion-IsFirst l a.1
              (subst
                (λ b. if b then All (λ c. is_filtered_out f c.0 ≡ true) l else MatchesFirst f l)
                here m)
              early in
          (r, rw (here, a.0, n) run, pass_over d l r (rw (here, n) refl) first)
    ]
  ]

module _ (compare : Triple → Triple → ℤ) (o : KeyRanks compare) where
  filter_high :
      (p : Deletion → Bool) (x : Triple) (low : ℕ) (l : List Deletion)
      → 0 < o.rank x
      → o.rank x ≤ low
      → Sorted (rank compare o) low l
      → jump compare x (filter p l) ≡ filter p l
  unfolding jump
  filter_high p x low [] q h s = refl
  filter_high p x low (d ∷ l) q h s = elim (Bool-cases (p d)) [
    | inl y ↦ rw y (ground (arith, o.negative_law d.0 x (omega arith) q))
    | inr n ↦ rw n (filter_high p x (rank compare o d + 1) l q (omega arith) s.1)
  ]

  pub filter-jump :
      (p : Deletion → Bool) (x : Triple) (low : ℕ) (l : List Deletion)
      → 0 < o.rank x
      → 0 < low
      → Sorted (rank compare o) low l
      → filter p (jump compare x l) ≡ jump compare x (filter p l)
  unfolding jump
  filter-jump p x low [] u q s = refl
  filter-jump p x low (d ∷ l) u q s = elim (Bool-cases (is_negative (compare d.0 x))) [
    | inl before ↦ elim (Bool-cases (p d)) [
      | inl y ↦
          rw (before, y, before) (filter-jump p x (rank compare o d + 1) l u (omega arith) s.1)
      | inr n ↦ rw (before, n) (filter-jump p x (rank compare o d + 1) l u (omega arith) s.1)
    ]
    | inr behind ↦
        rw behind
          (sym (filter_high p x (rank compare o d) (d ∷ l) u (not_below behind) (omega arith, s.1)))
  ]
    where
      not_below : is_negative (compare d.0 x) ≡ false → o.rank x ≤ rank compare o d
      not_below e = ground (arith, o.negative_law d.0 x (omega arith) u)
