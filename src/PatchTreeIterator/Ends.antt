-- ===== src/PatchTreeIterator/Ends.antt =====
-- The calls of `next` over both trees end.
use ostrich.Base.{
  ℕ, suc, ◌+◌, ◌≡◌, ◌<◌, ◌≤◌, refl, Bool, true, false, Option, none, some, List, [], ◌∷◌, ◌>>=◌,
}
use mathlib.Core.Path.{subst}
use ostrich.Base.{arith, length, if◌then◌else◌, Bool-cases, Option-cases, inl, inr}
use ostrich.Base.Int.{ℤ}
use ostrich.Triple.{Triple}
use ostrich.Delta.{is_zero}
use ostrich.PatchTree.Visits.{Deletion, Addition, is_positive}
use ostrich.PatchTreeIterator.{
  Filters, Found, Result, Merger, Chosen, is_filtered_out, addition_valid, deletion_valid,
  next_addition, next_deletion, read_addition, read_deletion, choose_next, choose_equal,
  is_addition_later, of_addition, of_deletion, next_round, next_merged, is_result_local, tree_value,
}

abbrev weight {ℓ} : {A : Type ℓ} → Option A → ℕ
weight none = 0
weight (some a) = 1

-- What is found and what is left are not more than there was.
Fits : {A : Type 0} → ℕ → Option (Found A) → Type 0
Fits n none = Unit
Fits n (some (o, l)) = weight o + length l ≤ n

Fits-more : {A : Type 0} (n : ℕ) (o : Option (Found A)) → Fits n o → Fits (suc n) o
unfolding Fits
Fits-more n none h = tt
Fits-more n (some (o, l)) h = omega arith

Fits-test :
    {A : Type 0} (n : ℕ) (o : Option Bool) (kept rest : Option (Found A))
    → Fits n kept
    → Fits n rest
    → Fits n (o >>= λ valid. if valid then kept else rest)
unfolding Fits
Fits-test n none kept rest h k = tt
Fits-test n (some true) kept rest h k = h
Fits-test n (some false) kept rest h k = k

next_addition-Fits : (f : Filters) (l : List Addition) → Fits (length l) (next_addition f l)
unfolding next_addition Fits
next_addition-Fits f [] = omega arith
next_addition-Fits f ((key, v) ∷ l) =
    let rest = Fits-more (length l) (next_addition f l) (next_addition-Fits f l) in
    elim (Bool-cases (is_filtered_out f key)) [
      | inl out ↦ elim (Bool-cases f.can_early_break) [
        | inl early ↦ rw (out, early) (omega arith)
        | inr late ↦ rw (out, late) rest
      ]
      | inr here ↦ rw here (
          Fits-test (suc (length l)) (addition_valid f v) (some (some (key, v), l))
            (next_addition f l) (omega arith) rest)
    ]

next_deletion-Fits :
    (positioned : Bool) (f : Filters) (l : List Deletion)
    → Fits (length l) (next_deletion positioned false f l)
unfolding next_deletion Fits
next_deletion-Fits positioned f [] = omega arith
next_deletion-Fits positioned f ((key, v) ∷ l) =
    let rest =
      Fits-more (length l) (next_deletion positioned false f l)
        (next_deletion-Fits positioned f l) in
    elim (Bool-cases (is_filtered_out f key)) [
      | inl out ↦ elim (Bool-cases f.can_early_break) [
        | inl early ↦ rw (out, early) (omega arith)
        | inr late ↦ rw (out, late) rest
      ]
      | inr here ↦ rw here (
          Fits-test (suc (length l)) (deletion_valid positioned f v) (some (some (key, v), l))
            (next_deletion positioned false f l) (omega arith) rest)
    ]

-- The records that are left, with those that were read already.
abbrev pub left : Merger → ℕ
left m = length m.deletions + weight m.temp_deletion + (length m.additions + weight m.temp_addition)

read_deletion-Fits :
    (positioned : Bool) (f : Filters) (m : Merger)
    → Fits (length m.deletions + weight m.temp_deletion) (read_deletion positioned f m)
unfolding read_deletion Fits
read_deletion-Fits positioned f m = elim (Option-cases m.temp_deletion) [
  | inl e ↦ rw e (same_bound (next_deletion-Fits positioned f m.deletions))
  | inr (d, e) ↦ rw e (omega arith)
]
  where
    same_bound :
        Fits (length m.deletions) (next_deletion positioned false f m.deletions)
        → Fits (length m.deletions + 0) (next_deletion positioned false f m.deletions)
    same_bound h =
        subst (λ (n : ℕ). Fits n (next_deletion positioned false f m.deletions)) (omega arith) h

read_addition-Fits :
    (f : Filters) (m : Merger)
    → Fits (length m.additions + weight m.temp_addition) (read_addition f m)
unfolding read_addition Fits
read_addition-Fits f m = elim (Option-cases m.temp_addition) [
  | inl e ↦ rw e (same_bound (next_addition-Fits f m.additions))
  | inr (a, e) ↦ rw e (omega arith)
]
  where
    same_bound :
        Fits (length m.additions) (next_addition f m.additions)
        → Fits (length m.additions + 0) (next_addition f m.additions)
    same_bound h = subst (λ (n : ℕ). Fits n (next_addition f m.additions)) (omega arith) h

module _ (compare : Triple → Triple → ℤ) (positioned : Bool) where
  Lighter : ℕ → Option (Option Chosen) → Type 0
  Lighter n none = Unit
  Lighter n (some none) = Unit
  Lighter n (some (some (r, td, ta))) = weight td + weight ta < n

  later-Lighter :
      (d : Deletion) (a : Addition) (o : Option Bool)
      → Lighter 2 (
          (o >>= λ later. some (if later then of_addition a else of_deletion d, none, none))
          >>= λ c. some (some c))
  unfolding Lighter
  later-Lighter d a none = tt
  later-Lighter d a (some b) = omega arith

  choose_equal-Lighter :
      (f : Filters) (d : Deletion) (a : Addition)
      → Lighter 2 (choose_equal positioned f d a >>= λ c. some (some c))
  unfolding choose_equal Lighter
  choose_equal-Lighter f d a = elim (Bool-cases f.squash_equal) [
    | inl e ↦ rw e (omega arith)
    | inr e ↦ rw e (later-Lighter d a (is_addition_later f (tree_value positioned true true d a)))
  ]

  choose_next-Lighter :
      (f : Filters) (d : Option Deletion) (a : Option Addition)
      → Lighter (weight d + weight a) (choose_next compare positioned f d a)
  unfolding choose_next Lighter
  choose_next-Lighter f none none = tt
  choose_next-Lighter f (some d) none = omega arith
  choose_next-Lighter f none (some a) = omega arith
  choose_next-Lighter f (some d) (some a) = elim (Bool-cases (is_zero (compare d.0 a.0))) [
    | inl z ↦ rw z (choose_equal-Lighter f d a)
    | inr z ↦ elim (Bool-cases (is_positive (compare d.0 a.0))) [
      | inl p ↦ rw (z, p) (omega arith)
      | inr p ↦ rw (z, p) (omega arith)
    ]
  ]

  unfoldable pub Shrinks : Merger → Option (Option (Result × Merger)) → Type 0
  Shrinks m none = Unit
  Shrinks m (some none) = Unit
  Shrinks m (some (some (r, m'))) = left m' < left m

  -- The round by what its reads give.
  chosen-Shrinks :
      (m : Merger) (d : Option Deletion) (a : Option Addition) (ds : List Deletion)
      (l : List Addition) (o : Option (Option Chosen))
      → weight d + length ds ≤ length m.deletions + weight m.temp_deletion
      → weight a + length l ≤ length m.additions + weight m.temp_addition
      → Lighter (weight d + weight a) o
      → Shrinks m (
          o >>= λ chosen. some (elim chosen [
            | none ↦ none
            | some (r, td, ta) ↦ some (
              r,
              record { deletions = ds; additions = l; temp_deletion = td; temp_addition = ta },
            )
          ]))
  unfolding Lighter Shrinks
  chosen-Shrinks m d a ds l none h k n = tt
  chosen-Shrinks m d a ds l (some none) h k n = tt
  chosen-Shrinks m d a ds l (some (some (r, td, ta))) h k n = omega arith

  pub next_round-Shrinks :
      (f : Filters) (m : Merger) → Shrinks m (next_round compare positioned f m)
  unfolding next_round Shrinks Fits
  next_round-Shrinks f m =
      let f' : Filters = record f { no_local_changes = false } in
      elim (Option-cases (read_deletion positioned f' m)) [
        | inl e ↦ rw e tt
        | inr ((d, ds), e) ↦ elim (Option-cases (read_addition f' m)) [
          | inl e' ↦ rw (e, e') tt
          | inr ((a, l), e') ↦
              rw (e, e')
                (chosen-Shrinks m d a ds l (choose_next compare positioned f d a)
                  (subst (Fits (length m.deletions + weight m.temp_deletion)) e
                    (read_deletion-Fits positioned f' m))
                  (subst (Fits (length m.additions + weight m.temp_addition)) e'
                    (read_addition-Fits f' m))
                  (choose_next-Lighter f d a))
        ]
      ]

  -- The rest of a call behind its first round, with what the calls behind it give.
  abbrev pub behind :
      Filters
      → (Merger → Option (Option (Result × Merger)))
      → Option (Option (Result × Merger))
      → Option (Option (Result × Merger))
  behind f rest none = none
  behind f rest (some none) = some none
  behind f rest (some (some (r, m'))) =
      if f.no_local_changes
      then (is_result_local positioned f.patch_id r >>= λ local.
          if local then rest m' else some (some (r, m')))
      else some (some (r, m'))

  pub next_merged-behind :
      (fuel : ℕ) (f : Filters) (m : Merger)
      → next_merged compare positioned (suc fuel) f m
        ≡ behind f (next_merged compare positioned fuel f) (next_round compare positioned f m)
  unfolding next_merged
  next_merged-behind fuel f m = elim (Option-cases (next_round compare positioned f m)) [
    | inl e ↦ rw e refl
    | inr (none, e) ↦ rw e refl
    | inr (some (r, m'), e) ↦ rw e refl
  ]
