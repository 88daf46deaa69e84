-- ===== src/PatchTreeIterator/Filtered.antt =====
-- What the iterator over one tree gives: the records that pass the filters, in their order; and the early
-- break changes nothing where the triples of the pattern come first.
use ostrich.Base.{
  ℕ, zero, suc, ◌≡◌, ◌<◌, refl, sym, ap, Bool, true, false, not, ◌&&◌, Option, none, some, List, [],
  ◌∷◌, ◌>>=◌,
}
use mathlib.Core.Path.{subst}
use ostrich.Base.{arith, length, All, if◌then◌else◌, Bool-cases, inl, inr}
use ostrich.PatchTree.Visits.{Addition}
use ostrich.PatchTreeIterator.{Filters, Found, is_filtered_out, addition_valid, next_addition}

-- The elements that pass a test.
abbrev pub filter {ℓ} : {A : Type ℓ} → (A → Bool) → List A → List A
filter p [] = []
filter p (a ∷ l) = if p a then a ∷ filter p l else filter p l

abbrev pub collected :
    (List Addition → Option (List Addition)) → Found Addition → Option (List Addition)
collected rest (none, l) = some []
collected rest (some a, l) = rest l >>= λ found. some (a ∷ found)

-- All that `next_addition` gives until it returns false, for at most `fuel` calls.
unfoldable pub collect : ℕ → Filters → List Addition → Option (List Addition)
collect zero f l = none
collect (suc fuel) f l = next_addition f l >>= collected (collect fuel f)

-- The filters, where the values answer them.
abbrev pub passes : Filters → (Addition → Bool) → Addition → Bool
passes f valid a = not (is_filtered_out f a.0) && valid a

abbrev pub Answers : Filters → (Addition → Bool) → Addition → Type 0
Answers f valid a = addition_valid f a.1 ≡ some (valid a)

-- With the early break, the triples that match the pattern come first.
abbrev pub MatchesFirst : Filters → List Addition → Type 0
MatchesFirst f [] = Unit
MatchesFirst f (a ∷ l) =
    if is_filtered_out f a.0 then All (λ b. is_filtered_out f b.0 ≡ true) l else MatchesFirst f l

module _ (f : Filters) (valid : Addition → Bool) where
  -- What stays true of the records that are left.
  abbrev pub StillReads : List Addition → Type 0
  StillReads l = All (Answers f valid) l × (f.can_early_break ≡ true → MatchesFirst f l)

  -- One call: it skips what does not pass.
  abbrev pub Next : List Addition → Found Addition → Type 0
  Next l (none, l') =
      (filter (passes f valid) l ≡ []) × (filter (passes f valid) l' ≡ []) × StillReads l'
  Next l (some a, l') =
      (filter (passes f valid) l ≡ a ∷ filter (passes f valid) l')
      × (length l' < length l)
      × All (Answers f valid) l'
      × (f.can_early_break ≡ true → MatchesFirst f l')

  none_pass :
      (l : List Addition)
      → All (λ b. is_filtered_out f b.0 ≡ true) l
      → filter (passes f valid) l ≡ []
  none_pass [] h = refl
  none_pass (a ∷ l) h = rw (h.0) (none_pass l h.1)

  Next-skip :
      (a : Addition) (l : List Addition) (r : Found Addition)
      → passes f valid a ≡ false
      → Next l r
      → Next (a ∷ l) r
  Next-skip a l (none, l') n h = (rw n h.0, h.1, h.2)
  Next-skip a l (some b, l') n (e, shorter, answers, first) = (rw n e, omega arith, answers, first)

  out_matches : (l : List Addition) → All (λ b. is_filtered_out f b.0 ≡ true) l → MatchesFirst f l
  out_matches [] h = tt
  out_matches (a ∷ l) h = rw (h.0) (h.1)

  rest_out :
      (a : Addition) (l : List Addition)
      → is_filtered_out f a.0 ≡ true
      → MatchesFirst f (a ∷ l)
      → All (λ b. is_filtered_out f b.0 ≡ true) l
  rest_out a l h m =
      subst (λ b. if b then All (λ c. is_filtered_out f c.0 ≡ true) l else MatchesFirst f l) h m

  matches_behind :
      (a : Addition) (l : List Addition)
      → is_filtered_out f a.0 ≡ false
      → MatchesFirst f (a ∷ l)
      → MatchesFirst f l
  matches_behind a l h m =
      subst (λ b. if b then All (λ c. is_filtered_out f c.0 ≡ true) l else MatchesFirst f l) h m

  pub next_addition-Next :
      (l : List Addition)
      → All (Answers f valid) l
      → (f.can_early_break ≡ true → MatchesFirst f l)
      → (r : Found Addition) × (next_addition f l ≡ some r) × Next l r
  unfolding next_addition
  next_addition-Next [] h e = ((none, []), refl, (refl, refl, (tt, λ k. tt)))
  next_addition-Next (a ∷ l) h e = elim (Bool-cases (is_filtered_out f a.0)) [
    | inl out ↦ elim (Bool-cases f.can_early_break) [
      | inl early ↦
          let left_out = rest_out a l out (e early) in
          (
            (none, l),
            rw (out, early) refl,
            (
              rw out (none_pass l left_out),
              none_pass l left_out,
              (h.1, λ k. out_matches l left_out),
            ),
          )
      | inr late ↦
          let (r, run, n) = next_addition-Next l h.1 (λ k. absurd (differs k late)) in
          (r, rw (out, late) run, Next-skip a l r (rw out refl) n)
    ]
    | inr here ↦ elim (Bool-cases (valid a)) [
      | inl v ↦ (
        (some a, l),
        rw (here, h.0, v) refl,
        (rw (here, v) refl, omega arith, h.1, λ k. matches_behind a l here (e k)),
      )
      | inr n ↦
          let (r, run, n') = next_addition-Next l h.1 (λ k. matches_behind a l here (e k)) in
          (r, rw (here, h.0, n) run, Next-skip a l r (rw (here, n) refl) n')
    ]
  ]
    where
      differs : f.can_early_break ≡ true → f.can_early_break ≡ false → ⊥
      differs k n = cc

  collected-filter :
      (fuel : ℕ) (l : List Addition) (r : Found Addition)
      → Next l r
      → length l < suc fuel
      → ((l' : List Addition)
          → All (Answers f valid) l'
          → (f.can_early_break ≡ true → MatchesFirst f l')
          → length l' < fuel
          → collect fuel f l' ≡ some (filter (passes f valid) l'))
      → collected (collect fuel f) r ≡ some (filter (passes f valid) l)
  collected-filter fuel l (none, l') n h ih = ap some (sym n.0)
  collected-filter fuel l (some a, l') (e, shorter, answers, first) h ih =
      rw (ih l' answers first (omega arith), e) refl

  pub collect-counted :
      (fuel : ℕ) (l : List Addition)
      → All (Answers f valid) l
      → (f.can_early_break ≡ true → MatchesFirst f l)
      → length l < fuel
      → collect fuel f l ≡ some (filter (passes f valid) l)
  unfolding collect
  collect-counted zero l h e k = absurd (omega arith)
  collect-counted (suc fuel) l h e k =
      let (r, run, n) = next_addition-Next l h e in
      rw run (collected-filter fuel l r n k (collect-counted fuel))

  -- Where the filters by patch and by local changes answer for every record, the calls of
  -- `next_addition` give exactly the records that pass all filters, in their order, and then return
  -- false; with the early break this holds if the records that match the pattern come first.
  pub collect-filter :
      (l : List Addition)
      → All (Answers f valid) l
      → (f.can_early_break ≡ true → MatchesFirst f l)
      → collect (suc (length l)) f l ≡ some (filter (passes f valid) l)
  collect-filter l h e = collect-counted (suc (length l)) l h e (omega arith)
