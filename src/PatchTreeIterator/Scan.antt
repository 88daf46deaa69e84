-- ===== src/PatchTreeIterator/Scan.antt =====
-- One call of `next_deletion` or `next_addition`: what it finds, and what the cursor still reads.
use ostrich.Base.{
  ◌≡◌, refl, sym, Bool, true, false, not, ◌&&◌, Option, none, some, List, [], ◌∷◌, ◌>>=◌,
}
use mathlib.Core.Path.{subst}
use ostrich.Base.{All, if◌then◌else◌, Bool-cases, inl, inr}
use ostrich.Triple.{Triple}
use ostrich.PatchTree.Visits.{Deletion, Addition}
use ostrich.PatchTreeIterator.{
  Filters, Found, is_filtered_out, addition_valid, deletion_valid, next_addition, next_deletion,
}
use ostrich.PatchTreeIterator.Filtered.{filter}

module _ {V : Type 0} (f : Filters) where
  -- Both searches: the first record that matches and that `test` accepts. `stays` tells whether the cursor
  -- stays at a record where it breaks.
  unfoldable pub scan : Bool → (V → Option Bool) → List (Triple × V) → Option (Found (Triple × V))
  scan stays test [] = some (none, [])
  scan stays test (e ∷ l) =
      let rest = scan stays test l in
      if is_filtered_out f e.0
      then (if f.can_early_break then some (none, if stays then e ∷ l else l) else rest)
      else (test e.1 >>= λ valid. if valid then some (some e, l) else rest)

  abbrev pub passing : (V → Bool) → Triple × V → Bool
  passing valid e = not (is_filtered_out f e.0) && valid e.1

  abbrev pub AllOut : List (Triple × V) → Type 0
  AllOut l = All (λ e. is_filtered_out f e.0 ≡ true) l

  -- The triples that match the pattern come first.
  abbrev pub Foremost : List (Triple × V) → Type 0
  Foremost [] = Unit
  Foremost (e ∷ l) = if is_filtered_out f e.0 then AllOut l else Foremost l

  abbrev pub put_back : Option (Triple × V) → List (Triple × V) → List (Triple × V)
  put_back none l = l
  put_back (some e) l = e ∷ l

  module _ (test : V → Option Bool) (valid : V → Bool) (P : Triple × V → Type 0) where
    abbrev pub IsReadable : List (Triple × V) → Type 0
    IsReadable l =
        All (λ e. (test e.1 ≡ some (valid e.1)) × P e) l × (f.can_early_break ≡ true → Foremost l)

    abbrev pub IsKept : Option (Triple × V) → Type 0
    IsKept none = Unit
    IsKept (some e) = P e

    -- What passes of the whole, first what is found and then what passes of the rest.
    abbrev pub Finds : List (Triple × V) → Found (Triple × V) → Type 0
    Finds whole (o, l) =
        (whole ≡ put_back o (filter (passing valid) l))
        × (o ≡ none → filter (passing valid) l ≡ [])
        × IsReadable l
        × IsKept o

    none_pass : (l : List (Triple × V)) → AllOut l → filter (passing valid) l ≡ []
    none_pass [] h = refl
    none_pass (e ∷ l) h = rw (h.0) (none_pass l h.1)

    AllOut-Foremost : (l : List (Triple × V)) → AllOut l → Foremost l
    AllOut-Foremost [] h = tt
    AllOut-Foremost (e ∷ l) h = rw (h.0) (h.1)

    Foremost-tail :
        (e : Triple × V) (l : List (Triple × V)) (b : Bool)
        → is_filtered_out f e.0 ≡ b
        → Foremost (e ∷ l)
        → if b then AllOut l else Foremost l
    Foremost-tail e l b h m = subst (λ c. if c then AllOut l else Foremost l) h m

    stopped :
        (stays : Bool) (e : Triple × V) (l : List (Triple × V))
        → is_filtered_out f e.0 ≡ true
        → AllOut l
        → IsReadable (e ∷ l)
        → Finds [] (none, if stays then e ∷ l else l)
    stopped true e l out h r =
        (sym (none_pass (e ∷ l) (out, h)), λ n. none_pass (e ∷ l) (out, h), r, tt)
    stopped false e l out h r =
        (sym (none_pass l h), λ n. none_pass l h, (r.0.1, λ k. AllOut-Foremost l h), tt)

    pub scan-Finds :
        (stays : Bool) (l : List (Triple × V))
        → IsReadable l
        → (r : Found (Triple × V)) × (scan stays test l ≡ some r)
          × Finds (filter (passing valid) l) r
    unfolding scan
    scan-Finds stays [] h = ((none, []), refl, (refl, λ n. refl, (tt, λ k. tt), tt))
    scan-Finds stays (e ∷ l) h = elim (Bool-cases (is_filtered_out f e.0)) [
      | inl out ↦ elim (Bool-cases f.can_early_break) [
        | inl early ↦
            let behind : AllOut l = Foremost-tail e l true out (h.1 early) in
            (
              (none, if stays then e ∷ l else l),
              rw (out, early) refl,
              rw (none_pass (e ∷ l) (out, behind)) (stopped stays e l out behind h),
            )
        | inr late ↦
            let (r, run, found) = scan-Finds stays l (h.0.1, λ k. absurd (differs k late)) in
            (r, rw (out, late) run, rw out found)
      ]
      | inr here ↦
          let behind : (f.can_early_break ≡ true → Foremost l) =
            (λ k. Foremost-tail e l false here (h.1 k)) in
          elim (Bool-cases (valid e.1)) [
            | inl v ↦ (
              (some e, l),
              rw (here, h.0.0.0, v) refl,
              (rw (here, v) refl, λ n. absurd (not_none n), (h.0.1, behind), h.0.0.1),
            )
            | inr n ↦
                let (r, run, found) = scan-Finds stays l (h.0.1, behind) in
                (r, rw (here, h.0.0.0, n) run, rw (here, n) found)
          ]
    ]
      where
        differs : f.can_early_break ≡ true → f.can_early_break ≡ false → ⊥
        differs k n = cc

        not_none : {A : Type 0} {a : A} → some a ≡ none → ⊥
        not_none n = cc

pub next_addition-scan :
    (f : Filters) (l : List Addition) → next_addition f l ≡ scan f false (addition_valid f) l
unfolding next_addition scan
next_addition-scan f [] = refl
next_addition-scan f ((key, v) ∷ l) = rw (next_addition-scan f l) refl

pub next_deletion-scan :
    (positioned : Bool) (f : Filters) (l : List Deletion)
    → next_deletion positioned false f l ≡ scan f true (deletion_valid positioned f) l
unfolding next_deletion scan
next_deletion-scan positioned f [] = refl
next_deletion-scan positioned f ((key, v) ∷ l) = rw (next_deletion-scan positioned f l) refl
