-- ===== src/PatchTreeIterator/Merged.antt =====
-- What the calls of `next` over both trees give until it returns false.
use ostrich.Base.{
  ℕ, zero, suc, ◌+◌, ◌≡◌, ◌<◌, refl, sym, ap, ◌∙◌, Bool, true, false, not, ◌&&◌, Option, none, some,
  List, [], ◌∷◌, ◌>>=◌,
}
use mathlib.Core.Path.{subst}
use ostrich.Base.{arith, Bool-cases, inl, inr}
use ostrich.Base.Int.{ℤ}
use ostrich.AdditionValue.{AdditionValue}
use ostrich.DeletionValue.{DeletionValue}
use ostrich.Triple.{Triple}
use ostrich.Comparator.Keys.{KeyRanks}
use ostrich.Delta.Merge.{Sorted-weaken, finished, Sorted, IsMerge, Merges-IsMerge}
use ostrich.PatchTree.Visits.{Deletion, Addition}
use ostrich.PatchTreeIterator.{Filters, Result, Merger, next_merged}
use ostrich.PatchTreeIterator.Filtered.{filter}
use ostrich.PatchTreeIterator.Scan.{passing}
use ostrich.PatchTreeIterator.Ends.{left, Shrinks, next_round-Shrinks, behind, next_merged-behind}
use ostrich.PatchTreeIterator.Rounds.{
  squashed, result_local, ReadsDeletions, ReadsAdditions, deletions_of, additions_of, IsReady,
  Remain, Rounds, next_round-Rounds,
}

filter-Sorted :
    {A : Type 0} (rank : A → ℕ) (p : A → Bool) (low : ℕ) (l : List A)
    → Sorted rank low l
    → Sorted rank low (filter p l)
filter-Sorted rank p low [] s = tt
filter-Sorted rank p low (a ∷ l) s = elim (Bool-cases (p a)) [
  | inl y ↦ rw y (s.0, filter-Sorted rank p (rank a + 1) l s.1)
  | inr n ↦ rw n (
      Sorted-weaken rank low (rank a + 1) _ (omega arith) (filter-Sorted rank p (rank a + 1) l s.1))
]

module _ (compare : Triple → Triple → ℤ) (positioned : Bool) where
  abbrev pub drained :
      (Merger → Option (List Result)) → Option (Result × Merger) → Option (List Result)
  drained rest none = some []
  drained rest (some (r, m)) = rest m >>= λ rs. some (r ∷ rs)

  -- The results of `next`, for at most `fuel` calls; a call has fuel for each record that is left.
  unfoldable pub drain : ℕ → Filters → Merger → Option (List Result)
  drain zero f m = none
  drain (suc fuel) f m =
      next_merged compare positioned (suc (left m)) f m >>= drained (drain fuel f)

  -- An iterator whose cursors are at the begin of both trees.
  abbrev pub started : List Deletion → List Addition → Merger
  started ds es = record {
    deletions = ds;
    additions = es;
    temp_deletion = none;
    temp_addition = none;
  }

module _ (compare : Triple → Triple → ℤ) (k : KeyRanks compare) (positioned : Bool) (f : Filters)
    (squash : f.squash_equal ≡ true) (dvalid : DeletionValue → Bool) (avalid : AdditionValue → Bool)
    (dlocal : DeletionValue → Bool) (alocal : AdditionValue → Bool) where
  abbrev pub Ready : Merger → Type 0
  Ready = IsReady compare k positioned f dvalid avalid dlocal alocal

  abbrev pub Remains : Merger → List Result → Type 0
  Remains = Remain compare k positioned f dvalid avalid dlocal alocal

  abbrev Stepped : Merger → Option (Result × Merger) → Type 0
  Stepped m =
      Rounds compare k positioned f dvalid avalid dlocal alocal
        (deletions_of compare k positioned f dvalid avalid dlocal alocal m.temp_deletion
          m.deletions)
        (additions_of compare k positioned f dvalid avalid dlocal alocal m.temp_addition
          m.additions)

  abbrev pub local : Result → Bool
  local = result_local compare k positioned f dvalid avalid dlocal alocal

  -- With the filter for local changes these are left out.
  abbrev pub kept : Result → Bool
  kept r = not (f.no_local_changes && local r)

  abbrev Gives : Merger → Option (Result × Merger) → Type 0
  Gives m none = (out : List Result) × Remains m out × (filter kept out ≡ [])
  Gives m (some (r, m')) =
      Ready m'
      × (left m' < left m)
      × ((out' : List Result)
          → Remains m' out'
          → (out : List Result) × Remains m out × (filter kept out ≡ r ∷ filter kept out'))

  kept-first :
      (r : Result) (out : List Result) → kept r ≡ true → filter kept (r ∷ out) ≡ r ∷ filter kept out
  kept-first r out h = rw h refl

  Gives-skip :
      (m m' : Merger) (r : Result) (o : Option (Result × Merger))
      → left m' < left m
      → kept r ≡ false
      → ((out : List Result) → Remains m' out → Remains m (r ∷ out))
      → Gives m' o
      → Gives m o
  Gives-skip m m' r none lt n step (out, g, e) = (r ∷ out, step out g, rw n e)
  Gives-skip m m' r (some (r', m'')) lt n step (ready, lt', back) = (
    ready,
    omega arith,
    λ out' g'. let (out, g, e) = back out' g' in (r ∷ out, step out g, rw n e),
  )

  behind-Gives :
      (n : ℕ) (m : Merger) (o : Option (Result × Merger))
      → Stepped m o
      → Shrinks compare positioned m (some o)
      → ((m' : Merger)
          → Ready m'
          → left m' < left m
          → (o' : Option (Result × Merger)) × (next_merged compare positioned n f m' ≡ some o')
            × Gives m' o')
      → (o' : Option (Result × Merger)) × (behind compare positioned f
            (next_merged compare positioned n f)
            (some o)
          ≡ some o')
        × Gives m o'
  unfolding Shrinks
  behind-Gives n m none h lt ih = (none, refl, ([], rw (h.0, h.1) finished, refl))
  behind-Gives n m (some (r, m')) (ready, answer, step) lt ih =
      elim (Bool-cases f.no_local_changes) [
        | inl filtered ↦ elim (Bool-cases (local r)) [
          | inl here ↦
              let (o', run, gives) = ih m' ready lt in
              (
                o',
                rw (run, filtered, answer, here) refl,
                Gives-skip m m' r o' lt (rw (filtered, here) refl) step gives,
              )
          | inr n ↦ (
            some (r, m'),
            rw (filtered, answer, n) refl,
            (ready, lt, λ out g. (r ∷ out, step out g, kept-first r out (rw (n, filtered) refl))),
          )
        ]
        | inr all ↦ (
          some (r, m'),
          rw all refl,
          (ready, lt, λ out g. (r ∷ out, step out g, kept-first r out (rw all refl))),
        )
      ]

  next_merged-Gives :
      (n : ℕ) (m : Merger)
      → Ready m
      → left m < n
      → (o : Option (Result × Merger)) × (next_merged compare positioned n f m ≡ some o) × Gives m o
  next_merged-Gives zero m h lt = absurd (omega arith)
  next_merged-Gives (suc n) m h lt =
      let (o, run, rounds) =
        next_round-Rounds compare k positioned f dvalid avalid dlocal alocal squash m h in
      let (o', run', gives) =
        behind-Gives n m o rounds
          (subst (Shrinks compare positioned m) run (next_round-Shrinks compare positioned f m))
          (λ m' h' lt'. next_merged-Gives n m' h' (omega arith)) in
      (
        o',
        next_merged-behind compare positioned n f m
            ∙ ap (behind compare positioned f (next_merged compare positioned n f)) run
            ∙ run',
        gives,
      )

  pub drained-Merges :
      (fuel : ℕ) (m : Merger)
      → Ready m
      → left m < fuel
      → (out : List Result) × Remains m out
        × (drain compare positioned fuel f m ≡ some (filter kept out))
  unfolding drain
  drained-Merges zero m h lt = absurd (omega arith)
  drained-Merges (suc fuel) m h lt =
      let (o, run, gives) = next_merged-Gives (suc (left m)) m h (omega arith) in
      rw run (continue o gives (λ m' h' lt'. drained-Merges fuel m' h' (omega arith)))
    where
      continue :
          (o : Option (Result × Merger))
          → Gives m o
          → ((m' : Merger)
              → Ready m'
              → left m' < left m
              → (out : List Result) × Remains m' out
                × (drain compare positioned fuel f m' ≡ some (filter kept out)))
          → (out : List Result) × Remains m out
            × (drained compare positioned (drain compare positioned fuel f) o
                ≡ some (filter kept out))
      continue none (out, g, e) ih = (out, g, ap some (sym e))
      continue (some (r, m')) (ready, lt', back) ih =
          let (out', g', run') = ih m' ready lt' in
          let (out, g, e) = back out' g' in (out, g, rw (run', e) refl)

  -- For two trees of keys in the order of the comparator, and with equal triples squashed, the calls of `next` end,
  -- and give, in order, each triple that has a deletion or an addition that passes the filters by
  -- pattern and patch once, with both values where it has both, without the local changes if these are
  -- filtered. The values must answer the filters, and with the early break the records that match the
  -- pattern must come first.
  pub drain-IsMerge :
      (ds : List Deletion) (es : List Addition)
      → ReadsDeletions compare k positioned f dvalid avalid dlocal alocal ds
      → ReadsAdditions compare k positioned f dvalid avalid dlocal alocal es
      → Sorted (λ d. k.rank d.0) 0 ds
      → Sorted (λ a. k.rank a.0) 0 es
      → (out : List Result) × IsMerge
          (squashed compare k)
          0
          (filter (passing (record f { no_local_changes = false }) dvalid) ds)
          (filter (passing (record f { no_local_changes = false }) avalid) es)
          out
        × (drain compare positioned
              (suc (left (started compare positioned ds es)))
              f
              (started compare positioned ds es)
            ≡ some (filter kept out))
  drain-IsMerge ds es h1 h2 s1 s2 =
      let (out, g, run) =
        drained-Merges (suc (left (started compare positioned ds es)))
          (started compare positioned ds es) (h1, h2, tt, tt) (omega arith) in
      (
        out,
        Merges-IsMerge (squashed compare k) 0 g (filter-Sorted _ _ 0 ds s1)
            (filter-Sorted _ _ 0 es s2),
        run,
      )
