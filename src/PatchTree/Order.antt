-- ===== src/PatchTree/Order.antt =====
-- The loop of `append_unsafe` ends, and its rounds take the three sources apart in their common order.
use ostrich.Base.{
  ℕ, zero, suc, ◌+◌, ◌≡◌, ◌<◌, ◌≤◌, refl, ap, sym, ◌∙◌, Option, none, some, List, [], ◌∷◌,
}
use ostrich.Base.{arith, length, inl, inr, compare-cases}
use ostrich.Base.Int.{ℤ}
use ostrich.Triple.{Triple, PatchElement}
use ostrich.Delta.{drain, and_then}
use ostrich.Delta.Merge.{Sorted}
use ostrich.Comparator.Keys.{KeyRanks}
use ostrich.PatchTree.Visits.{Deletion, Addition, Sources, Visit, next_visit}
use ostrich.PatchTree.Chosen.{
  choose-on_patch, choose-on_deletion, choose-on_addition, choose-on_patch_deletion,
  choose-on_patch_addition, choose-on_both, choose-on_equal,
}

-- A source that a round has taken an element from.
abbrev pub with_taken {ℓ} : {A : Type ℓ} → Option A → List A → List A
with_taken none l = l
with_taken (some a) l = a ∷ l

-- The elements that the rounds take from one source.
abbrev pub taken : {A : Type 0} → (Visit → Option A) → List Visit → List A
taken f [] = []
taken f (v ∷ vs) = with_taken (f v) (taken f vs)

-- An element, if there is one, has the rank.
abbrev pub HasRank : {A : Type 0} → (A → ℕ) → ℕ → Option A → Type 0
HasRank rank r none = Unit
HasRank rank r (some a) = rank a ≡ r

module _ (compare : Triple → Triple → ℤ) (k : KeyRanks compare) where
  abbrev pub patch_rank : PatchElement → ℕ
  patch_rank e = k.rank e.element_triple

  abbrev pub deletion_rank : Deletion → ℕ
  deletion_rank d = k.rank d.0

  abbrev pub addition_rank : Addition → ℕ
  addition_rank a = k.rank a.0

  -- The parts of a round have one rank, and those of the later rounds have higher ones.
  abbrev pub Ascends : ℕ → List Visit → Type 0
  Ascends low [] = Unit
  Ascends low (v ∷ vs) =
      (r : ℕ) × (low ≤ r)
      × HasRank patch_rank r v.patch
      × HasRank deletion_rank r v.deletion
      × HasRank addition_rank r v.addition
      × Ascends (r + 1) vs

  abbrev pub AreSorted : ℕ → Sources → Type 0
  AreSorted low s =
      Sorted patch_rank low s.patch
      × Sorted deletion_rank low s.deletions
      × Sorted addition_rank low s.additions

  abbrev pub size : Sources → ℕ
  size s = length s.patch + length s.deletions + length s.additions

  -- A round takes elements of one rank off the sources, or all sources have ended.
  Stepped : ℕ → Sources → Option (Visit × Sources) → Type 0
  Stepped low s none = (s.patch ≡ []) × (s.deletions ≡ []) × (s.additions ≡ [])
  Stepped low s (some (v, s')) =
      (s.patch ≡ with_taken v.patch s'.patch)
      × (s.deletions ≡ with_taken v.deletion s'.deletions)
      × (s.additions ≡ with_taken v.addition s'.additions)
      × (size s' < size s)
      × ((r : ℕ) × (low ≤ r)
          × HasRank patch_rank r v.patch
          × HasRank deletion_rank r v.deletion
          × HasRank addition_rank r v.addition
          × AreSorted (r + 1) s')

  from : List PatchElement → List Deletion → List Addition → Triple → Sources
  from p d a last = record { patch = p; deletions = d; additions = a; last = last }

  next-Stepped :
      (low : ℕ) (p : List PatchElement) (d : List Deletion) (a : List Addition) (last : Triple)
      → 0 < low
      → AreSorted low (from p d a last)
      → Stepped low (from p d a last) (next_visit compare (from p d a last))
  unfolding next_visit Stepped from
  next-Stepped low [] [] [] last q s = (refl, refl, refl)
  next-Stepped low (x ∷ p) [] [] last q s =
      rw (choose-on_patch compare k (some x.element_triple) none none tt tt)
        (refl, refl, refl, omega arith, (patch_rank x, s.0.0, refl, tt, tt, (s.0.1, tt, tt)))
  next-Stepped low [] (y ∷ d) [] last q s =
      rw (choose-on_deletion compare k none (some y.0) none tt tt)
        (refl, refl, refl, omega arith, (deletion_rank y, s.1.0, tt, refl, tt, (tt, s.1.1, tt)))
  next-Stepped low [] [] (z ∷ a) last q s =
      rw (choose-on_addition compare k none none (some z.0) tt tt)
        (refl, refl, refl, omega arith, (addition_rank z, s.2.0, tt, tt, refl, (tt, tt, s.2.1)))
  next-Stepped low (x ∷ p) (y ∷ d) [] last q s =
      elim (compare-cases (patch_rank x) (deletion_rank y)) [
        | inl lt ↦
            rw (choose-on_patch compare k (some x.element_triple) (some y.0) none (omega arith) tt)
              (
                refl,
                refl,
                refl,
                omega arith,
                (patch_rank x, s.0.0, refl, tt, tt, (s.0.1, (omega arith, s.1.1), tt)),
              )
        | inr (inl eq) ↦
            rw
              (choose-on_patch_deletion compare k (some x.element_triple) (some y.0) none
                (omega arith) tt)
              (
                refl,
                refl,
                refl,
                omega arith,
                (deletion_rank y, s.1.0, eq, refl, tt, (rw (← eq) s.0.1, s.1.1, tt)),
              )
        | inr (inr gt) ↦
            rw
              (choose-on_deletion compare k (some x.element_triple) (some y.0) none (omega arith)
                tt)
              (
                refl,
                refl,
                refl,
                omega arith,
                (deletion_rank y, s.1.0, tt, refl, tt, ((omega arith, s.0.1), s.1.1, tt)),
              )
      ]
  next-Stepped low (x ∷ p) [] (z ∷ a) last q s =
      elim (compare-cases (patch_rank x) (addition_rank z)) [
        | inl lt ↦
            rw (choose-on_patch compare k (some x.element_triple) none (some z.0) tt (omega arith))
              (
                refl,
                refl,
                refl,
                omega arith,
                (patch_rank x, s.0.0, refl, tt, tt, (s.0.1, tt, (omega arith, s.2.1))),
              )
        | inr (inl eq) ↦
            rw
              (choose-on_patch_addition compare k (some x.element_triple) none (some z.0)
                (omega arith) tt)
              (
                refl,
                refl,
                refl,
                omega arith,
                (addition_rank z, s.2.0, eq, tt, refl, (rw (← eq) s.0.1, tt, s.2.1)),
              )
        | inr (inr gt) ↦
            rw
              (choose-on_addition compare k (some x.element_triple) none (some z.0) (omega arith)
                tt)
              (
                refl,
                refl,
                refl,
                omega arith,
                (addition_rank z, s.2.0, tt, tt, refl, ((omega arith, s.0.1), tt, s.2.1)),
              )
      ]
  next-Stepped low [] (y ∷ d) (z ∷ a) last q s =
      elim (compare-cases (deletion_rank y) (addition_rank z)) [
        | inl lt ↦ rw (choose-on_deletion compare k none (some y.0) (some z.0) tt (omega arith)) (
          refl,
          refl,
          refl,
          omega arith,
          (deletion_rank y, s.1.0, tt, refl, tt, (tt, s.1.1, (omega arith, s.2.1))),
        )
        | inr (inl eq) ↦
            rw (choose-on_equal compare k none (some y.0) (some z.0) tt tt (omega arith)) (
              refl,
              refl,
              refl,
              omega arith,
              (addition_rank z, s.2.0, tt, eq, refl, (tt, rw (← eq) s.1.1, s.2.1)),
            )
        | inr (inr gt) ↦
            rw (choose-on_addition compare k none (some y.0) (some z.0) tt (omega arith)) (
              refl,
              refl,
              refl,
              omega arith,
              (addition_rank z, s.2.0, tt, tt, refl, (tt, (omega arith, s.1.1), s.2.1)),
            )
      ]
  next-Stepped low (x ∷ p) (y ∷ d) (z ∷ a) last q s =
      elim (compare-cases (deletion_rank y) (addition_rank z)) [
        | inl lt ↦ elim (compare-cases (patch_rank x) (deletion_rank y)) [
          | inl l ↦
              rw
                (choose-on_patch compare k (some x.element_triple) (some y.0) (some z.0)
                  (omega arith) (omega arith))
                (
                  refl,
                  refl,
                  refl,
                  omega arith,
                  (
                    patch_rank x,
                    s.0.0,
                    refl,
                    tt,
                    tt,
                    (s.0.1, (omega arith, s.1.1), (omega arith, s.2.1)),
                  ),
                )
          | inr (inl e) ↦
              rw
                (choose-on_patch_deletion compare k (some x.element_triple) (some y.0) (some z.0)
                  (omega arith) (omega arith))
                (
                  refl,
                  refl,
                  refl,
                  omega arith,
                  (
                    deletion_rank y,
                    s.1.0,
                    e,
                    refl,
                    tt,
                    (rw (← e) s.0.1, s.1.1, (omega arith, s.2.1)),
                  ),
                )
          | inr (inr g) ↦
              rw
                (choose-on_deletion compare k (some x.element_triple) (some y.0) (some z.0)
                  (omega arith) (omega arith))
                (
                  refl,
                  refl,
                  refl,
                  omega arith,
                  (
                    deletion_rank y,
                    s.1.0,
                    tt,
                    refl,
                    tt,
                    ((omega arith, s.0.1), s.1.1, (omega arith, s.2.1)),
                  ),
                )
        ]
        | inr (inl eq) ↦ elim (compare-cases (patch_rank x) (deletion_rank y)) [
          | inl l ↦
              rw
                (choose-on_patch compare k (some x.element_triple) (some y.0) (some z.0)
                  (omega arith) (omega arith))
                (
                  refl,
                  refl,
                  refl,
                  omega arith,
                  (
                    patch_rank x,
                    s.0.0,
                    refl,
                    tt,
                    tt,
                    (s.0.1, (omega arith, s.1.1), (omega arith, s.2.1)),
                  ),
                )
          | inr (inl e) ↦
              rw
                (choose-on_both compare k (some x.element_triple) (some y.0) (some z.0)
                  (omega arith) (omega arith))
                (
                  refl,
                  refl,
                  refl,
                  omega arith,
                  (
                    addition_rank z,
                    s.2.0,
                    omega arith,
                    eq,
                    refl,
                    (rw (← eq, ← e) s.0.1, rw (← eq) s.1.1, s.2.1),
                  ),
                )
          | inr (inr g) ↦
              rw
                (choose-on_equal compare k (some x.element_triple) (some y.0) (some z.0)
                  (omega arith) (omega arith) (omega arith))
                (
                  refl,
                  refl,
                  refl,
                  omega arith,
                  (
                    addition_rank z,
                    s.2.0,
                    tt,
                    eq,
                    refl,
                    ((omega arith, s.0.1), rw (← eq) s.1.1, s.2.1),
                  ),
                )
        ]
        | inr (inr gt) ↦ elim (compare-cases (patch_rank x) (addition_rank z)) [
          | inl l ↦
              rw
                (choose-on_patch compare k (some x.element_triple) (some y.0) (some z.0)
                  (omega arith) (omega arith))
                (
                  refl,
                  refl,
                  refl,
                  omega arith,
                  (
                    patch_rank x,
                    s.0.0,
                    refl,
                    tt,
                    tt,
                    (s.0.1, (omega arith, s.1.1), (omega arith, s.2.1)),
                  ),
                )
          | inr (inl e) ↦
              rw
                (choose-on_patch_addition compare k (some x.element_triple) (some y.0) (some z.0)
                  (omega arith) (omega arith))
                (
                  refl,
                  refl,
                  refl,
                  omega arith,
                  (
                    addition_rank z,
                    s.2.0,
                    e,
                    tt,
                    refl,
                    (rw (← e) s.0.1, (omega arith, s.1.1), s.2.1),
                  ),
                )
          | inr (inr g) ↦
              rw
                (choose-on_addition compare k (some x.element_triple) (some y.0) (some z.0)
                  (omega arith) (omega arith))
                (
                  refl,
                  refl,
                  refl,
                  omega arith,
                  (
                    addition_rank z,
                    s.2.0,
                    tt,
                    tt,
                    refl,
                    ((omega arith, s.0.1), (omega arith, s.1.1), s.2.1),
                  ),
                )
        ]
      ]

  -- What the rounds take, from some rank on.
  abbrev pub TakeApart : ℕ → Sources → List Visit → Type 0
  TakeApart low s vs =
      (taken (λ v. v.patch) vs ≡ s.patch)
      × (taken (λ v. v.deletion) vs ≡ s.deletions)
      × (taken (λ v. v.addition) vs ≡ s.additions)
      × Ascends low vs

  drain-step :
      (low fuel : ℕ) (s : Sources) (o : Option (Visit × Sources))
      → Stepped low s o
      → size s < suc fuel
      → ((r : ℕ) (s' : Sources)
          → 0 < r
          → AreSorted r s'
          → size s' < fuel
          → (vs : List Visit) × (drain (next_visit compare) fuel s' ≡ some vs) × TakeApart r s' vs)
      → (vs : List Visit) × (and_then (drain (next_visit compare) fuel) o ≡ some vs)
        × TakeApart low s vs
  unfolding Stepped
  drain-step low fuel s none (p, d, a) h ih = ([], refl, (sym p, sym d, sym a, tt))
  drain-step low fuel s (some (v, s')) (p, d, a, smaller, (r, le, rp, rd, ra, sorted)) h ih =
      let (vs, run, (p', d', a', asc)) = ih (r + 1) s' (omega arith) sorted (omega arith) in
      (
        v ∷ vs,
        rw run refl,
        (
          ap (with_taken v.patch) p' ∙ sym p,
          ap (with_taken v.deletion) d' ∙ sym d,
          ap (with_taken v.addition) a' ∙ sym a,
          (r, le, rp, rd, ra, asc),
        ),
      )

  drain-TakeApart :
      (low fuel : ℕ) (s : Sources)
      → 0 < low
      → AreSorted low s
      → size s < fuel
      → (vs : List Visit) × (drain (next_visit compare) fuel s ≡ some vs) × TakeApart low s vs
  unfolding drain from
  drain-TakeApart low zero s q h k = absurd (omega arith)
  drain-TakeApart low (suc fuel) s q h k =
      drain-step low fuel s (next_visit compare s)
        (next-Stepped low s.patch s.deletions s.additions s.last q h) k
        (λ r s' q' h' k'. drain-TakeApart r fuel s' q' h' k')

  -- For a patch and two trees of keys that are sorted by the order of the comparator, the loop ends after at
  -- most one round for each of their elements. The rounds take all elements of the patch, all deletions
  -- and all additions, each in their order; the elements of one round have equal triples, and the
  -- triples of the rounds ascend strictly.
  pub next_visit-TakeApart :
      (s : Sources)
      → AreSorted 1 s
      → (vs : List Visit) × (drain (next_visit compare) (suc (size s)) s ≡ some vs)
        × TakeApart 1 s vs
  next_visit-TakeApart s h = drain-TakeApart 1 (suc (size s)) s (omega arith) h (omega arith)
