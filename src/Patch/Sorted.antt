-- ===== src/Patch/Sorted.antt =====
-- `PatchSorted::add` keeps the elements sorted, and what it changes.
use ostrich.Base.{ℕ, ◌+◌, ◌≡◌, ◌<◌, ◌≤◌, ◌∙◌, Bool, true, false, Option, none, some, List, [], ◌∷◌}
use ostrich.Base.{arith, ◌==◌, ltb, if◌then◌else◌, inl, inr, compare-cases}
use ostrich.Base.Int.{ℤ}
use ostrich.Triple.{Triple, PatchElement, equals, triple}
use ostrich.Delta.Merge.{Sorted, at_rank, at_rank-below}
use ostrich.Comparator.Keys.{KeyRanks}
use ostrich.Patch.{add, put, is_less, overwritten}

equal_triples : (a b c d e f : ℕ) → a ≡ d → b ≡ e → c ≡ f → triple a b c ≡ triple d e f
equal_triples a b c d e f p q r = λ i. triple (p i) (q i) (r i)

pub equals-equal : (a b : Triple) → equals a b ≡ true → a ≡ b
unfolding equals
equals-equal a b h =
    equal_triples a.subject a.predicate a.object b.subject b.predicate b.object (ground arith)
      (ground arith) (ground arith)

-- The element that replaces what is there.
abbrev pub over : Option PatchElement → PatchElement → PatchElement
over none e = e
over (some x) e = overwritten x e

module _ (compare : Triple → Triple → ℤ) (k : KeyRanks compare) where
  abbrev pub element_rank : PatchElement → ℕ
  element_rank e = k.rank e.element_triple

  overwritten-rank : (x e : PatchElement) → element_rank (overwritten x e) ≡ element_rank e
  unfolding overwritten
  overwritten-rank x e = ground arith

  pub equals-rank :
      (x e : PatchElement)
      → 0 < element_rank x
      → 0 < element_rank e
      → equals x.element_triple e.element_triple ≡ (element_rank x == element_rank e)
  equals-rank x e = k.equals_law x.element_triple e.element_triple

  pub is_less-rank :
      (x e : PatchElement)
      → 0 < element_rank x
      → 0 < element_rank e
      → is_less compare x e ≡ ltb (element_rank x) (element_rank e)
  unfolding is_less
  is_less-rank x e = k.negative_law x.element_triple e.element_triple

  Tested : Bool → Bool → PatchElement → PatchElement → Type 0
  Tested less same x e =
      (is_less compare x e ≡ less) × (equals x.element_triple e.element_triple ≡ same)

  below :
      (x e : PatchElement)
      → 0 < element_rank x
      → element_rank x < element_rank e
      → Tested true false x e
  unfolding Tested
  below x e p h = (
    is_less-rank x e p (omega arith) ∙ ground arith,
    equals-rank x e p (omega arith) ∙ ground arith,
  )

  level :
      (x e : PatchElement)
      → 0 < element_rank x
      → element_rank x ≡ element_rank e
      → Tested false true x e
  unfolding Tested
  level x e p h = (
    is_less-rank x e p (omega arith) ∙ ground arith,
    equals-rank x e p (omega arith) ∙ ground arith,
  )

  above :
      (x e : PatchElement)
      → 0 < element_rank e
      → element_rank e < element_rank x
      → Tested false false x e
  unfolding Tested
  above x e p h = (
    is_less-rank x e (omega arith) p ∙ ground arith,
    equals-rank x e (omega arith) p ∙ ground arith,
  )

  -- For a patch in the order of the comparator, whose triples and that of `e` are keys: the patch stays
  -- sorted; its element with the triple of `e` becomes `e`, with the flag of the local
  -- change turned round from what was there if that was a change of the other kind; and all other
  -- elements stay.
  pub add-Sorted :
      (low : ℕ) (e : PatchElement) (l : List PatchElement)
      → 0 < low
      → low ≤ element_rank e
      → Sorted element_rank low l
      → Sorted element_rank low (add compare e l)
        × ((r : ℕ)
            → at_rank element_rank r (add compare e l) ≡ (
                if element_rank e == r
                then some (over (at_rank element_rank r l) e)
                else at_rank element_rank r l))
  unfolding add put Tested
  add-Sorted low e [] p h s = ((h, tt), λ r. ground arith)
  add-Sorted low e (x ∷ l) p h s = elim (compare-cases (element_rank x) (element_rank e)) [
    | inl lt ↦
        let (less, same) = below x e (omega arith) lt in
        let (s', look) = add-Sorted (element_rank x + 1) e l (omega arith) (omega arith) s.1 in
        rw less ((s.0, s'), λ r. ground (arith, look r))
    | inr (inl eq) ↦
        let (less, same) = level x e (omega arith) eq in
        rw (less, same)
          (
            (rw (overwritten-rank x e) h, rw (overwritten-rank x e, ← eq) s.1),
            λ r. rw (overwritten-rank x e) (ground arith),
          )
    | inr (inr gt) ↦
        let (less, same) = above x e (omega arith) gt in
        rw (less, same)
          (
            (h, (omega arith, s.1)),
            λ r. ground (arith, at_rank-below element_rank r (element_rank x + 1) l s.1),
          )
  ]
