-- ===== src/Delta/Merge.antt =====
-- Merging two sources in the order of a rank, as a relation, and what its result holds.
use ostrich.Base.{ℕ, ◌+◌, ◌≡◌, ◌<◌, ◌≤◌, refl, Option, none, some, List, [], ◌∷◌}
use ostrich.Base.{arith, ◌==◌, if◌then◌else◌}

-- Two sources with elements of the types `A` and `B`, and what becomes of an element that only the
-- first has, that only the second has, and of two elements with the same rank.
pub record Merging (A B C : Type 0) : Type 0 where
  pub rank1 : A → ℕ
  pub rank2 : B → ℕ
  pub rank : C → ℕ
  pub only1 : A → C
  pub only2 : B → C
  pub both : A → B → Option C
  pub rank-only1 : (a : A) → rank (only1 a) ≡ rank1 a
  pub rank-only2 : (b : B) → rank (only2 b) ≡ rank2 b
  pub rank-both : (a : A) (b : B) (c : C) → both a b ≡ some c → rank c ≡ rank2 b

-- The ranks ascend.
abbrev pub Sorted : {A : Type 0} → (A → ℕ) → ℕ → List A → Type 0
Sorted rank low [] = Unit
Sorted rank low (a ∷ l) = (low ≤ rank a) × Sorted rank (rank a + 1) l

-- The element with a rank.
abbrev pub at_rank : {A : Type 0} → (A → ℕ) → ℕ → List A → Option A
at_rank rank r [] = none
at_rank rank r (a ∷ l) = if rank a == r then some a else at_rank rank r l

pub at_rank-below :
    {A : Type 0} (rank : A → ℕ) (r low : ℕ) (l : List A)
    → Sorted rank low l
    → r < low
    → at_rank rank r l ≡ none
at_rank-below rank r low [] s h = refl
at_rank-below rank r low (a ∷ l) s h = ground (arith, at_rank-below rank r (rank a + 1) l s.1)

pub Sorted-weaken :
    {A : Type 0} (rank : A → ℕ) (low high : ℕ) (l : List A)
    → low ≤ high
    → Sorted rank high l
    → Sorted rank low l
Sorted-weaken rank low high [] h s = tt
Sorted-weaken rank low high (a ∷ l) h s = (omega arith, s.1)

module _ {A B C : Type 0} (m : Merging A B C) where
  abbrev pub combine : Option A → Option B → Option C
  combine none none = none
  combine (some a) none = some (m.only1 a)
  combine none (some b) = some (m.only2 b)
  combine (some a) (some b) = m.both a b

  pub data Merges : List A → List B → List C → Type 0 where
    finished : Merges [] [] []
    rest1 :
        {a : A} {l1 : List A} {out : List C}
        → Merges l1 [] out
        → Merges (a ∷ l1) [] (m.only1 a ∷ out)
    rest2 :
        {b : B} {l2 : List B} {out : List C}
        → Merges [] l2 out
        → Merges [] (b ∷ l2) (m.only2 b ∷ out)
    first1 :
        {a : A} {b : B} {l1 : List A} {l2 : List B} {out : List C}
        → m.rank1 a < m.rank2 b
        → Merges l1 (b ∷ l2) out
        → Merges (a ∷ l1) (b ∷ l2) (m.only1 a ∷ out)
    first2 :
        {a : A} {b : B} {l1 : List A} {l2 : List B} {out : List C}
        → m.rank2 b < m.rank1 a
        → Merges (a ∷ l1) l2 out
        → Merges (a ∷ l1) (b ∷ l2) (m.only2 b ∷ out)
    dropped :
        {a : A} {b : B} {l1 : List A} {l2 : List B} {out : List C}
        → m.rank1 a ≡ m.rank2 b
        → m.both a b ≡ none
        → Merges l1 l2 out
        → Merges (a ∷ l1) (b ∷ l2) out
    joined :
        {a : A} {b : B} {c : C} {l1 : List A} {l2 : List B} {out : List C}
        → m.rank1 a ≡ m.rank2 b
        → m.both a b ≡ some c
        → Merges l1 l2 out
        → Merges (a ∷ l1) (b ∷ l2) (c ∷ out)

  -- The result is sorted, and at each rank it holds what the two sources make of it.
  abbrev pub IsMerge : ℕ → List A → List B → List C → Type 0
  IsMerge low l1 l2 out =
      Sorted m.rank low out
      × ((r : ℕ) → at_rank m.rank r out ≡ combine (at_rank m.rank1 r l1) (at_rank m.rank2 r l2))

  pub Merges-IsMerge :
      {l1 : List A} {l2 : List B} {out : List C} (low : ℕ)
      → Merges l1 l2 out
      → Sorted m.rank1 low l1
      → Sorted m.rank2 low l2
      → IsMerge low l1 l2 out
  Merges-IsMerge low finished s1 s2 = (tt, λ r. refl)
  Merges-IsMerge low (rest1 {a} {l1} g) s1 s2 =
      let (s, e) = Merges-IsMerge (m.rank1 a + 1) g s1.1 tt in
      (rw (m.rank-only1 a) (s1.0, s), λ r. rw (m.rank-only1 a) (ground (arith, e r)))
  Merges-IsMerge low (rest2 {b} {l2} g) s1 s2 =
      let (s, e) = Merges-IsMerge (m.rank2 b + 1) g tt s2.1 in
      (rw (m.rank-only2 b) (s2.0, s), λ r. rw (m.rank-only2 b) (ground (arith, e r)))
  Merges-IsMerge low (first1 {a} {b} {l1} {l2} lt g) s1 s2 =
      let (s, e) = Merges-IsMerge (m.rank1 a + 1) g s1.1 (omega arith, s2.1) in
      (
        rw (m.rank-only1 a) (s1.0, s),
        λ r.
            rw (m.rank-only1 a)
              (ground (arith, e r, at_rank-below m.rank2 r (m.rank2 b + 1) l2 s2.1)),
      )
  Merges-IsMerge low (first2 {a} {b} {l1} {l2} lt g) s1 s2 =
      let (s, e) = Merges-IsMerge (m.rank2 b + 1) g (omega arith, s1.1) s2.1 in
      (
        rw (m.rank-only2 b) (s2.0, s),
        λ r.
            rw (m.rank-only2 b)
              (ground (arith, e r, at_rank-below m.rank1 r (m.rank1 a + 1) l1 s1.1)),
      )
  Merges-IsMerge low (dropped {a} {b} {l1} {l2} eq n g) s1 s2 =
      let (s, e) = Merges-IsMerge (m.rank1 a + 1) g s1.1 (rw eq s2.1) in
      (
        Sorted-weaken m.rank low (m.rank1 a + 1) _ (omega arith) s,
        λ r. ground (
          arith,
          e r,
          n,
          eq,
          at_rank-below m.rank1 r (m.rank1 a + 1) l1 s1.1,
          at_rank-below m.rank2 r (m.rank2 b + 1) l2 s2.1,
        ),
      )
  Merges-IsMerge low (joined {a} {b} {c} {l1} {l2} eq n g) s1 s2 =
      let same = m.rank-both a b c n in
      let (s, e) = Merges-IsMerge (m.rank2 b + 1) g (rw (← eq) s1.1) s2.1 in
      (rw same (s2.0, s), λ r. rw (same, eq) (ground (arith, e r, n)))
