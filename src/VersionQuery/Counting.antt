-- ===== src/VersionQuery/Counting.antt =====
-- The deletions before a position in the triples of a snapshot, and what that says of the rest.
use ostrich.Base.{
  ℕ, zero, suc, ◌+◌, ◌≡◌, ◌<◌, ◌≤◌, refl, sym, ap, ◌∙◌, Bool, true, false, not, Option, some, List,
  [], ◌∷◌, map,
}
use mathlib.Core.Path.{subst}
use ostrich.Base.{arith, length, drop, ltb, if◌then◌else◌, Bool-cases, inl, inr, ◌⊎◌}
use ostrich.Base.Int.{ℤ, pos}
use ostrich.Comparator.Keys.{KeyRanks}
use ostrich.Triple.{Triple}
use ostrich.Delta.{is_negative}
use ostrich.Delta.Merge.{Sorted, Sorted-weaken}
use ostrich.PatchTree.Visits.{Deletion}
use ostrich.PatchTreeIterator.Filtered.{filter}
use ostrich.PatchTree.Queries.{jump}
use ostrich.VersionQuery.Deleted.{rank}
use ostrich.VersionQuery.Emitted.{null_triple}

abbrev pub deletion_key : Deletion → Triple
deletion_key d = d.0

abbrev pub last_key : List Deletion → Triple
last_key [] = null_triple
last_key (d ∷ []) = d.0
last_key (d ∷ e ∷ l) = last_key (e ∷ l)

pub filter-Sorted :
    {A : Type 0} (rank : A → ℕ) (p : A → Bool) (low : ℕ) (l : List A)
    → Sorted rank low l
    → Sorted rank low (filter p l)
filter-Sorted rank p low [] s = tt
filter-Sorted rank p low (a ∷ l) s = elim (Bool-cases (p a)) [
  | inl yes' ↦ rw yes' (s.0, filter-Sorted rank p (rank a + 1) l s.1)
  | inr no' ↦
      rw no' (filter-Sorted rank p low l (Sorted-weaken rank low (rank a + 1) l (omega arith) s.1))
]

module _ (gone : Triple → Bool) where
  -- The triples among the first `j` that are gone.
  abbrev pub gone_before : ℕ → List Triple → ℕ
  gone_before zero l = 0
  gone_before (suc j) [] = 0
  gone_before (suc j) (t ∷ l) = (if gone t then 1 else 0) + gone_before j l

  abbrev pub stays : Triple → Bool
  stays t = not (gone t)

  pub gone_before-le : (j : ℕ) (l : List Triple) → gone_before j l ≤ j
  gone_before-le zero l = omega arith
  gone_before-le (suc j) [] = omega arith
  gone_before-le (suc j) (t ∷ l) = ground (arith, gone_before-le j l)

  pub gone_before_mono : (i j : ℕ) (l : List Triple) → i ≤ j → gone_before i l ≤ gone_before j l
  gone_before_mono zero j l h = omega arith
  gone_before_mono (suc i) zero l h = absurd (omega arith)
  gone_before_mono (suc i) (suc j) [] h = omega arith
  gone_before_mono (suc i) (suc j) (t ∷ l) h = omega (arith, gone_before_mono i j l (omega arith))

  pub gone_before-all : (j : ℕ) (l : List Triple) → gone_before j l ≤ length (filter gone l)
  gone_before-all zero l = omega arith
  gone_before-all (suc j) [] = omega arith
  gone_before-all (suc j) (t ∷ l) = ground (arith, gone_before-all j l)

  pub length-parts : (l : List Triple) → length (filter stays l) + length (filter gone l) ≡ length l
  length-parts [] = omega arith
  length-parts (t ∷ l) = ground (arith, length-parts l)

  -- Behind a position, the triples that stay are those behind as many that stay.
  pub filter-drop :
      (j m : ℕ) (l : List Triple)
      → m + gone_before j l ≡ j
      → filter stays (drop j l) ≡ drop m (filter stays l)
  filter-drop zero zero l h = refl
  filter-drop zero (suc m) l h = absurd (omega arith)
  filter-drop (suc j) zero [] h = refl
  filter-drop (suc j) (suc m) [] h = refl
  filter-drop (suc j) m (t ∷ l) h = elim (Bool-cases (gone t)) [
    | inl g ↦ rw g (filter-drop j m l (ground arith))
    | inr s ↦ rw s (
        skip_kept (λ k e. filter-drop j k l e) m
          (subst (λ b. m + ((if b then 1 else 0) + gone_before j l) ≡ suc j) s h))
  ]
    where
      skip_kept :
          ((k : ℕ) → k + gone_before j l ≡ j → filter stays (drop j l) ≡ drop k (filter stays l))
          → (m : ℕ) → m + (0 + gone_before j l) ≡ suc j
          → filter stays (drop j l) ≡ drop m (t ∷ filter stays l)
      skip_kept ih zero e = absurd (omega (arith, gone_before-le j l))
      skip_kept ih (suc m) e = ih m (omega arith)

-- `base` more than the deletions before the one that is found; or all deletions, if none is found.
abbrev pub Located : (Deletion → Option ℤ) → ℕ → ℕ → ℕ → List Deletion → Type 0
Located position base count total [] = total ≡ count
Located position base count total (d ∷ l) = position d ≡ some (pos (base + count))

abbrev pub Numbered : (Deletion → Option ℤ) → ℕ → List Deletion → Type 0
Numbered position base [] = Unit
Numbered position base (d ∷ l) = (position d ≡ some (pos base)) × Numbered position (base + 1) l

module _ (compare : Triple → Triple → ℤ) (o : KeyRanks compare) (gone : Triple → Bool)
    (position : Deletion → Option ℤ) where
  abbrev pub triple_rank : Triple → ℕ
  triple_rank t = o.rank t

  shift :
      (base count total : ℕ) (l : List Deletion)
      → Located position (base + 1) count total l
      → Located position base (1 + count) (1 + total) l
  shift base count total [] e = omega arith
  shift base count total (d ∷ l) e = e ∙ ap (λ (n : ℕ). some (pos n)) (omega arith)

  same_head : {A : Type 0} {a b : A} {l m : List A} → (a ∷ l) ≡ (b ∷ m) → (a ≡ b) × (l ≡ m)
  same_head e = (cc, cc)

  pub drop-above :
      (j low : ℕ) (l : List Triple) (x : Triple) (rest : List Triple)
      → Sorted triple_rank low l
      → drop j l ≡ x ∷ rest
      → low ≤ triple_rank x
  drop-above zero low [] x rest s e = absurd (none_left e)
    where
      none_left : [] ≡ x ∷ rest → ⊥
      none_left e = cc
  drop-above zero low (t ∷ l) x rest s e = rw (sym (same_head e).0) s.0
  drop-above (suc j) low [] x rest s e = absurd (none_left e)
    where
      none_left : [] ≡ x ∷ rest → ⊥
      none_left e = cc
  drop-above (suc j) low (t ∷ l) x rest s e =
      omega (arith, drop-above j (triple_rank t + 1) l x rest s.1 e)

  -- A jump does not move where all keys are high enough.
  jump-first :
      (x : Triple) (l : List Deletion) (m : List Triple)
      → map deletion_key l ≡ m
      → 0 < triple_rank x
      → Sorted triple_rank (triple_rank x) m
      → jump compare x l ≡ l
  unfolding jump
  jump-first x [] m e q s = refl
  jump-first x (d ∷ l) [] e q s = cc
  jump-first x (d ∷ l) (t ∷ m) e q s = rw (o.negative_law d.0 x key q, not_below) refl
    where
      key : 0 < o.rank d.0
      key = rw (same_head e).0 (omega arith)

      not_below : ltb (o.rank d.0) (o.rank x) ≡ false
      not_below = rw (same_head e).0 (ground arith)

  first_located :
      (base : ℕ) (d : List Deletion)
      → Numbered position base d
      → Located position base 0 (length d) d
  first_located base [] n = omega arith
  first_located base (d ∷ l) n = n.0 ∙ ap (λ (k : ℕ). some (pos k)) (omega arith)

  gone_head :
      (base j : ℕ) (t x : Triple) (d : List Deletion) (m : List Triple)
      → map deletion_key d ≡ t ∷ m
      → 0 < triple_rank t
      → triple_rank t < triple_rank x
      → Numbered position base d
      → ((d' : List Deletion)
          → map deletion_key d' ≡ m
          → Numbered position (base + 1) d'
          → Located position (base + 1) j (length d') (jump compare x d'))
      → Located position base (1 + j) (length d) (jump compare x d)
  unfolding jump
  gone_head base j t x [] m e q lt n ih = cc
  gone_head base j t x (d ∷ l) m e q lt n ih =
      rw (o.negative_law d.0 x key (omega arith), below)
        (subst (λ (k : ℕ). Located position base (1 + j) k (jump compare x l)) (omega arith)
          (shift base j (length l) (jump compare x l) (ih l (same_head e).1 n.1)))
    where
      key : 0 < o.rank d.0
      key = rw (same_head e).0 q

      below : ltb (o.rank d.0) (o.rank x) ≡ true
      below = rw (same_head e).0 (ground arith)

  -- Where the deletions are the triples of the snapshot that are gone, the first one that is not before
  -- the triple at position `j` has as its position the number of those before that.
  pub jump-Located :
      (j base low : ℕ) (l : List Triple) (d : List Deletion) (x : Triple) (rest : List Triple)
      → 0 < low
      → Sorted triple_rank low l
      → drop j l ≡ x ∷ rest
      → map deletion_key d ≡ filter gone l
      → Numbered position base d
      → Located position base (gone_before gone j l) (length d) (jump compare x d)
  jump-Located zero base low l d x rest q s e keys n =
      subst (Located position base 0 (length d))
        (sym (
          jump-first x d (filter gone (x ∷ rest)) keys' (omega (arith, s'.0))
            (filter-Sorted triple_rank gone (triple_rank x) (x ∷ rest) (omega arith, s'.1))))
        (first_located base d n)
    where
      s' : Sorted triple_rank low (x ∷ rest)
      s' = subst (Sorted triple_rank low) e s

      keys' : map deletion_key d ≡ filter gone (x ∷ rest)
      keys' = subst (λ k. map deletion_key d ≡ filter gone k) e keys
  jump-Located (suc j) base low [] d x rest q s e keys n = absurd (none_left e)
    where
      none_left : [] ≡ x ∷ rest → ⊥
      none_left e = cc
  jump-Located (suc j) base low (t ∷ l) d x rest q s e keys n = elim (Bool-cases (gone t)) [
    | inl g ↦ rw g (
        gone_head base (gone_before gone j l) t x d (filter gone l)
          (subst (λ b. map deletion_key d ≡ (if b then t ∷ filter gone l else filter gone l)) g
            keys)
          (omega arith) (omega (arith, drop-above j (triple_rank t + 1) l x rest s.1 e)) n
          (λ d' keys' n'.
            jump-Located j (base + 1) (triple_rank t + 1) l d' x rest (omega arith) s.1 e keys' n'))
    | inr k ↦ rw k (
        subst (λ (c : ℕ). Located position base c (length d) (jump compare x d)) (omega arith)
          (jump-Located j base (triple_rank t + 1) l d x rest (omega arith) s.1 e
            (subst (λ b. map deletion_key d ≡ (if b then t ∷ filter gone l else filter gone l)) k
              keys)
            n))
  ]

  -- Where the jump passes over all deletions, the last one lies before.
  pub last-before :
      (x : Triple) (low : ℕ) (d : List Deletion)
      → 0 < triple_rank x
      → 0 < low
      → Sorted (rank compare o) low d
      → jump compare x d ≡ []
      → (d ≡ []) ⊎ (is_negative (compare x (last_key d)) ≡ false)
  unfolding jump
  last-before x low [] u q s e = inl refl
  last-before x low (d ∷ []) u q s e =
      inr
        (ground (arith, o.negative_law d.0 x (omega arith) u, o.negative_law x d.0 u (omega arith)))
  last-before x low (d ∷ d' ∷ l) u q s e = inr (
      later (
        last-before x (rank compare o d + 1) (d' ∷ l) u (omega arith) s.1
          (passed (Bool-cases (is_negative (compare d.0 x))))))
    where
      passed :
          ((is_negative (compare d.0 x) ≡ true) ⊎ (is_negative (compare d.0 x) ≡ false))
          → jump compare x (d' ∷ l) ≡ []
      passed (inl b) = subst (λ k. (if k then jump compare x (d' ∷ l) else d ∷ d' ∷ l) ≡ []) b e
      passed (inr b) = cc

      later :
          ((d' ∷ l) ≡ []) ⊎ (is_negative (compare x (last_key (d' ∷ l))) ≡ false)
          → is_negative (compare x (last_key (d' ∷ l))) ≡ false
      later (inl n) = cc
      later (inr b) = b
