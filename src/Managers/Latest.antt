-- ===== src/Managers/Latest.antt =====
-- Both look-ups find the largest id that is not above the patch id.
use ostrich.Base.{
  ℕ, ◌+◌, ◌<◌, ◌≤◌, ◌≡◌, refl, sym, List, [], ◌∷◌, All, arith, inl, inr, ◌⊎◌, lt_or_le, lt→ltb,
  not_ltb,
}
use mathlib.Core.Path.{subst}
use ostrich.Base.Int.{ℤ, pos, negsuc}
use ostrich.Ordered.{rewind, lower_bound}
use ostrich.Ordered.Split.{Below, StartsFrom, lower_bound-IsLowerBound}
use ostrich.Managers.{
  walk_back, latest_at, get_latest_snapshot, step_back, tree_at, get_patch_tree_id,
}

weaker : {A : Type 0} (P Q : A → Type 0) (l : List A) → ((a : A) → P a → Q a) → All P l → All Q l
weaker P Q [] h p = tt
weaker P Q (a ∷ l) h p = (h a p.0, weaker P Q l h p.1)

module _ {V : Type 0} where
  -- The keys of a map ascend.
  abbrev pub Ascending : ℕ → List (ℕ × V) → Type 0
  Ascending low [] = Unit
  Ascending low (e ∷ m) = (low ≤ e.0) × Ascending (e.0 + 1) m

  abbrev pub HasKey : ℕ → List (ℕ × V) → Type 0
  HasKey k [] = ⊥
  HasKey k (e ∷ m) = (e.0 ≡ k) ⊎ HasKey k m

  -- The largest key that is not above a bound, or -1 if all keys are above it.
  abbrev pub IsLatest : ℕ → List (ℕ × V) → ℤ → Type 0
  IsLatest bound m (pos k) = HasKey k m × (k ≤ bound) × All (λ e. e.0 ≤ bound → e.0 ≤ k) m
  IsLatest bound m (negsuc n) = (n ≡ 0) × All (λ e. bound < e.0) m

  above : (low k : ℕ) (m : List (ℕ × V)) → k < low → Ascending low m → All (λ e. k < e.0) m
  above low k [] h a = tt
  above low k (e ∷ m) h a = (omega arith, above (e.0 + 1) k m (omega arith) a.1)

  -- Every entry before a position is below every entry from it on.
  abbrev pub Separated : List (ℕ × V) → List (ℕ × V) → Type 0
  Separated before after = All (λ x. All (λ y. x.0 < y.0) after) before

  tails :
      (e : ℕ × V) (before after : List (ℕ × V))
      → Separated before (e ∷ after)
      → Separated before after
  tails e [] after s = tt
  tails e (x ∷ before) after s = (s.0.1, tails e before after s.1)

  heads :
      (e : ℕ × V) (before after : List (ℕ × V))
      → Separated before (e ∷ after)
      → All (λ x. x.0 < e.0) before
  heads e [] after s = tt
  heads e (x ∷ before) after s = (s.0.0, heads e before after s.1)

  parts :
      (before after : List (ℕ × V))
      → Ascending 0 (rewind before after)
      → Separated before after × ((low : ℕ) × Ascending low after)
  parts [] after a = (tt, (0, a))
  parts (e ∷ before) after a =
      let (s, (low, b)) = parts before (e ∷ after) a in
      ((above (e.0 + 1) e.0 after (omega arith) b.1, tails e before after s), (e.0 + 1, b.1))

  All-rewind :
      (P : ℕ × V → Type 0) (before after : List (ℕ × V))
      → All P before
      → All P after
      → All P (rewind before after)
  All-rewind P [] after b a = a
  All-rewind P (e ∷ before) after b a = All-rewind P before (e ∷ after) b.1 (b.0, a)

  HasKey-rewind :
      (k : ℕ) (before after : List (ℕ × V)) → HasKey k after → HasKey k (rewind before after)
  HasKey-rewind k [] after h = h
  HasKey-rewind k (e ∷ before) after h = HasKey-rewind k before (e ∷ after) (inr h)

  -- The entry before the position, where the entries from it on are above the bound.
  step_back-IsLatest :
      (bound : ℕ) (before after : List (ℕ × V))
      → Ascending 0 (rewind before after)
      → Below bound before
      → All (λ e. bound < e.0) after
      → IsLatest bound (rewind before after) (step_back before)
  unfolding step_back
  step_back-IsLatest bound [] after a b h = (refl, h)
  step_back-IsLatest bound (e ∷ before) after a b h =
      let (s, rest) = parts before (e ∷ after) a in
      (
        HasKey-rewind e.0 before (e ∷ after) (inl refl),
        omega arith,
        All-rewind _ before (e ∷ after)
            (weaker (λ x. x.0 < e.0) _ before (λ x p q. omega arith) (heads e before after s))
            (λ q. omega arith, weaker (λ x. bound < x.0) _ after (λ x p q. absurd (omega arith)) h),
      )

  tree_at-IsLatest :
      (bound : ℕ) (before after : List (ℕ × V))
      → Ascending 0 (rewind before after)
      → Below bound before
      → StartsFrom bound after
      → IsLatest bound (rewind before after) (tree_at bound before after)
  unfolding tree_at
  tree_at-IsLatest bound before [] a b h = step_back-IsLatest bound before [] a b tt
  tree_at-IsLatest bound before (e ∷ after) a b h = elim (lt_or_le bound e.0) [
    | inl lt ↦
        let (s, (low, asc)) = parts before (e ∷ after) a in
        rw (lt→ltb bound e.0 lt) (
          step_back-IsLatest bound before (e ∷ after) a b
            (lt, above (e.0 + 1) bound after (omega arith) asc.1))
    | inr le ↦ rw (not_ltb bound e.0 le) (
      HasKey-rewind e.0 before (e ∷ after) (inl refl),
      le,
      All-rewind _ before (e ∷ after) (weaker (λ x. x.0 < bound) _ before (λ x p q. omega arith) b)
          (λ q. omega arith, whatever after (omega arith)),
    )
  ]
    where
      whatever : (l : List (ℕ × V)) → bound ≤ e.0 → All (λ x. x.0 ≤ bound → x.0 ≤ e.0) l
      whatever [] h = tt
      whatever (x ∷ l) h = (λ q. omega arith, whatever l h)

  walk_back-here :
      (bound k : ℕ) (before : List (ℕ × V)) → k ≤ bound → walk_back bound k before ≡ pos k
  unfolding walk_back
  walk_back-here bound k [] h = ground arith
  walk_back-here bound k (e ∷ before) h = ground arith

  walk_back-above :
      (bound k : ℕ) (before : List (ℕ × V))
      → Below bound before
      → bound < k
      → walk_back bound k before ≡ step_back before
  unfolding walk_back step_back
  walk_back-above bound k [] b h = ground arith
  walk_back-above bound k (e ∷ before) b h =
      ground (arith, walk_back-here bound e.0 before (omega arith))

  latest_at-tree_at :
      (bound : ℕ) (before after : List (ℕ × V))
      → Below bound before
      → latest_at bound before after ≡ tree_at bound before after
  unfolding latest_at tree_at step_back
  latest_at-tree_at bound [] [] b = refl
  latest_at-tree_at bound (e ∷ before) [] b = walk_back-here bound e.0 before (omega arith)
  latest_at-tree_at bound [] (e ∷ after) b = elim (lt_or_le bound e.0) [
    | inl lt ↦ rw (lt→ltb bound e.0 lt) (walk_back-above bound e.0 [] b lt)
    | inr le ↦ rw (not_ltb bound e.0 le) (walk_back-here bound e.0 [] le)
  ]
  latest_at-tree_at bound (d ∷ before) (e ∷ after) b = elim (lt_or_le bound e.0) [
    | inl lt ↦ rw (lt→ltb bound e.0 lt) (walk_back-above bound e.0 (d ∷ before) b lt)
    | inr le ↦ rw (not_ltb bound e.0 le) (walk_back-here bound e.0 (d ∷ before) le)
  ]

  get_patch_tree_id-IsLatest :
      (bound : ℕ) (m : List (ℕ × V)) → Ascending 0 m → IsLatest bound m (get_patch_tree_id bound m)
  unfolding get_patch_tree_id
  get_patch_tree_id-IsLatest bound m a =
      let at = lower_bound-IsLowerBound bound m in
      subst (λ k. IsLatest bound k (get_patch_tree_id bound m)) at.whole
        (tree_at-IsLatest bound (lower_bound bound m).before (lower_bound bound m).after
          (subst (Ascending 0) (sym at.whole) a) at.lower at.upper)

  -- For a map with ascending keys get_latest_snapshot and get_patch_tree_id agree, and give the largest
  -- key that is not above the patch id, or -1 if all keys are above it.
  pub look_ups-IsLatest :
      (patch_id : ℕ) (m : List (ℕ × V))
      → Ascending 0 m
      → IsLatest patch_id m (get_latest_snapshot patch_id m)
        × (get_latest_snapshot patch_id m ≡ get_patch_tree_id patch_id m)
  unfolding get_latest_snapshot get_patch_tree_id
  look_ups-IsLatest patch_id m a =
      let same =
        latest_at-tree_at patch_id (lower_bound patch_id m).before (lower_bound patch_id m).after
          (lower_bound-IsLowerBound patch_id m).lower in
      (subst (IsLatest patch_id m) (sym same) (get_patch_tree_id-IsLatest patch_id m a), same)
