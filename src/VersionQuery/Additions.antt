-- ===== src/VersionQuery/Additions.antt =====
-- The addition iterator of a patch behind an offset: the additions that pass its filters, less as many as
-- the offset says, also where the stored count lets it go to the end at once.
use ostrich.Base.{
  ℕ, zero, suc, ◌≡◌, ◌<◌, ◌≤◌, refl, sym, ap, ◌∙◌, Bool, true, false, ◌&&◌, Option, none, some,
  List, [], ◌∷◌,
}
use ostrich.Base.{arith, length, All, drop, ltb, if◌then◌else◌, Bool-cases, inl, inr, ◌⊎◌}
use ostrich.Base.Int.{ℤ, pos, negsuc, pos_part, leb_ℤ}
use ostrich.Triple.{Triple, ComponentOrder, get_query_order}
use ostrich.PatchTree.Visits.{Addition}
use ostrich.PatchTreeIterator.{
  Filters, Found, is_filtered_out, next_addition, set_patch_filter, set_triple_pattern_filter,
  set_filter_local_changes,
}
use ostrich.PatchTreeIterator.Filtered.{
  filter, passes, Answers, MatchesFirst, Next, next_addition-Next, collect, collect-counted,
}
use ostrich.PatchTree.Queries.{
  Trees, no_filters, jump, last_record, skip_additions, addition_iterator_from,
}
use ostrich.VersionQuery.Cursor.{All-jump}

abbrev pub addition_filters : ℕ → Triple → Filters
addition_filters patch_id pattern =
    set_filter_local_changes true
      (set_triple_pattern_filter pattern (set_patch_filter patch_id true no_filters))

module _ (compare : ComponentOrder → Triple → Triple → ℤ) (trees : Trees) (f : Filters)
    (valid : Addition → Bool) where
  -- What an iterator over `l` still gives.
  abbrev pub Gives : List Addition → List Addition → Type 0
  Gives l found =
      All (Answers f valid) l
      × (f.can_early_break ≡ true → MatchesFirst f l)
      × (filter (passes f valid) l ≡ found)

  -- Skipping ends with an iterator whose results are the ones behind.
  abbrev pub Skips : ℕ → List Addition → Option (List Addition) → Type 0
  Skips n found r =
      (l' : List Addition) × (r ≡ some l')
      × ((fuel : ℕ) → length l' < fuel → collect fuel f l' ≡ some (drop n found))

  -- The results of an iterator, as Filtered has them.
  Gives-collected :
      (l found : List Addition)
      → Gives l found
      → (fuel : ℕ) → length l < fuel
      → collect fuel f l ≡ some found
  Gives-collected l found g fuel h = collect-counted f valid fuel l g.0 g.1 h ∙ ap some g.2

  drop-nil : (n : ℕ) → drop {A = Addition} n [] ≡ []
  drop-nil zero = refl
  drop-nil (suc n) = refl

  skip_read :
      (n : ℕ) (l found : List Addition) (r : Found Addition)
      → Gives l found
      → next_addition f l ≡ some r
      → Next f valid l r
      → ((l' found' : List Addition)
          → Gives l' found'
          → Skips n found' (skip_additions compare trees n f l'))
      → Skips (suc n) found (skip_additions compare trees (suc n) f l)
  unfolding skip_additions
  skip_read n l found (none, l') g run e ih = (
    l',
    rw run refl,
    λ fuel h.
        Gives-collected l' [] (e.2.0, e.2.1, e.1) fuel h
        ∙ ap some (sym (ap (drop (suc n)) (sym g.2 ∙ e.0))),
  )
  skip_read n l found (some a, l') g run (e, shorter, answers, first) ih =
      let (l'', run', c) = ih l' (filter (passes f valid) l') (answers, first, refl) in
      (l'', rw run run', λ fuel h. c fuel h ∙ ap some (sym (ap (drop (suc n)) (sym g.2 ∙ e))))

  pub skip_additions-drop :
      (n : ℕ) (l found : List Addition)
      → Gives l found
      → Skips n found (skip_additions compare trees n f l)
  unfolding skip_additions
  skip_additions-drop zero l found g = (l, refl, Gives-collected l found g)
  skip_additions-drop (suc n) l found g =
      let (r, run, e) = next_addition-Next f valid l g.0 g.1 in
      skip_read n l found r g run e (skip_additions-drop n)

pub drop-short : {A : Type 0} (n : ℕ) (l : List A) → length l ≤ n → drop n l ≡ []
drop-short zero [] h = refl
drop-short zero (a ∷ l) h = absurd (omega arith)
drop-short (suc n) [] h = refl
drop-short (suc n) (a ∷ l) h = drop-short n l (omega arith)

last_one :
    (f : Filters) (valid : Addition → Bool) (l : List Addition)
    → All (Answers f valid) l
    → All (Answers f valid) (last_record l)
      × MatchesFirst f (last_record l)
      × (length (filter (passes f valid) (last_record l)) ≤ 1)
unfolding last_record
last_one f valid [] h = (tt, tt, omega arith)
last_one f valid (a ∷ []) h =
    ((h.0, tt), alone (is_filtered_out f a.0), at_most_one (passes f valid a))
  where
    alone : (b : Bool) → if b then Unit {0} else Unit {0}
    alone true = tt
    alone false = tt

    at_most_one : (b : Bool) → length (if b then a ∷ [] else []) ≤ 1
    at_most_one true = omega arith
    at_most_one false = omega arith
last_one f valid (a ∷ b ∷ l) h = last_one f valid (b ∷ l) h.1

module _ (compare : ComponentOrder → Triple → Triple → ℤ) (trees : Trees) (patch_id : ℕ)
    (pattern : Triple) (valid : Addition → Bool) where
  abbrev pub tree : List Addition
  tree = trees.additions (get_query_order pattern)

  abbrev pub reached : List Addition
  reached = jump (compare (get_query_order pattern)) pattern tree

  -- The additions of the patch under the pattern, in the order of the index.
  abbrev pub patch_additions : List Addition
  patch_additions = filter (passes (addition_filters patch_id pattern) valid) reached

  pub record HasAdditions : Type 0 where
    pub answers : All (Answers (addition_filters patch_id pattern) valid) tree
    pub matches_first : MatchesFirst (addition_filters patch_id pattern) reached
    -- The stored count is right, or there is none.
    pub counted :
        (trees.addition_counts patch_id pattern ≡ 0)
        ⊎ (trees.addition_counts patch_id pattern ≡ length patch_additions)

  abbrev pub is_beyond : ℤ → Bool
  is_beyond offset =
      ltb 0 (trees.addition_counts patch_id pattern)
      && leb_ℤ (pos (trees.addition_counts patch_id pattern)) offset

  beyond :
      (offset : ℤ)
      → HasAdditions
      → is_beyond offset ≡ true
      → (m : ℕ) × (pos_part offset ≡ suc m) × (length patch_additions ≤ pos_part offset)
  beyond (pos zero) h e = absurd (ground arith)
  beyond (pos (suc n)) h e = (n, refl, at_most (h.counted))
    where
      at_most :
          (trees.addition_counts patch_id pattern ≡ 0)
            ⊎ (trees.addition_counts patch_id pattern ≡ length patch_additions)
          → length patch_additions ≤ suc n
      at_most (inl z) = absurd (ground arith)
      at_most (inr c) = ground arith
  beyond (negsuc n) h e = absurd (ground arith)

  -- Where the iterator starts, and what it gives.
  pub addition_iterator_from-drop :
      (offset : ℤ)
      → HasAdditions
      → (l : List Addition) × (addition_iterator_from compare trees offset patch_id pattern
          ≡ some (record { filters = addition_filters patch_id pattern; cursor = l }))
        × ((fuel : ℕ)
            → length l < fuel
            → collect fuel (addition_filters patch_id pattern) l
              ≡ some (drop (pos_part offset) patch_additions))
  unfolding addition_iterator_from
  addition_iterator_from-drop offset h = elim (Bool-cases (is_beyond offset)) [
    | inl b ↦
        let (m, e, short) = beyond offset h b in
        let (last_answers, last_matches, single) =
          last_one (addition_filters patch_id pattern) valid tree h.answers in
        let (l, run, c) =
          skip_additions-drop compare trees (addition_filters patch_id pattern) valid
            (pos_part offset) (last_record tree) _ (last_answers, λ k. last_matches, refl) in
        (
          l,
          rw (b, run) refl,
          λ fuel s.
              c fuel s
              ∙ ap some (
                  drop-short (pos_part offset) _ (omega (arith, e, single))
                  ∙ sym (drop-short (pos_part offset) patch_additions short)),
        )
    | inr n ↦
        let (l, run, c) =
          skip_additions-drop compare trees (addition_filters patch_id pattern) valid
            (pos_part offset) reached patch_additions
            (
              All-jump _ (compare (get_query_order pattern)) pattern tree h.answers,
              λ k. h.matches_first,
              refl,
            ) in
        (l, rw (n, run) refl, c)
  ]
