-- ===== src/Versions/Joined.antt =====
-- What `add_iterator` makes of the triples that it has and of those of another iterator.
use ostrich.Base.{
  ℕ, zero, suc, ◌+◌, ◌≡◌, ◌<◌, ◌≤◌, refl, ap, ◌∙◌, true, Option, some, List, [], ◌∷◌,
}
use ostrich.Base.{arith, length, Bool-cases, inl, inr}
use ostrich.Base.Int.{ℤ}
use ostrich.Delta.{is_zero, is_negative}
use ostrich.Delta.Rules.{Ranks}
use ostrich.Delta.Merge.{
  Merging, Merges, finished, rest1, rest2, first1, first2, joined, Sorted, IsMerge, Merges-IsMerge,
}
use ostrich.Versions.Combined.{Annotated, rewind, united, skip_less, add_loop, add_iterator}

module _ {T : Type 0} (compare : T → T → ℤ) (k : Ranks compare) where
  abbrev pub item_rank : Annotated T → ℕ
  item_rank a = k.rank a.item

  -- A triple of both is kept once, with the versions of both.
  abbrev pub union : Merging (Annotated T) (Annotated T) (Annotated T)
  union = record {
    rank1 = item_rank;
    rank2 = item_rank;
    rank = item_rank;
    only1 = λ a. a;
    only2 = λ b. b;
    both = λ a b. some (united b a);
    rank-only1 = λ a. refl;
    rank-only2 = λ b. refl;
    rank-both = λ a b c e. unite a b c e;
  }
    where
      unite : (a b c : Annotated T) → some (united b a) ≡ some c → item_rank c ≡ item_rank b
      unite a b c e = ap item_rank {x = c} {y = united b a} (cc)

  rest_as_is : (l : List (Annotated T)) → Merges union [] l l
  rest_as_is [] = finished
  rest_as_is (b ∷ l) = rest2 (rest_as_is l)

  -- The position that a jump finds: what comes of it comes of the first position, too.
  abbrev pub Jumped :
      Annotated T
      → List (Annotated T)
      → List (Annotated T)
      → List (Annotated T)
      → List (Annotated T) × List (Annotated T)
      → Type 0
  Jumped t ts before after to =
      (length to.1 ≤ length after)
      × ((out' : List (Annotated T))
          → Merges union (t ∷ ts) to.1 out'
          → (out : List (Annotated T)) × Merges union (t ∷ ts) after out
            × (rewind to.0 out' ≡ rewind before out))

  skip_less-Jumped :
      (t : Annotated T) (ts before after : List (Annotated T))
      → Jumped t ts before after (skip_less compare t before after)
  unfolding skip_less
  skip_less-Jumped t ts before [] = (omega arith, λ out' g. (out', g, refl))
  skip_less-Jumped t ts before (p ∷ after) =
      elim (Bool-cases (is_negative (compare p.item t.item))) [
        | inl less ↦
            let (short, further) = skip_less-Jumped t ts (p ∷ before) after in
            rw less (
              omega arith,
              λ out' g.
                  let (out, g', e) = further out' g in
                  (p ∷ out, first2 (ground (arith, k.negative_law p.item t.item)) g', e),
            )
        | inr stop ↦ rw stop (omega arith, λ out' g. (out', g, refl))
      ]

  abbrev pub Adds :
      List (Annotated T)
      → List (Annotated T)
      → List (Annotated T)
      → Option (List (Annotated T))
      → Type 0
  Adds before after source result =
      (out : List (Annotated T)) × Merges union source after out
      × (result ≡ some (rewind before out))

  past_less :
      (t p : Annotated T) (before after : List (Annotated T))
      → is_negative (compare p.item t.item) ≡ true
      → skip_less compare t before (p ∷ after) ≡ skip_less compare t (p ∷ before) after
  unfolding skip_less
  past_less t p before after less = rw less refl

  add_loop-Adds :
      (fuel : ℕ) (before after source : List (Annotated T))
      → length after + length source < fuel
      → Adds before after source (add_loop compare fuel before after source)
  unfolding add_loop
  add_loop-Adds zero before after source h = absurd (omega arith)
  add_loop-Adds (suc fuel) before after [] h = (after, rest_as_is after, refl)
  add_loop-Adds (suc fuel) before [] (t ∷ ts) h =
      let (out, g, e) = add_loop-Adds fuel (t ∷ before) [] ts (omega arith) in (t ∷ out, rest1 g, e)
  add_loop-Adds (suc fuel) before (p ∷ after) (t ∷ ts) h =
      elim (Bool-cases (is_zero (compare t.item p.item))) [
        | inl same ↦
            let (out, g, e) = add_loop-Adds fuel (united p t ∷ before) after ts (omega arith) in
            (united p t ∷ out, joined (ground (arith, k.zero_law t.item p.item)) refl g, rw same e)
        | inr other ↦ elim (Bool-cases (is_negative (compare t.item p.item))) [
          | inl less ↦
              let (out, g, e) = add_loop-Adds fuel (t ∷ before) (p ∷ after) ts (omega arith) in
              (t ∷ out, first1 (ground (arith, k.negative_law t.item p.item)) g, rw (other, less) e)
          | inr more ↦
              let below : is_negative (compare p.item t.item) ≡ true = ground (
                arith,
                k.zero_law t.item p.item,
                k.negative_law t.item p.item,
                k.negative_law p.item t.item,
              ) in
              let (short, back) = skip_less-Jumped t ts before (p ∷ after) in
              let (out', g', e') =
                add_loop-Adds fuel (skip_less compare t before (p ∷ after)).0
                  (skip_less compare t before (p ∷ after)).1 (t ∷ ts)
                  (shorter fuel below (skip_less-Jumped t ts (p ∷ before) after).0 (omega arith)) in
              let (out, g, e) = back out' g' in (out, g, rw (other, more) (e' ∙ ap some e))
        ]
      ]
    where
      shorter :
          (fuel : ℕ)
          → is_negative (compare p.item t.item) ≡ true
          → length (skip_less compare t (p ∷ before) after).1 ≤ length after
          → length (p ∷ after) + length (t ∷ ts) < suc fuel
          → length (skip_less compare t before (p ∷ after)).1 + length (t ∷ ts) < fuel
      shorter fuel below le h = rw (past_less t p before after below) (omega arith)

  add_iterator-Adds :
      (triples source : List (Annotated T))
      → Adds [] triples source (add_iterator compare triples source)
  unfolding add_iterator
  add_iterator-Adds triples [] = add_loop-Adds (suc (length triples)) [] triples [] (omega arith)
  add_iterator-Adds triples (t ∷ ts) =
      let (short, back) = skip_less-Jumped t ts [] triples in
      let (out', g', e') =
        add_loop-Adds (suc (length triples + length (t ∷ ts))) (skip_less compare t [] triples).0
          (skip_less compare t [] triples).1 (t ∷ ts) (omega arith) in
      let (out, g, e) = back out' g' in (out, g, e' ∙ ap some e)

  -- For triples and an iterator in the order of the comparator, the loop of add_iterator ends, and the
  -- combined iterator then has, in order, each triple of one of the two once: with its versions, or
  -- with the union of the versions where both have it.
  pub add_iterator-IsMerge :
      (triples source : List (Annotated T))
      → Sorted item_rank 0 triples
      → Sorted item_rank 0 source
      → (out : List (Annotated T)) × (add_iterator compare triples source ≡ some out)
        × IsMerge union 0 source triples out
  add_iterator-IsMerge triples source s1 s2 =
      let (out, g, e) = add_iterator-Adds triples source in (out, e, Merges-IsMerge union 0 g s2 s1)
