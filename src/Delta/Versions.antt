-- ===== src/Delta/Versions.antt =====
-- What the iterators give between versions: a version is the set of the ranks of its triples, and a
-- delta that is applied to it adds and removes triples.
use ostrich.Base.{
  ℕ, zero, suc, ◌+◌, ◌≡◌, refl, Bool, true, false, not, Option, none, some, List, ◌∷◌,
}
use ostrich.Base.{arith, length, sym}
use mathlib.Core.Option
use ostrich.Base.Int.{ℤ}
use ostrich.Delta.{
  Delta, Sources, drain, and_then, merge_next, case2_next, plain_next, snapshot_next,
}
use ostrich.Delta.{get_count, differ}
use ostrich.Delta.Merge.{Sorted, at_rank, Merges-IsMerge, combine}
use ostrich.Delta.Steps.{Stepped, drain-Merges}
use ostrich.Delta.Rules.{Ranks, merging, reverting, difference, delta_rank}
use ostrich.Delta.Iterators.{
  merge_next-Stepped, case2_next-Stepped, plain_next-Stepped, snapshot_next-Stepped,
}

abbrev pub updated : {T : Type 0} → Option (Delta T) → Bool → Bool
updated none v = v
updated (some d) v = d.addition

-- A delta that changes what it names.
abbrev pub IsChange : {T : Type 0} → Option (Delta T) → Bool → Type 0
IsChange none v = Unit
IsChange (some d) v = d.addition ≡ not v

abbrev pub is_some : {T : Type 0} → Option T → Bool
is_some none = false
is_some (some t) = true

module _ {T : Type 0} (compare : T → T → ℤ) (k : Ranks compare) where
  -- Apply a delta to a version.
  abbrev pub apply : List (Delta T) → (ℕ → Bool) → ℕ → Bool
  apply l version r = updated (at_rank (delta_rank compare k) r l) (version r)

  abbrev pub Changes : List (Delta T) → (ℕ → Bool) → Type 0
  Changes l version = (r : ℕ) → IsChange (at_rank (delta_rank compare k) r l) (version r)

  abbrev pub contains : List T → ℕ → Bool
  contains l r = is_some (at_rank k.rank r l)

  -- The deltas between two versions that `next` gives before it returns false: in order, each triple
  -- once, and what turns the one version into the other, with no change that changes nothing.
  abbrev pub Between : Option (List (Delta T)) → (ℕ → Bool) → (ℕ → Bool) → Type 0
  Between result from to =
      (out : List (Delta T)) × (result ≡ some out)
      × Sorted (delta_rank compare k) 0 out
      × Changes out from
      × ((r : ℕ) → apply out from r ≡ to r)

  opposite_flags : (x y : Bool) → y ≡ not x → differ x y ≡ true
  opposite_flags true y e = rw e refl
  opposite_flags false y e = rw e refl

  same_not : (x v : Bool) → x ≡ not v → v ≡ not x
  same_not x true e = rw e refl
  same_not x false e = rw e refl

  equal_flags : (x y v : Bool) → x ≡ not v → y ≡ not v → x ≡ y
  equal_flags x y v e f = rw (e, f) refl

  merged_step :
      (o1 o2 : Option (Delta T)) (v : Bool)
      → IsChange o1 v
      → IsChange o2 (updated o1 v)
      → IsChange (combine (merging compare k) o1 o2) v
        × (updated (combine (merging compare k) o1 o2) v ≡ updated o2 (updated o1 v))
  merged_step none none v c1 c2 = (tt, refl)
  merged_step (some a) none v c1 c2 = (c1, refl)
  merged_step none (some b) v c1 c2 = (c2, refl)
  merged_step (some a) (some b) v c1 c2 =
      rw (opposite_flags a.addition b.addition c2) (tt, rw c2 (same_not a.addition v c1))

  reverted_step :
      (o1 o2 : Option (Delta T)) (v : Bool)
      → IsChange o1 v
      → IsChange o2 v
      → IsChange (combine (reverting compare k) o1 o2) (updated o1 v)
        × (updated (combine (reverting compare k) o1 o2) (updated o1 v) ≡ updated o2 v)
  reverted_step none none v c1 c2 = (tt, refl)
  reverted_step (some a) none v c1 c2 = (refl, sym (same_not a.addition v c1))
  reverted_step none (some b) v c1 c2 = (c2, refl)
  reverted_step (some a) (some b) v c1 c2 = (tt, equal_flags a.addition b.addition v c1 c2)

  difference_step :
      (o1 o2 : Option T)
      → IsChange (combine (difference compare k) o1 o2) (is_some o1)
        × (updated (combine (difference compare k) o1 o2) (is_some o1) ≡ is_some o2)
  difference_step none none = (tt, refl)
  difference_step (some a) none = (refl, refl)
  difference_step none (some b) = (refl, refl)
  difference_step (some a) (some b) = (tt, refl)

  -- The merge iterator, given deltas from one version to a second and from there to a third, in order,
  -- where each change changes something, ends within as many calls as the sources have elements and
  -- one more, and gives the delta from the first version to the third, in order.
  pub merge_next-Between :
      (l1 l2 : List (Delta T)) (version : ℕ → Bool)
      → Sorted (delta_rank compare k) 0 l1
      → Sorted (delta_rank compare k) 0 l2
      → Changes l1 version
      → Changes l2 (apply l1 version)
      → Between
          (drain (merge_next compare) (length l1 + length l2 + 1) (l1, l2))
          version
          (apply l2 (apply l1 version))
  merge_next-Between l1 l2 version s1 s2 c1 c2 =
      let (out, e, g) =
        drain-Merges (merging compare k) (merge_next compare) (merge_next-Stepped compare k)
          (length l1 + length l2 + 1) l1 l2 (omega arith) in
      let (s, at) = Merges-IsMerge (merging compare k) 0 g s1 s2 in
      let step = λ (r : ℕ).
        merged_step (at_rank (delta_rank compare k) r l1) (at_rank (delta_rank compare k) r l2)
          (version r) (c1 r) (c2 r) in
      (out, e, s, λ r. rw (at r) (step r).0, λ r. rw (at r) (step r).1)

  -- The second merge iterator, given deltas from one snapshot to two versions, in order, where each
  -- change changes something, ends within as many calls as the sources have elements and one more,
  -- and gives the delta from the one version to the other, in order.
  pub case2_next-Between :
      (l1 l2 : List (Delta T)) (snapshot : ℕ → Bool)
      → Sorted (delta_rank compare k) 0 l1
      → Sorted (delta_rank compare k) 0 l2
      → Changes l1 snapshot
      → Changes l2 snapshot
      → Between
          (drain (case2_next compare) (length l1 + length l2 + 1) (l1, l2))
          (apply l1 snapshot)
          (apply l2 snapshot)
  case2_next-Between l1 l2 snapshot s1 s2 c1 c2 =
      let (out, e, g) =
        drain-Merges (reverting compare k) (case2_next compare) (case2_next-Stepped compare k)
          (length l1 + length l2 + 1) l1 l2 (omega arith) in
      let (s, at) = Merges-IsMerge (reverting compare k) 0 g s1 s2 in
      let step = λ (r : ℕ).
        reverted_step (at_rank (delta_rank compare k) r l1) (at_rank (delta_rank compare k) r l2)
          (snapshot r) (c1 r) (c2 r) in
      (out, e, s, λ r. rw (at r) (step r).0, λ r. rw (at r) (step r).1)

  difference-Between :
      (next : Sources T T → Option (Delta T × Sources T T))
      → ((l1 l2 : List T) → Stepped (difference compare k) l1 l2 (next (l1, l2)))
      → (l1 l2 : List T) → Sorted k.rank 0 l1
      → Sorted k.rank 0 l2
      → Between (drain next (length l1 + length l2 + 1) (l1, l2)) (contains l1) (contains l2)
  difference-Between next steps l1 l2 s1 s2 =
      let (out, e, g) =
        drain-Merges (difference compare k) next steps (length l1 + length l2 + 1) l1 l2
          (omega arith) in
      let (s, at) = Merges-IsMerge (difference compare k) 0 g s1 s2 in
      let step = λ (r : ℕ). difference_step (at_rank k.rank r l1) (at_rank k.rank r l2) in
      (out, e, s, λ r. rw (at r) (step r).0, λ r. rw (at r) (step r).1)

  -- The iterator over two plain sources of triples, in order, ends within as many calls as the sources
  -- have elements and one more, and gives the delta from the first set of triples to the second.
  pub plain_next-Between :
      (l1 l2 : List T)
      → Sorted k.rank 0 l1
      → Sorted k.rank 0 l2
      → Between
          (drain (λ (m1, m2). plain_next compare m1 m2) (length l1 + length l2 + 1) (l1, l2))
          (contains l1)
          (contains l2)
  plain_next-Between = difference-Between _ (plain_next-Stepped compare k)

  -- The iterator over two snapshots, whose triples are in order, ends within as many calls as they
  -- have triples and one more, and gives the delta from the first snapshot to the second.
  pub snapshot_next-Between :
      (l1 l2 : List T)
      → Sorted k.rank 0 l1
      → Sorted k.rank 0 l2
      → Between
          (drain (λ (m1, m2). snapshot_next compare m1 m2) (length l1 + length l2 + 1) (l1, l2))
          (contains l1)
          (contains l2)
  snapshot_next-Between = difference-Between _ (snapshot_next-Stepped compare k)

counted_some :
    {D : Type 0} (d : D) (o : Option (List D))
    → Option.map suc (Option.map length o) ≡ Option.map length (Option.map (λ ds. d ∷ ds) o)
counted_some d none = refl
counted_some d (some l) = refl

counted :
    {S D : Type 0} (o : Option (D × S)) (f : S → Option (List D)) (g : S → Option ℕ)
    → ((s : S) → g s ≡ Option.map length (f s))
    → elim o [ none ↦ some 0 | some (d, s') ↦ Option.map suc (g s') ]
      ≡ Option.map length (and_then f o)
counted none f g h = refl
counted (some (d, s)) f g h = rw (h s) (counted_some d (f s))

-- The count of an iterator is the number of its results, and fails only with too few calls.
pub get_count-drain :
    {S D : Type 0} (next : S → Option (D × S)) (fuel : ℕ) (s : S)
    → get_count next fuel s ≡ Option.map length (drain next fuel s)
unfolding get_count drain
get_count-drain next zero s = refl
get_count-drain next (suc fuel) s =
    counted (next s) (drain next fuel) (get_count next fuel) (get_count-drain next fuel)
