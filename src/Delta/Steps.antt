-- ===== src/Delta/Steps.antt =====
-- An iterator whose every call of `next` does a step of a merge gives the whole merge.
use ostrich.Base.{ℕ, zero, suc, ◌+◌, ◌≡◌, ◌<◌, refl, Option, none, some, List, [], ◌∷◌}
use ostrich.Base.{arith, length}
use ostrich.Delta.{Sources, drain, and_then}
use ostrich.Delta.Merge.{Merging, Merges, dropped}

module _ {A B C : Type 0} (m : Merging A B C) where
  -- One call of `next`: it ends a merge, or gives the next element and leaves shorter sources.
  abbrev pub Stepped : List A → List B → Option (C × Sources A B) → Type 0
  Stepped l1 l2 none = Merges m l1 l2 []
  Stepped l1 l2 (some (c, (m1, m2))) =
      (length m1 + length m2 < length l1 + length l2)
      × ((out : List C) → Merges m m1 m2 out → Merges m l1 l2 (c ∷ out))

  step-Merges :
      (l1 : List A) (l2 : List B) (o : Option (C × Sources A B))
      (rest : Sources A B → Option (List C))
      → Stepped l1 l2 o
      → ((m1 : List A) (m2 : List B)
          → length m1 + length m2 < length l1 + length l2
          → (out : List C) × (rest (m1, m2) ≡ some out) × Merges m m1 m2 out)
      → (out : List C) × (and_then rest o ≡ some out) × Merges m l1 l2 out
  step-Merges l1 l2 none rest s ih = ([], refl, s)
  step-Merges l1 l2 (some (c, (m1, m2))) rest s ih =
      let (out, e, g) = ih m1 m2 s.0 in (c ∷ out, rw e, s.1 out g)

  pub drain-Merges :
      (next : Sources A B → Option (C × Sources A B))
      → ((l1 : List A) (l2 : List B) → Stepped l1 l2 (next (l1, l2)))
      → (fuel : ℕ) (l1 : List A) (l2 : List B) → length l1 + length l2 < fuel
      → (out : List C) × (drain next fuel (l1, l2) ≡ some out) × Merges m l1 l2 out
  unfolding drain
  drain-Merges next steps zero l1 l2 h = absurd (omega arith)
  drain-Merges next steps (suc fuel) l1 l2 h =
      step-Merges l1 l2 (next (l1, l2)) (drain next fuel) (steps l1 l2)
        (λ m1 m2 k. drain-Merges next steps fuel m1 m2 (omega arith))

  pub Stepped-dropped :
      (a : A) (b : B) (l1 : List A) (l2 : List B) (o : Option (C × Sources A B))
      → m.rank1 a ≡ m.rank2 b
      → m.both a b ≡ none
      → Stepped l1 l2 o
      → Stepped (a ∷ l1) (b ∷ l2) o
  Stepped-dropped a b l1 l2 none e n s = dropped e n s
  Stepped-dropped a b l1 l2 (some (c, (m1, m2))) e n s =
      (omega arith, λ out g. dropped e n (s.1 out g))
