-- ===== src/PatchTreeIterator/Unordered.antt =====
-- The iterator over both trees with a comparator whose order is not that of the trees: `PatchTree::iterator`
-- of src/main/cpp/patch/patch_tree.cc gives it the SPO comparator for the cursors of every index.
use ostrich.Base.{◌≡◌, ◌<◌, refl, List, [], ◌∷◌}
use ostrich.Base.{arith}
use ostrich.AdditionValue.{AdditionValue}
use ostrich.DeletionValue.{DeletionValue}
use ostrich.Triple.{Triple}
use ostrich.Delta.Merge.{Merging, Merges, finished, rest1, first1, first2, dropped, joined}

module _ {A B C : Type 0} (m : Merging A B C) where
  Merges-second :
      {a : A} {b : B} {l1 : List A} {l2 : List B} {out : List C}
      → m.rank2 b < m.rank1 a
      → Merges m (a ∷ l1) (b ∷ l2) out
      → (out' : List C) × (out ≡ m.only2 b ∷ out') × Merges m (a ∷ l1) l2 out'
  Merges-second h (first1 lt g) = absurd (omega arith)
  Merges-second h (first2 {out = out'} lt g) = (out', refl, g)
  Merges-second h (dropped eq n g) = absurd (omega arith)
  Merges-second h (joined eq n g) = absurd (omega arith)

  Merges-rest :
      {a : A} {l1 : List A} {out : List C}
      → Merges m (a ∷ l1) [] out
      → (out' : List C) × (out ≡ m.only1 a ∷ out') × Merges m l1 [] out'
  Merges-rest (rest1 {out = out'} g) = (out', refl, g)

  Merges-end : {out : List C} → Merges m [] [] out → out ≡ []
  Merges-end finished = refl

  pub Merges-crossed :
      (a a' : A) (b : B) {out : List C}
      → m.rank2 b < m.rank1 a
      → Merges m (a ∷ a' ∷ []) (b ∷ []) out
      → out ≡ m.only2 b ∷ m.only1 a ∷ m.only1 a' ∷ []
  Merges-crossed a a' b h g =
      let (out1, e1, g1) = Merges-second h g in
      let (out2, e2, g2) = Merges-rest g1 in
      let (out3, e3, g3) = Merges-rest g2 in rw (e1, e2, e3, Merges-end g3) refl
