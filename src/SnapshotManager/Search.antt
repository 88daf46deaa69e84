-- ===== src/SnapshotManager/Search.antt =====
-- `search_with_offset` skips as many triples as its offset says.
use ostrich.Base.{ℕ, ◌≡◌, refl, false, not, ◌&&◌, some, List}
use ostrich.Base.{drop, ◌==◌, Bool-cases, Option-cases, inl, inr}
use ostrich.Base.Int.{ℤ}
use ostrich.Triple.{Triple, ComponentOrder}
use ostrich.SnapshotManager.{Hdt, HdtLaws, searched_pattern, moved, search_with_offset}

module _ (h : Hdt) (laws : HdtLaws h) where
  pub moved-drop :
      (p : Triple) (n : ℕ) (all : List Triple)
      → h.search p ≡ some all
      → moved h p n all ≡ drop n all
  unfolding moved
  moved-drop p n all e = elim (Bool-cases (h.can_go_to p && not (n == 0))) [
    | inl go ↦ elim (Option-cases (h.go_to p n)) [
      | inl throws ↦ rw (go, throws) refl
      | inr (l, reached) ↦ rw (go, reached) (laws.go_to_law p n all l e reached)
    ]
    | inr stay ↦ rw stay refl
  ]

  pub search_with_offset-drop :
      (compare_order : ComponentOrder → Triple → Triple → ℤ) (max_hdt_id : ℕ) (pattern : Triple)
      (n : ℕ) (all : List Triple)
      → h.search (searched_pattern max_hdt_id pattern) ≡ some all
      → search_with_offset compare_order h max_hdt_id pattern n false ≡ drop n all
  unfolding search_with_offset
  search_with_offset-drop compare_order max_hdt_id pattern n all e =
      rw (e, search_with_offset) (moved-drop (searched_pattern max_hdt_id pattern) n all e)
