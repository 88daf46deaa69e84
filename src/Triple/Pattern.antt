-- ===== src/Triple/Pattern.antt =====
-- The index that is chosen for a pattern has the bound components of the pattern first.
use ostrich.Base.{ℕ, ◌≡◌, Bool, true, false, not, ◌&&◌, List, [], ◌∷◌}
use ostrich.Base.{arith, ltb, if◌then◌else◌, Bool-cases, inl, inr}
use ostrich.Triple.{Triple, ComponentOrder, spo, pos_order, osp, is_default_tree, get_query_order}

-- The components of a triple in the order of an index.
abbrev pub components : ComponentOrder → Triple → List ℕ
components spo t = t.subject ∷ t.predicate ∷ t.object ∷ []
components pos_order t = t.predicate ∷ t.object ∷ t.subject ∷ []
components osp t = t.object ∷ t.subject ∷ t.predicate ∷ []

abbrev pub no_bound : List ℕ → Bool
no_bound [] = true
no_bound (n ∷ l) = not (ltb 0 n) && no_bound l

-- No variable stands before a bound component.
abbrev pub bound_first : List ℕ → Bool
bound_first [] = true
bound_first (n ∷ l) = if ltb 0 n then bound_first l else no_bound l

abbrev pub is_spo : ComponentOrder → Bool
is_spo spo = true
is_spo pos_order = false
is_spo osp = false

-- In the index that `get_query_order` chooses for a pattern no variable comes before a bound
-- component, so that the triples that match the pattern lie side by side in it; and `is_default_tree`
-- says whether that index is the one in SPO order.
pub get_query_order_prefix :
    (pattern : Triple)
    → (bound_first (components (get_query_order pattern) pattern) ≡ true)
      × (is_default_tree pattern ≡ is_spo (get_query_order pattern))
unfolding get_query_order is_default_tree
get_query_order_prefix pattern = elim (Bool-cases (ltb 0 pattern.subject)) [
  | inl s ↦ elim (Bool-cases (ltb 0 pattern.predicate)) [
    | inl p ↦ elim (Bool-cases (ltb 0 pattern.object)) [
      | inl o ↦ ground arith
      | inr o ↦ ground arith
    ]
    | inr p ↦ elim (Bool-cases (ltb 0 pattern.object)) [
      | inl o ↦ ground arith
      | inr o ↦ ground arith
    ]
  ]
  | inr s ↦ elim (Bool-cases (ltb 0 pattern.predicate)) [
    | inl p ↦ elim (Bool-cases (ltb 0 pattern.object)) [
      | inl o ↦ ground arith
      | inr o ↦ ground arith
    ]
    | inr p ↦ elim (Bool-cases (ltb 0 pattern.object)) [
      | inl o ↦ ground arith
      | inr o ↦ ground arith
    ]
  ]
]
