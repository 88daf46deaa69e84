-- ===== src/Triple/Examples.antt =====
-- A triple and its bytes.
use ostrich.Base.{ℕ, ◌≡◌, true, some, List, [], ◌∷◌, ◌++◌, arith, length}
use ostrich.VariableInteger.{decoded}
use ostrich.Triple.{triple, serialize, deserialize, get_query_order, is_default_tree}
use ostrich.Triple.Bytes.{deserialize-serialize_triple}
use ostrich.Triple.Pattern.{get_query_order_prefix, bound_first, components, is_spo}

deserialize-serialize_triple_example :
    (bytes : List ℕ) × (serialize (triple 1 200 70000) ≡ some bytes)
    × (deserialize (bytes ++ (5 ∷ [])) ≡ decoded (triple 1 200 70000) (length bytes))
deserialize-serialize_triple_example =
    deserialize-serialize_triple (triple 1 200 70000) (5 ∷ [])
      (omega arith, omega arith, omega arith)

get_query_order_prefix_example :
    (bound_first (components (get_query_order (triple 0 4 0)) (triple 0 4 0)) ≡ true)
    × (is_default_tree (triple 0 4 0) ≡ is_spo (get_query_order (triple 0 4 0)))
get_query_order_prefix_example = get_query_order_prefix (triple 0 4 0)
