-- ===== src/VariableInteger/Examples.antt =====
-- Values of two bytes at the end of a buffer.
use ostrich.Base.{◌≡◌, some, List, [], ◌∷◌, ◌++◌, ℕ, arith, length}
use ostrich.VariableInteger.{decoded}
use ostrich.VariableInteger.{encode_sleb128, get_sleb128_size, decode_sleb128}
use ostrich.VariableInteger.Signed.{decode-encode_sleb128}
use ostrich.Base.Int.{negsuc}

decode-encode_sleb128_example :
    (bytes : List ℕ) × (encode_sleb128 (negsuc 299) (7 ∷ []) ≡ some ((7 ∷ []) ++ bytes))
    × (get_sleb128_size (negsuc 299) ≡ some (length bytes))
    × (decode_sleb128 (bytes ++ (9 ∷ [])) ≡ decoded (negsuc 299) (length bytes))
decode-encode_sleb128_example = decode-encode_sleb128 (negsuc 299) (7 ∷ []) (9 ∷ []) (omega arith)
