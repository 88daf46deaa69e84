-- ===== src/Positions/Bytes.antt =====
-- The byte format of `PatchPositions`, as it is built (with USE_VSI): seven SLEB128 numbers.
pub mod RoundTrip
use ostrich.Base.{ℕ, zero, suc, ◌+◌, ◌*◌, ◌-◌, ◌^◌, Option, none, some, List, [], ◌∷◌, ◌++◌, ◌>>=◌}
use ostrich.Base.{drop}
use ostrich.Base.Int.{ℤ, pos}
use ostrich.Positions.{PatchPositions}
use ostrich.VariableInteger.{read_at, Decoded, decoded, too_big, past_end}
use ostrich.VariableInteger.{encode_sleb128, decode_sleb128, get_sleb128_size}
use mathlib.Core.Option

-- Each number goes through the buffer, which is empty again, to the end of the data.
unfoldable pub serialize : PatchPositions → Option (List ℕ)
serialize r = do
  sp ← encode_sleb128 r.sp []
  so ← encode_sleb128 r.so []
  s ← encode_sleb128 r.s []
  po ← encode_sleb128 r.po []
  p ← encode_sleb128 r.p []
  o ← encode_sleb128 r.o []
  any ← encode_sleb128 r.any []
  some (sp ++ (so ++ (s ++ (po ++ (p ++ (o ++ (any ++ [])))))))

-- The positions, and the offset that is returned.
unfoldable pub deserialize : List ℕ → Decoded PatchPositions
unfolding read_at
deserialize bytes = read_at bytes 0 (λ sp at_so. read_at bytes at_so (λ so at_s.
    read_at bytes at_s (λ s at_po. read_at bytes at_po (λ po at_p. read_at bytes at_p (λ p at_o.
      read_at bytes at_o (λ o at_any. read_at bytes at_any (λ any end.
        decoded (record { sp = sp; so = so; s = s; po = po; p = p; o = o; any = any }) end)))))))

unfoldable pub max_serialization_size : Option ℕ
max_serialization_size = Option.map (λ size. 7 * size) (get_sleb128_size (pos (2 ^ 63 - 1)))
