-- ===== src/VariableInteger/Unsigned.antt =====
-- What `encode_ULEB128` writes, `decode_ULEB128` reads back, and `get_ULEB128_size` foretells its size.
use ostrich.Base.{
  ℕ, zero, suc, ◌+◌, ◌*◌, ◌/◌, ◌%◌, ◌^◌, ◌≡◌, ◌<◌, refl, ap, ◌∙◌, false, some, List, [], ◌∷◌, ◌++◌,
}
use ostrich.Base.{arith, ◌==◌, length, Bool-cases, inl, inr, ==_iff}
use native.Mathlib.Nat.{
  mul-div_cancel, mod-eq_of_lt, one-le-pow, mod-add-div', div-eq_of_lt, pow-suc,
}
use native.Mathlib.Numerals.{towards_suc}
use ostrich.VariableInteger.{size_loop, encode_loop, decode_loop, shifted, shifted_back, decoded}
use ostrich.VariableInteger.{get_uleb128_size, encode_uleb128, decode_uleb128}

-- Seven bits further.
pub power_step : (s : ℕ) → 2 ^ (s + 7) ≡ 2 ^ s * 128
power_step s = simp towards_suc (omega arith)

power_positive : (s : ℕ) → 0 < 2 ^ s
power_positive s = omega (arith, one-le-pow s 2 (omega arith))

-- What is left of a value, and its lowest group, at a shift.
pub groups : (v s : ℕ) → v % 128 * 2 ^ s + v / 128 * 2 ^ (s + 7) ≡ v * 2 ^ s
groups v s = omega (
  arith,
  ap (λ (t : ℕ). t * 2 ^ s) (mod-add-div' v 128),
  ap (λ (t : ℕ). v / 128 * t) (power_step s),
)

-- A group whose bits all lie below bit 64 survives the shifts.
pub shifted-below : (g s : ℕ) → g * 2 ^ s < 2 ^ 64 → shifted g s ≡ g * 2 ^ s
shifted-below g s h = mod-eq_of_lt h

shifted_back-below : (g s : ℕ) → g * 2 ^ s < 2 ^ 64 → shifted_back g s ≡ g
shifted_back-below g s h =
    ap (λ (t : ℕ). t / 2 ^ s) (shifted-below g s h) ∙ mul-div_cancel g (power_positive s)

pub low_group : (g : ℕ) → g < 128 → (g + 128) % 128 ≡ g
low_group g h = omega arith

-- A byte below 128 ends the value, and one above it goes on with the next byte.
decode_last :
    (g value shift size : ℕ) (p : List ℕ)
    → g < 128
    → shift < 64
    → value + g * 2 ^ shift < 2 ^ 64
    → decode_loop (g ∷ p) value shift size ≡ decoded (value + g * 2 ^ shift) (size + 1)
unfolding decode_loop
decode_last g value shift size p h s fits =
    rw
      (
        mod-eq_of_lt h,
        shifted_back-below g shift (omega arith),
        shifted-below g shift (omega arith),
        mod-eq_of_lt fits,
      )
      (ground arith)

decode_more :
    (g value shift size : ℕ) (p : List ℕ)
    → g < 128
    → shift < 64
    → value + g * 2 ^ shift < 2 ^ 64
    → decode_loop ((g + 128) ∷ p) value shift size
      ≡ decode_loop p (value + g * 2 ^ shift) (shift + 7) (size + 1)
unfolding decode_loop
decode_more g value shift size p h s fits =
    rw
      (
        low_group g h,
        shifted_back-below g shift (omega arith),
        shifted-below g shift (omega arith),
        mod-eq_of_lt fits,
      )
      (ground arith)

-- The bytes of a value of at most `left + 1` groups, and what reads them back from a shift on.
Coded : ℕ → ℕ → ℕ → ℕ → ℕ → List ℕ → Type 0
Coded left v value shift size rest =
    (bytes : List ℕ) × (encode_loop (suc left) v ≡ some bytes)
    × (size_loop (suc left) v ≡ some (length bytes))
    × (decode_loop (bytes ++ rest) value shift size
        ≡ decoded (value + v * 2 ^ shift) (size + length bytes))

encode_last : (left v : ℕ) → v < 128 → encode_loop (suc left) v ≡ some (v ∷ [])
unfolding encode_loop
encode_last left v h = rw (div-eq_of_lt h, mod-eq_of_lt h) refl

encode_more :
    (left v : ℕ) (bytes : List ℕ)
    → (v / 128 == 0) ≡ false
    → encode_loop left (v / 128) ≡ some bytes
    → encode_loop (suc left) v ≡ some ((v % 128 + 128) ∷ bytes)
unfolding encode_loop
encode_more left v bytes e enc = rw (e, enc) refl

size_last : (left v : ℕ) → v < 128 → size_loop (suc left) v ≡ some 1
unfolding size_loop
size_last left v h = rw (div-eq_of_lt h) refl

size_more :
    (left v n : ℕ)
    → (v / 128 == 0) ≡ false
    → size_loop left (v / 128) ≡ some n
    → size_loop (suc left) v ≡ some (suc n)
unfolding size_loop
size_more left v n e len = rw (e, len) refl

ends_here :
    (left v value shift size : ℕ) (rest : List ℕ)
    → v < 128
    → shift < 64
    → value + v * 2 ^ shift < 2 ^ 64
    → Coded left v value shift size rest
unfolding Coded
ends_here left v value shift size rest h s fits =
    (v ∷ [], encode_last left v h, size_last left v h, decode_last v value shift size rest h s fits)

coded :
    (left v value shift size : ℕ) (rest : List ℕ)
    → v < 128 ^ suc left
    → shift + 7 * left < 64
    → value + v * 2 ^ shift < 2 ^ 64
    → Coded left v value shift size rest
unfolding Coded
coded zero v value shift size rest h s fits =
    ends_here 0 v value shift size rest (omega arith) (omega arith) fits
coded (suc left) v value shift size rest h s fits = elim (Bool-cases (v / 128 == 0)) [
  | inl e ↦
      ends_here (suc left) v value shift size rest (omega (arith, (==_iff (v / 128) 0).0 e))
        (omega arith) fits
  | inr e ↦
      let (bytes, enc, len, dec) =
        coded left (v / 128) (value + v % 128 * 2 ^ shift) (shift + 7) (size + 1) rest
          (omega (arith, pow-suc 128 (suc left))) (omega arith) (omega (arith, groups v shift)) in
      let total : value + v % 128 * 2 ^ shift + v / 128 * 2 ^ (shift + 7) ≡ value + v * 2 ^ shift =
        omega (arith, groups v shift) in
      let count : (n : ℕ) → size + 1 + n ≡ size + suc n = λ n. omega arith in
      (
        (v % 128 + 128) ∷ bytes,
        encode_more (suc left) v bytes e enc,
        size_more (suc left) v (length bytes) e len,
        decode_more (v % 128) value shift size (bytes ++ rest) (omega arith) (omega arith)
              (omega (arith, groups v shift))
            ∙ dec
            ∙ (λ i. decoded (total i) (count (length bytes) i)),
      )
]

-- A `uint64_t` is encoded within ten rounds, into as many bytes as `get_ULEB128_size` says, which are
-- appended to the buffer; and `decode_ULEB128` of these bytes, whatever follows them, gives the value
-- and the number of the bytes.
pub decode-encode_uleb128 :
    (value : ℕ) (p rest : List ℕ)
    → value < 2 ^ 64
    → (bytes : List ℕ) × (encode_uleb128 value p ≡ some (p ++ bytes))
      × (get_uleb128_size value ≡ some (length bytes))
      × (decode_uleb128 (bytes ++ rest) ≡ decoded value (length bytes))
unfolding Coded encode_uleb128 get_uleb128_size decode_uleb128
decode-encode_uleb128 value p rest h =
    let (bytes, enc, len, dec) =
      coded 9 value 0 0 0 rest (omega arith) (omega arith) (omega arith) in
    let counted : 0 + length bytes ≡ length bytes = omega arith in
    (bytes, rw enc refl, len, dec ∙ (λ i. decoded (whole i) (counted i)))
  where
    whole : 0 + value * 2 ^ 0 ≡ value
    whole = omega arith
