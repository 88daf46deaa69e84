-- ===== src/Triple.antt =====
-- `Triple` and `TripleVersion` of src/main/cpp/patch/triple.h and triple.cc, as they are built (with
-- USE_VSI_T and USE_VSI), the choice of the index of src/main/cpp/patch/triple_store.h, and
-- `PatchElement` of src/main/cpp/patch/patch_element.cc. A component is the number that the dictionary
-- gives a term; in a pattern 0 stands for a variable.
pub mod Bytes
pub mod Pattern
mod Examples
use ostrich.Base.{ℕ, ◌+◌, Bool, not, ◌&&◌, ◌||◌, Option, some, List, [], ◌++◌, ◌>>=◌}
use ostrich.Base.{ltb, ◌==◌, if◌then◌else◌, drop}
use ostrich.Base.Int.{pos}
use ostrich.VariableInteger.{Decoded, decoded, too_big, past_end, encode_uleb128, decode_uleb128}
use ostrich.VariableInteger.{encode_sleb128}

pub record Triple : Type 0 where
  pub subject : ℕ
  pub predicate : ℕ
  pub object : ℕ

-- `Triple(s, p, o)`
abbrev pub triple : ℕ → ℕ → ℕ → Triple
triple s p o = record { subject = s; predicate = p; object = o }

-- `operator==`
unfoldable pub equals : Triple → Triple → Bool
equals a b = a.subject == b.subject && (a.predicate == b.predicate && a.object == b.object)

unfoldable pub pattern_match_triple : Triple → Triple → Bool
pattern_match_triple t pattern =
    (pattern.subject == 0 || pattern.subject == t.subject)
    && ((pattern.predicate == 0 || pattern.predicate == t.predicate)
        && (pattern.object == 0 || pattern.object == t.object))

unfoldable pub is_all_matching_pattern : Triple → Bool
is_all_matching_pattern pattern =
    pattern.subject == 0 && (pattern.predicate == 0 && pattern.object == 0)

-- `hdt::TripleComponentOrder`, the orders that are used.
pub data ComponentOrder : Type 0 where
  spo : ComponentOrder
  pos_order : ComponentOrder
  osp : ComponentOrder

unfoldable pub is_default_tree : Triple → Bool
is_default_tree pattern =
    let s = ltb 0 pattern.subject in
    let p = ltb 0 pattern.predicate in let o = ltb 0 pattern.object in (s && p) || (not p && not o)

unfoldable pub get_query_order : Triple → ComponentOrder
get_query_order pattern =
    let s = ltb 0 pattern.subject in
    let p = ltb 0 pattern.predicate in
    let o = ltb 0 pattern.object in
    if s && (p && o)
    then spo
    else (if s && (p && not o)
        then spo
        else (if s && (not p && o)
            then osp
            else (if s && (not p && not o)
                then spo
                else (if not s && (p && o)
                    then pos_order
                    else (if not s && (p && not o)
                        then pos_order
                        else (if not s && (not p && o) then osp else spo))))))

-- Each number goes through the buffer, which is empty again, to the end of the data.
unfoldable pub serialize : Triple → Option (List ℕ)
serialize t = do
  s ← encode_uleb128 t.subject []
  p ← encode_uleb128 t.predicate []
  o ← encode_uleb128 t.object []
  some (s ++ (p ++ o))

-- One number at an offset, and what is done with it and with the offset behind it.
abbrev pub passed_on : {B : Type 0} → ℕ → (ℕ → ℕ → Decoded B) → Decoded ℕ → Decoded B
passed_on offset next (decoded value size) = next value (offset + size)
passed_on offset next too_big = too_big
passed_on offset next past_end = past_end

unfoldable pub read_component : {B : Type 0} → List ℕ → ℕ → (ℕ → ℕ → Decoded B) → Decoded B
read_component bytes offset next = passed_on offset next (decode_uleb128 (drop offset bytes))

-- The triple, and the offset behind it.
unfoldable pub deserialize : List ℕ → Decoded Triple
unfolding read_component
deserialize bytes = read_component bytes 0 (λ s at_p.
    read_component bytes at_p
      (λ p at_o. read_component bytes at_o (λ o end. decoded (triple s p o) end)))

-- A triple pattern in a patch: the key of the counts.
pub record TripleVersion : Type 0 where
  pub patch_id : ℕ
  pub version_of : Triple

unfoldable pub serialize_version : TripleVersion → Option (List ℕ)
unfolding serialize
serialize_version v = do
  id ← encode_sleb128 (pos v.patch_id) []
  rest ← serialize v.version_of
  some (id ++ rest)

pub record PatchElement : Type 0 where
  pub element_triple : Triple
  pub is_addition : Bool
  pub is_local_change : Bool
