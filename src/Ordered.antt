-- ===== src/Ordered.antt =====
-- `std::map<int, V>` as the code of patch/ and snapshot/ uses it: a list of entries in the order of
-- their keys. An iterator is a position in that list: the entries before it, nearest first, and the
-- entries from it on, none of them for `end()`. Keys are the patch ids, which are never negative.
pub mod Split
use ostrich.Base.{ℕ, ◌<◌, ◌≤◌, Option, none, some, List, [], ◌∷◌, ltb, ◌==◌, if◌then◌else◌}

-- `map.empty()`
abbrev pub is_empty {ℓ} : {A : Type ℓ} → List A → ostrich.Base.Bool
is_empty [] = ostrich.Base.true
is_empty (x ∷ l) = ostrich.Base.false

module _ {ℓ} where
  pub record Position (V : Type ℓ) : Type ℓ where
    pub before : List (ℕ × V)
    pub after : List (ℕ × V)

module _ {ℓ} {V : Type ℓ} where
  -- Puts a reversed prefix back in front of the entries that follow it.
  abbrev pub rewind : List (ℕ × V) → List (ℕ × V) → List (ℕ × V)
  rewind [] after = after
  rewind (e ∷ before) after = rewind before (e ∷ after)

  unfoldable pub seek : ℕ → List (ℕ × V) → List (ℕ × V) → Position V
  seek k before [] = record { before = before; after = [] }
  seek k before ((j, v) ∷ after) =
      if ltb j k
      then seek k ((j, v) ∷ before) after
      else record { before = before; after = (j, v) ∷ after }

  -- `lower_bound(k)`: the first entry whose key is not less than `k`.
  unfoldable pub lower_bound : ℕ → List (ℕ × V) → Position V
  unfolding seek
  lower_bound k m = seek k [] m

  -- `insert({k, v})`: an entry that is there already stays.
  unfoldable pub insert : ℕ → V → List (ℕ × V) → List (ℕ × V)
  insert k v [] = (k, v) ∷ []
  insert k v ((j, w) ∷ m) =
      if ltb j k
      then (j, w) ∷ insert k v m
      else (if j == k then (j, w) ∷ m else (k, v) ∷ (j, w) ∷ m)

  -- `map[k] = v`, and `pos->second = v` at the entry with the key `k`.
  unfoldable pub assign : ℕ → V → List (ℕ × V) → List (ℕ × V)
  assign k v [] = (k, v) ∷ []
  assign k v ((j, w) ∷ m) =
      if ltb j k
      then (j, w) ∷ assign k v m
      else (if j == k then (k, v) ∷ m else (k, v) ∷ (j, w) ∷ m)

  -- `erase(pos)` at the entry with the key `k`.
  unfoldable pub erase : ℕ → List (ℕ × V) → List (ℕ × V)
  erase k [] = []
  erase k ((j, w) ∷ m) = if ltb j k then (j, w) ∷ erase k m else (if j == k then m else (j, w) ∷ m)

  -- `find(k)`
  unfoldable pub find : ℕ → List (ℕ × V) → Option V
  find k [] = none
  find k ((j, w) ∷ m) = if j == k then some w else find k m
