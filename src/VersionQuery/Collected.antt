-- ===== src/VersionQuery/Collected.antt =====
-- All results of `SnapshotPatchIteratorTripleID::next`: the triples of the snapshot that have no
-- deletion, and then the additions that the addition iterator gives.
use ostrich.Base.{
  ℕ, zero, suc, ◌+◌, ◌≡◌, ◌<◌, refl, ap, ◌∙◌, Bool, true, false, not, Option, none, some, List, [],
  ◌∷◌, ◌++◌, map, ◌>>=◌,
}
use mathlib.Core.Path.{subst}
use ostrich.Base.{arith, length, All, if◌then◌else◌, Bool-cases, Option-cases, inl, inr}
use ostrich.Base.Int.{ℤ}
use ostrich.Comparator.Keys.{KeyRanks}
use ostrich.Triple.{Triple, ComponentOrder, spo}
use ostrich.Delta.Merge.{Sorted}
use ostrich.PatchTree.Visits.{Deletion, Addition}
use ostrich.PatchTreeIterator.{Filters, Found, next_addition}
use ostrich.PatchTreeIterator.Filtered
use ostrich.PatchTreeIterator.Filtered.{filter, collected}
use ostrich.PatchTree.Queries.{Trees, next_triple}
use ostrich.SnapshotManager.{Hdt}
use ostrich.VersionQuery.{
  Deleter, State, try_triple, next_in_snapshot, next_in_additions, start_additions, next, collect,
}
use ostrich.VersionQuery.Deleted.{IsTriple, is_deleted, rank}
use ostrich.VersionQuery.Emitted.{deleter, IsReady, try_triple-Tested}

abbrev pub key : Addition → Triple
key a = a.0

-- The triples that a snapshot keeps.
abbrev pub kept : (Deletion → Bool) → List Deletion → List Triple → List Triple
kept valid tree = filter (λ t. not (is_deleted valid tree t))

-- A state over the triples of the snapshot that are left.
abbrev pub over : Deleter → List Triple → State
over d l = record { snapshot_it = some l; deleter = d; addition_it = none }

module _ (compare : ComponentOrder → Triple → Triple → ℤ) (trees : Trees) (h : Hdt)
    (max_hdt_id offset : ℕ) (deletions : ℤ) (patch_id : ℕ) (pattern : Triple) where
  abbrev pub results : ℕ → State → Option (List Triple)
  results fuel s = collect compare trees h max_hdt_id fuel offset deletions patch_id pattern s

  abbrev pub adding : Deleter → Filters → List Addition → State
  adding d f l = record {
    snapshot_it = none;
    deleter = d;
    addition_it = some (record { filters = f; cursor = l });
  }

  -- One read of the addition iterator, and the rest.
  read-collected :
      (fuel : ℕ) (d : Deleter) (f : Filters) (l found : List Addition) (r : Option (Found Addition))
      → next_addition f l ≡ r
      → (r >>= collected (Filtered.collect fuel f)) ≡ some found
      → ((l' found' : List Addition)
          → Filtered.collect fuel f l' ≡ some found'
          → results fuel (adding d f l') ≡ some (map key found'))
      → results (suc fuel) (adding d f l) ≡ some (map key found)
  unfolding collect next next_in_additions next_triple
  read-collected fuel d f l found none run e ih = cc
  read-collected fuel d f l found (some (none, l')) run e ih =
      rw run (ap (λ xs. some (map key xs)) (inside e))
    where
      inside : {A : Type 0} {xs ys : List A} → some xs ≡ some ys → xs ≡ ys
      inside e = cc
  read-collected fuel d f l found (some (some a, l')) run e ih =
      elim (Option-cases (Filtered.collect fuel f l')) [
        | inl stuck ↦ absurd (clash (subst (λ o. (o >>= λ bs. some (a ∷ bs)) ≡ some found) stuck e))
        | inr (rest, more) ↦
            rw (run, ih l' rest more)
              (ap (λ xs. some (map key xs))
                (inside (subst (λ o. (o >>= λ bs. some (a ∷ bs)) ≡ some found) more e)))
      ]
    where
      clash : {A : Type 0} {xs : List A} → none ≡ some xs → ⊥
      clash e = cc

      inside : {A : Type 0} {xs ys : List A} → some xs ≡ some ys → xs ≡ ys
      inside e = cc

  pub additions-collected :
      (fuel : ℕ) (d : Deleter) (f : Filters) (l found : List Addition)
      → Filtered.collect fuel f l ≡ some found
      → results fuel (adding d f l) ≡ some (map key found)
  unfolding Filtered.collect
  additions-collected zero d f l found e = cc
  additions-collected (suc fuel) d f l found e =
      read-collected fuel d f l found (next_addition f l) refl e (additions-collected fuel d f)

  module _ (o : KeyRanks (compare spo)) (tree : List Deletion) (valid : Deletion → Bool)
      (sorted : Sorted (rank (compare spo) o) 1 tree) (f : Filters) (cursor found : List Addition)
      (started : start_additions compare trees h max_hdt_id offset deletions patch_id pattern
        ≡ some (record { filters = f; cursor = cursor }))
      (additions_found : (fuel : ℕ)
        → length cursor < fuel
        → Filtered.collect fuel f cursor ≡ some found) where
    abbrev pub IsTerm : Triple → Type 0
    IsTerm t = IsTriple t × (0 < o.rank t)

    abbrev pub deleter_of : Filters → List Deletion → Bool → Triple → Deleter
    deleter_of g c has_last last =
        deleter (compare spo) o tree valid patch_id pattern g c has_last last

    tried :
        (fuel : ℕ) (d d' : Deleter) (t : Triple) (l : List Triple) (b : Bool)
        → try_triple (compare spo) d t ≡ some (b, d')
        → results (suc fuel) (over d (t ∷ l)) ≡ (
            if b
            then (results fuel (over d' l) >>= λ ts. some (t ∷ ts))
            else results (suc fuel) (over d' l))
    unfolding collect next next_in_snapshot
    tried fuel d d' t l true run = rw run refl
    tried fuel d d' t l false run = rw run refl

    pub at_end :
        (fuel : ℕ) (d : Deleter)
        → results (suc fuel) (over d []) ≡ results (suc fuel) (adding d f cursor)
    unfolding collect next next_in_snapshot
    at_end fuel d = rw started refl

    pub collect_rest :
        (fuel : ℕ) (l : List Triple) (g : Filters) (c : List Deletion) (has_last : Bool)
        (last : Triple)
        → All IsTerm l
        → IsReady (compare spo) o tree valid patch_id pattern g has_last last
        → length l + length cursor < fuel
        → results fuel (over (deleter_of g c has_last last) l)
          ≡ some (kept valid tree l ++ map key found)
    collect_rest zero l g c has_last last terms k short = absurd (omega arith)
    collect_rest (suc fuel) [] g c has_last last terms k short =
        at_end fuel (deleter_of g c has_last last)
        ∙ additions-collected (suc fuel) (deleter_of g c has_last last) f cursor found
            (additions_found (suc fuel) (omega arith))
    collect_rest (suc fuel) (t ∷ l) g c has_last last terms k short =
        let (g', c', last', run, k') =
          try_triple-Tested (compare spo) o tree valid patch_id pattern sorted t terms.0.0 terms.0.1
            g c has_last last k in
        tried fuel (deleter_of g c has_last last) (deleter_of g' c' false last') t l
          (not (is_deleted valid tree t)) run
        ∙ elim (Bool-cases (is_deleted valid tree t)) [
          | inl gone ↦
              rw gone (collect_rest (suc fuel) l g' c' false last' terms.1 k' (omega arith))
          | inr stays ↦
              rw (stays, collect_rest fuel l g' c' false last' terms.1 k' (omega arith)) refl
        ]
