-- ===== src/Counts/Lasting.antt =====
-- The lasting counts: what `get_addition_count` of src/main/cpp/patch/triple_store.cc answers behind
-- `flush_addition_counts`.
use ostrich.Base.{ℕ, ◌≡◌, refl, ap, ◌∙◌, true, false, ◌||◌, Option, none, some, List, [], ◌∷◌}
use mathlib.Core.Path.{subst}
use ostrich.Base.{arith, All, ltb, leb, if◌then◌else◌, Bool-cases, inl, inr}
use ostrich.Triple.{Triple, TripleVersion}
use ostrich.Counts.{
  HashDb, get_addition_count, flush_records, flush_addition_counts, min_addition_count, or_zero,
}
use ostrich.Counts.Positions.{count}
use ostrich.Counts.Additions.{
  Addition, IsProper, has_variable, matches, same_version, same_version-equal, differs,
  version_with, counts_after, counts_after-count, is_key, flush_records-other,
  flush_addition_counts-first,
}

abbrev Records : Type 0
Records = List (TripleVersion × ℕ)

abbrev pub lookup : TripleVersion → Records → Option ℕ
lookup v [] = none
lookup v (r ∷ l) = if same_version r.0 v then some r.1 else lookup v l

-- The count that is saved, and the one that is kept otherwise.
abbrev saved : Option ℕ → Option ℕ → Option ℕ
saved none old = old
saved (some n) old = if leb min_addition_count n then some n else old

module _ {S : Type 0} (db : HashDb S TripleVersion ℕ) where
  abbrev pub AreDistinct : Records → Type 0
  AreDistinct [] = Unit
  AreDistinct (r ∷ l) = (is_key db r.0 l ≡ false) × AreDistinct l

  -- The records of a store, in the order of its cursor.
  abbrev pub AreRecords : S → Records → Type 0
  AreRecords m l = AreDistinct l × ((v : TripleVersion) → lookup v l ≡ db.get v m)

  flush_records-saved :
      (v : TripleVersion) (l : Records) (m : S)
      → AreDistinct l
      → db.get v (flush_records db l m).1 ≡ saved (lookup v l) (db.get v m)
  unfolding flush_records
  flush_records-saved v [] m d = refl
  flush_records-saved v ((w, n) ∷ l) m d = elim (Bool-cases (same_version w v)) [
    | inl same ↦
        let alone : is_key db v l ≡ false =
          subst (λ u. is_key db u l ≡ false) (same_version-equal w v same) d.0 in
        elim (Bool-cases (leb min_addition_count n)) [
          | inl e ↦
              rw (e, same, e, flush_records-other db v l (db.set w n m) alone)
                (subst (λ u. db.get u (db.set w n m) ≡ some n) (same_version-equal w v same)
                  (db.get-set_same w n m))
          | inr e ↦ rw (e, same, e) (flush_records-other db v l m alone)
        ]
    | inr other ↦ elim (Bool-cases (leb min_addition_count n)) [
      | inl e ↦
          rw (e, other)
            (flush_records-saved v l (db.set w n m) d.1
              ∙ ap (saved (lookup v l)) (db.get-set_other w v n m (differs w v other)))
      | inr e ↦ rw (e, other) (flush_records-saved v l m d.1)
    ]
  ]

  -- What is saved for a count.
  saved-count :
      (o old : Option ℕ) (n : ℕ)
      → or_zero o ≡ n
      → or_zero (saved o old) ≡ (if ltb n min_addition_count then or_zero old else n)
  saved-count none old n e = ground arith
  saved-count (some k) old n e = ground arith

  -- For triples of terms, where the temporary store has counted some additions and is flushed into the
  -- lasting counts, the count of a patch and of a pattern with a variable is then the number of those
  -- additions of the patch whose triple matches the pattern, if that is at least 100 and the cursor
  -- does not find its record first; otherwise it is what the lasting counts answered before.
  pub get_addition_count-flushed :
      (patch_id : ℕ) (pattern : Triple) (additions : List Addition) (first : TripleVersion × ℕ)
      (records : Records) (m : S)
      → All (λ a. IsProper a.1) additions
      → has_variable pattern ≡ true
      → AreRecords (counts_after db additions) (first ∷ records)
      → get_addition_count db patch_id pattern (flush_addition_counts db (first ∷ records) m).1 ≡ (
          if same_version first.0 (version_with db patch_id pattern)
            || ltb (count (matches patch_id pattern) additions) min_addition_count
          then get_addition_count db patch_id pattern m
          else count (matches patch_id pattern) additions)
  unfolding get_addition_count flush_addition_counts
  get_addition_count-flushed patch_id pattern additions first records m h v (distinct, agree) =
      let key = version_with db patch_id pattern in
      elim (Bool-cases (same_version first.0 key)) [
        | inl same ↦ rw same (
            ap or_zero (
              flush_addition_counts-first db key first.1 records m (
                subst (λ u. is_key db u records ≡ false) (same_version-equal first.0 key same)
                  distinct.0)))
        | inr other ↦ rw other (
            ap or_zero (flush_records-saved key records m distinct.1)
            ∙ saved-count (lookup key records) (db.get key m)
                (count (matches patch_id pattern) additions)
                (ap or_zero (
                    subst
                      (λ b.
                        (if b then some first.1 else lookup key records)
                        ≡ db.get key (counts_after db additions))
                      other (agree key))
                  ∙ counts_after-count db patch_id pattern additions h v))
      ]
