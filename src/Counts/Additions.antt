-- ===== src/Counts/Additions.antt =====
-- The addition counts of a patch: what they count, and which of them last.
use ostrich.Base.{
  ℕ, zero, suc, ◌+◌, ◌≡◌, ◌≢◌, ◌<◌, refl, ◌∙◌, ap, Bool, true, false, not, ◌&&◌, ◌||◌, List, [],
  ◌∷◌,
}
use mathlib.Core.Path.{subst}
use ostrich.Base.{arith, All, any, ltb, leb, ◌==◌, if◌then◌else◌, Bool-cases, inl, inr}
use ostrich.Triple.{Triple, TripleVersion, triple, pattern_match_triple}
use ostrich.Counts.{
  HashDb, increment_addition_count, increment_addition_counts, or_zero, flush_addition_counts,
  flush_records, min_addition_count,
}
use ostrich.Counts.Positions.{count}

abbrev pub same_version : TripleVersion → TripleVersion → Bool
same_version a b =
    a.patch_id == b.patch_id
    && (a.version_of.subject == b.version_of.subject
        && (a.version_of.predicate == b.version_of.predicate
            && a.version_of.object == b.version_of.object))

abbrev one_if : Bool → ℕ
one_if true = 1
one_if false = 0

-- An addition of a triple in a patch.
abbrev pub Addition : Type 0
Addition = ℕ × Triple

-- A triple whose components are terms.
abbrev pub IsProper : Triple → Type 0
IsProper t = (0 < t.subject) × (0 < t.predicate) × (0 < t.object)

abbrev pub has_variable : Triple → Bool
has_variable pattern =
    not (ltb 0 pattern.subject && (ltb 0 pattern.predicate && ltb 0 pattern.object))

-- The additions of a patch whose triples match a pattern.
abbrev pub matches : ℕ → Triple → Addition → Bool
matches patch_id pattern (p, t) = (p == patch_id) && pattern_match_triple t pattern

abbrev version : ℕ → ℕ → ℕ → ℕ → TripleVersion
version i s p o = record { patch_id = i; version_of = triple s p o }

equal_components :
    (i j s s' p p' o o' : ℕ)
    → i ≡ j
    → s ≡ s'
    → p ≡ p'
    → o ≡ o'
    → version i s p o ≡ version j s' p' o'
equal_components i j s s' p p' o o' a b c d = λ k. version (a k) (b k) (c k) (d k)

pub same_version-equal : (a b : TripleVersion) → same_version a b ≡ true → a ≡ b
same_version-equal a b h =
    equal_components a.patch_id b.patch_id a.version_of.subject b.version_of.subject
      a.version_of.predicate b.version_of.predicate a.version_of.object b.version_of.object
      (ground arith) (ground arith) (ground arith) (ground arith)

pub same_version_refl : (a : TripleVersion) → same_version a a ≡ true
same_version_refl a = ground arith

pub differs : (a b : TripleVersion) → same_version a b ≡ false → a ≢ b
differs a b h e = distinct (subst (λ c. same_version a c ≡ true) e (same_version_refl a))
  where
    distinct : same_version a b ≡ true → ⊥
    distinct k = cc

neither : (a b : Bool) → (a || b) ≡ false → (a ≡ false) × (b ≡ false)
neither a b h = ground arith

module _ {S : Type 0} (db : HashDb S TripleVersion ℕ) where
  counted_at : TripleVersion → S → ℕ
  counted_at v m = or_zero (db.get v m)

  increment-counted_same :
      (v w : TripleVersion) (m : S)
      → v ≡ w
      → counted_at w (increment_addition_count db v m) ≡ 1 + counted_at w m
  unfolding counted_at increment_addition_count
  increment-counted_same v w m e =
      subst
        (λ u. or_zero (db.get u (db.set v (or_zero (db.get v m) + 1) m)) ≡ 1 + or_zero (db.get u m))
        e (ap or_zero (db.get-set_same v (or_zero (db.get v m) + 1) m) ∙ omega arith)

  increment-counted_at :
      (v w : TripleVersion) (m : S)
      → counted_at w (increment_addition_count db v m) ≡ one_if (same_version v w) + counted_at w m
  unfolding counted_at increment_addition_count
  increment-counted_at v w m = elim (Bool-cases (same_version v w)) [
    | inl e ↦ rw e (increment-counted_same v w m (same_version-equal v w e))
    | inr e ↦
        rw (e, db.get-set_other v w (or_zero (db.get v m) + 1) m (differs v w e)) (omega arith)
  ]

-- Exactly one of the seven patterns of a triple is a given pattern with a variable that it matches.
-- They are told apart by which components are variables.
seven-one :
    (q j a b c s p o : ℕ)
    → 0 < a
    → 0 < b
    → 0 < c
    → has_variable (triple s p o) ≡ true
    → one_if (same_version (version q 0 0 c) (version j s p o))
        + (one_if (same_version (version q 0 0 0) (version j s p o))
            + (one_if (same_version (version q 0 b c) (version j s p o))
                + (one_if (same_version (version q 0 b 0) (version j s p o))
                    + (one_if (same_version (version q a 0 c) (version j s p o))
                        + (one_if (same_version (version q a 0 0) (version j s p o))
                            + one_if (same_version (version q a b 0) (version j s p o)))))))
      ≡ one_if (matches j (triple s p o) (q, triple a b c))
unfolding pattern_match_triple
seven-one q j a b c zero zero zero ha hb hc h = ground arith
seven-one q j a b c zero zero (suc o) ha hb hc h = ground arith
seven-one q j a b c zero (suc p) zero ha hb hc h = ground arith
seven-one q j a b c zero (suc p) (suc o) ha hb hc h = ground arith
seven-one q j a b c (suc s) zero zero ha hb hc h = ground arith
seven-one q j a b c (suc s) zero (suc o) ha hb hc h = ground arith
seven-one q j a b c (suc s) (suc p) zero ha hb hc h = ground arith
seven-one q j a b c (suc s) (suc p) (suc o) ha hb hc h = ground arith

module _ {S : Type 0} (db : HashDb S TripleVersion ℕ) where
  -- The store after the counts of these additions, the latest of them first.
  unfoldable pub counts_after : List Addition → S
  counts_after [] = db.empty
  counts_after ((q, t) ∷ l) = increment_addition_counts db q t (counts_after l)

  abbrev pub version_with : ℕ → Triple → TripleVersion
  version_with patch_id pattern = record { patch_id = patch_id; version_of = pattern }

  seven-counted_at :
      (q : ℕ) (t : Triple) (w : TripleVersion) (m : S)
      → IsProper t
      → has_variable w.version_of ≡ true
      → counted_at db w (increment_addition_counts db q t m)
        ≡ one_if (matches w.patch_id w.version_of (q, t)) + counted_at db w m
  unfolding increment_addition_counts
  seven-counted_at q t w m h v =
      let a = t.subject in
      let b = t.predicate in
      let c = t.object in
      let m1 = increment_addition_count db (version q a b 0) m in
      let m2 = increment_addition_count db (version q a 0 0) m1 in
      let m3 = increment_addition_count db (version q a 0 c) m2 in
      let m4 = increment_addition_count db (version q 0 b 0) m3 in
      let m5 = increment_addition_count db (version q 0 b c) m4 in
      let m6 = increment_addition_count db (version q 0 0 0) m5 in
      omega (
        arith,
        increment-counted_at db (version q a b 0) w m,
        increment-counted_at db (version q a 0 0) w m1,
        increment-counted_at db (version q a 0 c) w m2,
        increment-counted_at db (version q 0 b 0) w m3,
        increment-counted_at db (version q 0 b c) w m4,
        increment-counted_at db (version q 0 0 0) w m5,
        increment-counted_at db (version q 0 0 c) w m6,
        seven-one q w.patch_id a b c w.version_of.subject w.version_of.predicate w.version_of.object
            h.0 h.1 h.2 v,
      )

  -- In the temporary store, the count of a patch and of a pattern with a variable is the number of the
  -- additions of that patch, among those that were counted, whose triple matches the pattern.
  pub counts_after-count :
      (patch_id : ℕ) (pattern : Triple) (l : List Addition)
      → All (λ a. IsProper a.1) l
      → has_variable pattern ≡ true
      → or_zero (db.get (version_with patch_id pattern) (counts_after l))
        ≡ count (matches patch_id pattern) l
  unfolding counts_after counted_at
  counts_after-count patch_id pattern [] h v = ap or_zero (db.get-empty _)
  counts_after-count patch_id pattern ((q, t) ∷ l) h v =
      seven-counted_at q t (record { patch_id = patch_id; version_of = pattern }) (counts_after l)
        h.0 v
      ∙ ap (λ n. one_if (matches patch_id pattern (q, t)) + n)
          (counts_after-count patch_id pattern l h.1 v)
      ∙ one_more (matches patch_id pattern (q, t)) (count (matches patch_id pattern) l)
    where
      one_more : (b : Bool) (n : ℕ) → one_if b + n ≡ (if b then suc n else n)
      one_more true n = omega arith
      one_more false n = omega arith

  abbrev pub is_key : TripleVersion → List (TripleVersion × ℕ) → Bool
  is_key v records = any (λ r. same_version r.0 v) records

  pub flush_records-other :
      (v : TripleVersion) (records : List (TripleVersion × ℕ)) (m : S)
      → is_key v records ≡ false
      → db.get v (flush_records db records m).1 ≡ db.get v m
  unfolding flush_records
  flush_records-other v [] m h = refl
  flush_records-other v ((w, n) ∷ records) m h = elim (Bool-cases (leb min_addition_count n)) [
    | inl e ↦ rw e (
        flush_records-other v records (db.set w n m) (rest h)
        ∙ db.get-set_other w v n m (differs w v (first h)))
    | inr e ↦ rw e (flush_records-other v records m (rest h))
  ]
    where
      first : is_key v ((w, n) ∷ records) ≡ false → same_version w v ≡ false
      first k = (neither (same_version w v) (is_key v records) k).0

      rest : is_key v ((w, n) ∷ records) ≡ false → is_key v records ≡ false
      rest k = (neither (same_version w v) (is_key v records) k).1

  -- The count of the first record of the temporary store is never saved, however large it is: where no
  -- other record has its key, the lasting counts answer for it what they answered before.
  pub flush_addition_counts-first :
      (v : TripleVersion) (n : ℕ) (records : List (TripleVersion × ℕ)) (m : S)
      → is_key v records ≡ false
      → db.get v (flush_addition_counts db ((v, n) ∷ records) m).1 ≡ db.get v m
  unfolding flush_addition_counts
  flush_addition_counts-first v n records m h = flush_records-other v records m h
