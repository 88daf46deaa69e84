-- ===== src/Counts/Positions.antt =====
-- The positions of a triple count the triples before it that agree with it on each pattern.
use ostrich.Base.{
  ℕ, zero, suc, ◌+◌, ◌*◌, ◌^◌, ◌≡◌, ◌≢◌, ◌<◌, refl, ◌∙◌, ap, Bool, true, false, ◌&&◌, Option, none,
  some, List, [], ◌∷◌, bit_or,
}
use native.Mathlib.Nat.{mod-eq_of_lt}
use mathlib.Core.Path.{subst}
use ostrich.Base.{arith, ◌==◌, if◌then◌else◌, Bool-cases, inl, inr, All, ==_iff}
use ostrich.Base.Bits.{bit_or_high, bit_or_shifted}
use ostrich.Base.Int.{pos}
use ostrich.Positions.{PatchPositions}
use ostrich.Triple.{Triple, triple}
use ostrich.Counts.{
  HashDb, Counters, contains_and_increment_position, positions, no_counters, pair_hash, hash_sp,
  hash_so, hash_po, or_zero,
}

-- The number of elements with a property.
abbrev pub count {ℓ} : {A : Type ℓ} → (A → Bool) → List A → ℕ
count p [] = 0
count p (a ∷ l) = if p a then suc (count p l) else count p l

-- What the store answers for a key that was incremented `n` times.
abbrev pub as_count : ℕ → Option ℕ
as_count zero = none
as_count (suc n) = some (suc n)

module _ {S : Type 0} (db : HashDb S ℕ ℕ) where
  -- The store counts the triples by a key.
  Tracks : (Triple → ℕ) → List Triple → S → Type 0
  Tracks hash ts m = (k : ℕ) → db.get k m ≡ as_count (count (λ t. hash t == k) ts)

  or_zero-as_count : (n : ℕ) → or_zero (as_count n) ≡ n
  or_zero-as_count zero = refl
  or_zero-as_count (suc n) = refl

  unequal : (a b : ℕ) → (a == b) ≡ false → a ≢ b
  unequal a b h = ground arith

  get-set_equal : (k j v : ℕ) (m : S) → k ≡ j → db.get j (db.set k v m) ≡ some v
  get-set_equal k j v m e = subst (λ i. db.get i (db.set k v m) ≡ some v) e (db.get-set_same k v m)

  incremented-Tracks :
      (hash : Triple → ℕ) (t : Triple) (ts : List Triple) (m : S)
      → Tracks hash ts m
      → ((contains_and_increment_position db (hash t) m).0 ≡ count (λ u. hash u == hash t) ts)
        × Tracks hash (t ∷ ts) (contains_and_increment_position db (hash t) m).1
  unfolding Tracks contains_and_increment_position
  incremented-Tracks hash t ts m h =
      let old : or_zero (db.get (hash t) m) ≡ count (λ u. hash u == hash t) ts =
        ap or_zero (h (hash t)) ∙ or_zero-as_count _ in
      (
        old,
        λ k. elim (Bool-cases (hash t == k)) [
          | inl e ↦
              let eq : hash t ≡ k = (==_iff (hash t) k).0 e in
              rw e (
                get-set_equal (hash t) k _ m eq
                ∙ ap some (omega (arith, old, ap (λ j. count (λ u. hash u == j) ts) eq)))
          | inr e ↦ rw e (db.get-set_other (hash t) k _ m (unequal (hash t) k e) ∙ h k)
        ],
      )

  -- The counters after the positions of these triples, the latest of them first.
  unfoldable pub counters_after : List Triple → Counters S
  counters_after [] = no_counters db
  counters_after (t ∷ ts) = (positions db t (counters_after ts)).1

  record TracksAll (ts : List Triple) (c : Counters S) : Type 0 where
    sp : Tracks hash_sp ts c.sp
    so : Tracks hash_so ts c.so
    s : Tracks (λ t. t.subject) ts c.s
    po : Tracks hash_po ts c.po
    p : Tracks (λ t. t.predicate) ts c.p
    o : Tracks (λ t. t.object) ts c.o
    any : c.any ≡ count (λ t. true) ts

  empty-Tracks : (hash : Triple → ℕ) → Tracks hash [] db.empty
  unfolding Tracks
  empty-Tracks hash k = db.get-empty k

  counters_after-TracksAll : (ts : List Triple) → TracksAll ts (counters_after ts)
  unfolding counters_after positions
  counters_after-TracksAll [] = record {
    sp = empty-Tracks _;
    so = empty-Tracks _;
    s = empty-Tracks _;
    po = empty-Tracks _;
    p = empty-Tracks _;
    o = empty-Tracks _;
    any = refl;
  }
  counters_after-TracksAll (t ∷ ts) =
      let h = counters_after-TracksAll ts in
      record {
        sp = (incremented-Tracks hash_sp t ts _ h.sp).1;
        so = (incremented-Tracks hash_so t ts _ h.so).1;
        s = (incremented-Tracks (λ t. t.subject) t ts _ h.s).1;
        po = (incremented-Tracks hash_po t ts _ h.po).1;
        p = (incremented-Tracks (λ t. t.predicate) t ts _ h.p).1;
        o = (incremented-Tracks (λ t. t.object) t ts _ h.o).1;
        any = omega (arith, h.any);
      }

  -- What the positions of `t` are after those of `ts`, by the keys of the stores.
  abbrev counted_by_key : Triple → List Triple → PatchPositions
  counted_by_key t ts = record {
    sp = pos (count (λ u. hash_sp u == hash_sp t) ts);
    so = pos (count (λ u. hash_so u == hash_so t) ts);
    s = pos (count (λ u. u.subject == t.subject) ts);
    po = pos (count (λ u. hash_po u == hash_po t) ts);
    p = pos (count (λ u. u.predicate == t.predicate) ts);
    o = pos (count (λ u. u.object == t.object) ts);
    any = pos (count (λ u. true) ts);
  }

  positions-keys :
      (t : Triple) (ts : List Triple) → (positions db t (counters_after ts)).0 ≡ counted_by_key t ts
  unfolding positions
  positions-keys t ts =
      let h = counters_after-TracksAll ts in
      rw
        (
          (incremented-Tracks hash_sp t ts _ h.sp).0,
          (incremented-Tracks hash_so t ts _ h.so).0,
          (incremented-Tracks (λ t. t.subject) t ts _ h.s).0,
          (incremented-Tracks hash_po t ts _ h.po).0,
          (incremented-Tracks (λ t. t.predicate) t ts _ h.p).0,
          (incremented-Tracks (λ t. t.object) t ts _ h.o).0,
          h.any,
        )
        refl

-- Components that the keys tell apart.
abbrev pub AreSmall : Triple → Type 0
AreSmall t = (t.subject < 2 ^ 16) × (t.predicate < 2 ^ 16) × (t.object < 2 ^ 48)

pair_hash-sum : (a b : ℕ) → a < 2 ^ 16 → b < 2 ^ 48 → pair_hash a b ≡ a + b * 2 ^ 16
unfolding pair_hash
pair_hash-sum a b h k =
    ap (λ (t : ℕ). bit_or a t) (mod-eq_of_lt (omega arith)) ∙ bit_or_high 16 a b h

pair_hash-equal :
    (a b c d : ℕ)
    → a < 2 ^ 16
    → b < 2 ^ 48
    → c < 2 ^ 16
    → d < 2 ^ 48
    → (pair_hash a b == pair_hash c d) ≡ ((a == c) && (b == d))
pair_hash-equal a b c d ha hb hc hd =
    rw (pair_hash-sum a b ha hb, pair_hash-sum c d hc hd) (ground arith)

count-same :
    {A : Type 0} (P : A → Type 0) (p q : A → Bool) (l : List A)
    → All P l
    → ((a : A) → P a → p a ≡ q a)
    → count p l ≡ count q l
count-same P p q [] h same = refl
count-same P p q (a ∷ l) h same = rw (same a h.0, count-same P p q l h.1 same) refl

-- The triples before that agree with a triple on each pattern.
abbrev pub counted : Triple → List Triple → PatchPositions
counted t ts = record {
  sp = pos (count (λ u. (u.subject == t.subject) && (u.predicate == t.predicate)) ts);
  so = pos (count (λ u. (u.subject == t.subject) && (u.object == t.object)) ts);
  s = pos (count (λ u. u.subject == t.subject) ts);
  po = pos (count (λ u. (u.predicate == t.predicate) && (u.object == t.object)) ts);
  p = pos (count (λ u. u.predicate == t.predicate) ts);
  o = pos (count (λ u. u.object == t.object) ts);
  any = pos (count (λ u. true) ts);
}

-- A subject with bit 16 hides a predicate 1.
high : (s : ℕ) → s < 2 ^ 16 → pair_hash (s + 2 ^ 16) 1 ≡ s + 2 ^ 16
unfolding pair_hash
high s h = bit_or_shifted 16 s 1 1 h

same_key : (s : ℕ) → (s + 1 * 2 ^ 16 == s + 2 ^ 16) ≡ true
same_key s = ground arith

module _ {S : Type 0} (db : HashDb S ℕ ℕ) where
  -- For triples whose subject and predicate lie below 2^16 and whose object lies below 2^48, the
  -- positions of a triple are, for each pattern, the number of the triples that were positioned before
  -- and agree with it on the bound components of the pattern.
  pub positions-counted :
      (t : Triple) (ts : List Triple)
      → AreSmall t
      → All AreSmall ts
      → (positions db t (counters_after db ts)).0 ≡ counted t ts
  unfolding hash_sp hash_so hash_po
  positions-counted t ts h hs =
      positions-keys db t ts
      ∙ rw
          (
            count-same AreSmall _ (λ u. (u.subject == t.subject) && (u.predicate == t.predicate)) ts
                hs
                (λ u k.
                  pair_hash-equal u.subject u.predicate t.subject t.predicate k.0 (omega arith) h.0
                    (omega arith)),
            count-same AreSmall _ (λ u. (u.subject == t.subject) && (u.object == t.object)) ts hs
                (λ u k. pair_hash-equal u.subject u.object t.subject t.object k.0 k.2 h.0 h.2),
            count-same AreSmall _ (λ u. (u.predicate == t.predicate) && (u.object == t.object)) ts
                hs
                (λ u k. pair_hash-equal u.predicate u.object t.predicate t.object k.1 k.2 h.1 h.2),
          )
          refl

  -- Two triples whose subjects differ by 2^16 are counted as one pattern with their predicate 1: after
  -- the first of them alone the position of the second for its subject and predicate is 1, not 0.
  pub positions_collide :
      (s o o' : ℕ)
      → s < 2 ^ 16
      → (positions db (triple (s + 2 ^ 16) 1 o') (counters_after db (triple s 1 o ∷ []))).0.sp
        ≡ pos 1
  unfolding hash_sp
  positions_collide s o o' h =
      ap (λ r. r.sp) (positions-keys db (triple (s + 2 ^ 16) 1 o') (triple s 1 o ∷ []))
      ∙ rw (pair_hash-sum s 1 h (omega arith), high s h, same_key s) refl
