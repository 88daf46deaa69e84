-- ===== src/Comparator/Keys.antt =====
-- What an order of the keys has to do for the code that walks the trees, and that the comparators of the
-- three indexes do it, for a dictionary that orders its ids.
use ostrich.Base.{ℕ, suc, ◌+◌, ◌*◌, ◌≡◌, ◌<◌, refl, ◌∙◌, ap, Bool, true, false, ◌&&◌}
use ostrich.Base.{arith, ltb, ◌==◌, if◌then◌else◌, Bool-cases, inl, inr}
use ostrich.Base.Int.{ℤ}
use ostrich.Delta.{is_zero, is_negative}
use ostrich.Triple.{Triple, triple, ComponentOrder, spo, pos_order, osp, equals}
use ostrich.Comparator.{
  max_id, component, Dictionary, compare_by, compare_keys, comp_s, comp_p, comp_o,
}

-- A rank for each key. A triple that is no key, because of an id that is reserved, has the rank 0, and
-- nothing is asked of the comparator there.
pub record KeyRanks (compare : Triple → Triple → ℤ) : Type 0 where
  pub rank : Triple → ℕ
  pub zero_law :
      (a b : Triple) → 0 < rank a → 0 < rank b → is_zero (compare a b) ≡ (rank a == rank b)
  pub negative_law :
      (a b : Triple) → 0 < rank a → 0 < rank b → is_negative (compare a b) ≡ ltb (rank a) (rank b)
  pub equals_law : (a b : Triple) → 0 < rank a → 0 < rank b → equals a b ≡ (rank a == rank b)
  pub null_law : (t : Triple) → 0 < rank t → is_negative (compare (triple 0 0 0) t) ≡ true

-- The ids of terms: 0 and the largest number are reserved.
abbrev pub is_id : ℕ → Bool
is_id a = ltb 0 a && ltb a max_id

-- The comparison of a dictionary orders its ids, of which there are less than 2^64.
pub record TermRanks (dict : ℕ → ℕ → ℤ) : Type 0 where
  pub rank : ℕ → ℕ
  pub bounded : (a : ℕ) → is_id a ≡ true → rank a < max_id
  pub zero_law :
      (a b : ℕ) → is_id a ≡ true → is_id b ≡ true → is_zero (dict a b) ≡ (rank a == rank b)
  pub negative_law :
      (a b : ℕ) → is_id a ≡ true → is_id b ≡ true → is_negative (dict a b) ≡ ltb (rank a) (rank b)
  pub injective : (a b : ℕ) → is_id a ≡ true → is_id b ≡ true → rank a ≡ rank b → a ≡ b

abbrev pub lex : ℕ → ℕ → ℕ → ℕ
lex x y z = (x * max_id + y) * max_id + z

abbrev pub is_key : Triple → Bool
is_key t = is_id t.subject && (is_id t.predicate && is_id t.object)

component-dict :
    (dict : ℕ → ℕ → ℤ) (a b : ℕ) → is_id a ≡ true → is_id b ≡ true → component dict a b ≡ dict a b
unfolding component
component-dict dict a b h k = ground arith

component-null :
    (dict : ℕ → ℕ → ℤ) (b : ℕ)
    → is_id b ≡ true
    → (is_zero (component dict 0 b) ≡ false) × (is_negative (component dict 0 b) ≡ true)
unfolding component
component-null dict b k = ground arith

-- What a comparison of one component says about two ranks.
abbrev pub Orders : ℤ → ℕ → ℕ → Type 0
Orders c x y = (is_zero c ≡ (x == y)) × (is_negative c ≡ ltb x y)

compare_by-Orders :
    (c1 c2 c3 : Triple → Triple → ℤ) (a b : Triple) (x1 x2 x3 y1 y2 y3 : ℕ)
    → x2 < max_id
    → x3 < max_id
    → y2 < max_id
    → y3 < max_id
    → Orders (c1 a b) x1 y1
    → Orders (c2 a b) x2 y2
    → Orders (c3 a b) x3 y3
    → Orders (compare_by c1 c2 c3 a b) (lex x1 x2 x3) (lex y1 y2 y3)
unfolding compare_by
compare_by-Orders c1 c2 c3 a b x1 x2 x3 y1 y2 y3 h2 h3 k2 k3 o1 o2 o3 =
    elim (Bool-cases (x1 == y1)) [
      | inl e1 ↦ elim (Bool-cases (x2 == y2)) [
        | inl e2 ↦ rw (o1.0, e1, o2.0, e2) (o3.0 ∙ ground arith, o3.1 ∙ ground arith)
        | inr n2 ↦ rw (o1.0, e1, o2.0, n2) (ground arith, ground arith)
      ]
      | inr n1 ↦ rw (o1.0, n1) (ground arith, ground arith)
    ]

pub record DictionaryRanks (d : Dictionary) : Type 0 where
  pub subjects : TermRanks d.subjects
  pub predicates : TermRanks d.predicates
  pub objects : TermRanks d.objects

-- The rank of a key in each index.
abbrev pub key_rank : {d : Dictionary} → ComponentOrder → DictionaryRanks d → Triple → ℕ
key_rank o k t =
    let s = k.subjects.rank t.subject in
    let p = k.predicates.rank t.predicate in
    let j = k.objects.rank t.object in
    if is_key t
    then suc (elim o [ spo ↦ lex s p j | pos_order ↦ lex p j s | osp ↦ lex j s p ])
    else 0

pub ranked : (b : Bool) (n : ℕ) → 0 < (if b then suc n else 0) → b ≡ true
ranked true n h = refl
ranked false n h = absurd (omega arith)

key_parts :
    (t : Triple)
    → is_key t ≡ true
    → (is_id t.subject ≡ true) × (is_id t.predicate ≡ true) × (is_id t.object ≡ true)
key_parts t h = ground arith

same : (a b : ℕ) → (a == b) ≡ true → a ≡ b
same a b e = ground arith

module _ (dict : ℕ → ℕ → ℤ) (k : TermRanks dict) where
  term-Orders :
      (a b : ℕ)
      → is_id a ≡ true
      → is_id b ≡ true
      → Orders (component dict a b) (k.rank a) (k.rank b)
  term-Orders a b h h' =
      rw (component-dict dict a b h h') (k.zero_law a b h h', k.negative_law a b h h')

  term-equal : (a b : ℕ) → is_id a ≡ true → is_id b ≡ true → (a == b) ≡ (k.rank a == k.rank b)
  term-equal a b h h' = elim (Bool-cases (a == b)) [
    | inl e ↦ ground (arith, ap k.rank {x = a} {y = b} (same a b e))
    | inr n ↦ ground (arith, k.injective a b h h')
  ]

module _ (d : Dictionary) (k : DictionaryRanks d) where
  next-Orders : (c : ℤ) (x y : ℕ) → Orders c x y → Orders c (suc x) (suc y)
  next-Orders c x y h = (h.0 ∙ ground arith, h.1 ∙ ground arith)

  -- Where the comparisons of a dictionary order its ids, the comparator of each index orders the triples
  -- of ids, of which none is 0 or the largest number: it gives 0 exactly where both triples have the same
  -- rank, and a negative number exactly where the rank of the first is less. The rank is that of the
  -- components in the order of the index, the first component first.
  pub keys-Orders :
      (o : ComponentOrder) (a b : Triple)
      → is_key a ≡ true
      → is_key b ≡ true
      → Orders (compare_keys o d a b) (key_rank o k a) (key_rank o k b)
  unfolding compare_keys comp_s comp_p comp_o
  keys-Orders spo a b h h' =
      let x = key_parts a h in
      let y = key_parts b h' in
      rw (h, h')
        (next-Orders _ _ _ (
          compare_by-Orders (comp_s d) (comp_p d) (comp_o d) a b (k.subjects.rank a.subject)
            (k.predicates.rank a.predicate) (k.objects.rank a.object) (k.subjects.rank b.subject)
            (k.predicates.rank b.predicate) (k.objects.rank b.object)
            (k.predicates.bounded a.predicate x.1) (k.objects.bounded a.object x.2)
            (k.predicates.bounded b.predicate y.1) (k.objects.bounded b.object y.2)
            (term-Orders d.subjects k.subjects a.subject b.subject x.0 y.0)
            (term-Orders d.predicates k.predicates a.predicate b.predicate x.1 y.1)
            (term-Orders d.objects k.objects a.object b.object x.2 y.2)))
  keys-Orders pos_order a b h h' =
      let x = key_parts a h in
      let y = key_parts b h' in
      rw (h, h')
        (next-Orders _ _ _ (
          compare_by-Orders (comp_p d) (comp_o d) (comp_s d) a b (k.predicates.rank a.predicate)
            (k.objects.rank a.object) (k.subjects.rank a.subject) (k.predicates.rank b.predicate)
            (k.objects.rank b.object) (k.subjects.rank b.subject) (k.objects.bounded a.object x.2)
            (k.subjects.bounded a.subject x.0) (k.objects.bounded b.object y.2)
            (k.subjects.bounded b.subject y.0)
            (term-Orders d.predicates k.predicates a.predicate b.predicate x.1 y.1)
            (term-Orders d.objects k.objects a.object b.object x.2 y.2)
            (term-Orders d.subjects k.subjects a.subject b.subject x.0 y.0)))
  keys-Orders osp a b h h' =
      let x = key_parts a h in
      let y = key_parts b h' in
      rw (h, h')
        (next-Orders _ _ _ (
          compare_by-Orders (comp_o d) (comp_s d) (comp_p d) a b (k.objects.rank a.object)
            (k.subjects.rank a.subject) (k.predicates.rank a.predicate) (k.objects.rank b.object)
            (k.subjects.rank b.subject) (k.predicates.rank b.predicate)
            (k.subjects.bounded a.subject x.0) (k.predicates.bounded a.predicate x.1)
            (k.subjects.bounded b.subject y.0) (k.predicates.bounded b.predicate y.1)
            (term-Orders d.objects k.objects a.object b.object x.2 y.2)
            (term-Orders d.subjects k.subjects a.subject b.subject x.0 y.0)
            (term-Orders d.predicates k.predicates a.predicate b.predicate x.1 y.1)))

  pub null-first :
      (o : ComponentOrder) (t : Triple)
      → is_key t ≡ true
      → is_negative (compare_keys o d (triple 0 0 0) t) ≡ true
  unfolding compare_keys compare_by comp_s comp_p comp_o
  null-first spo t h = let (z, n) = component-null d.subjects t.subject (key_parts t h).0 in rw z n
  null-first pos_order t h =
      let (z, n) = component-null d.predicates t.predicate (key_parts t h).1 in rw z n
  null-first osp t h = let (z, n) = component-null d.objects t.object (key_parts t h).2 in rw z n

  lex-equal :
      (x1 x2 x3 y1 y2 y3 : ℕ)
      → x2 < max_id
      → x3 < max_id
      → y2 < max_id
      → y3 < max_id
      → (suc (lex x1 x2 x3) == suc (lex y1 y2 y3)) ≡ ((x1 == y1) && ((x2 == y2) && (x3 == y3)))
  lex-equal x1 x2 x3 y1 y2 y3 h2 h3 k2 k3 = ground arith

  pub keys-equal :
      (o : ComponentOrder) (a b : Triple)
      → is_key a ≡ true
      → is_key b ≡ true
      → equals a b ≡ (key_rank o k a == key_rank o k b)
  unfolding equals
  keys-equal spo a b h h' =
      let x = key_parts a h in
      let y = key_parts b h' in
      rw
        (
          term-equal d.subjects k.subjects a.subject b.subject x.0 y.0,
          term-equal d.predicates k.predicates a.predicate b.predicate x.1 y.1,
          term-equal d.objects k.objects a.object b.object x.2 y.2,
          h,
          h',
          lex-equal (k.subjects.rank a.subject) (k.predicates.rank a.predicate)
              (k.objects.rank a.object) (k.subjects.rank b.subject) (k.predicates.rank b.predicate)
              (k.objects.rank b.object) (k.predicates.bounded a.predicate x.1)
              (k.objects.bounded a.object x.2) (k.predicates.bounded b.predicate y.1)
              (k.objects.bounded b.object y.2),
        )
        (ground arith)
  keys-equal pos_order a b h h' =
      let x = key_parts a h in
      let y = key_parts b h' in
      rw
        (
          term-equal d.subjects k.subjects a.subject b.subject x.0 y.0,
          term-equal d.predicates k.predicates a.predicate b.predicate x.1 y.1,
          term-equal d.objects k.objects a.object b.object x.2 y.2,
          h,
          h',
          lex-equal (k.predicates.rank a.predicate) (k.objects.rank a.object)
              (k.subjects.rank a.subject) (k.predicates.rank b.predicate) (k.objects.rank b.object)
              (k.subjects.rank b.subject) (k.objects.bounded a.object x.2)
              (k.subjects.bounded a.subject x.0) (k.objects.bounded b.object y.2)
              (k.subjects.bounded b.subject y.0),
        )
        (ground arith)
  keys-equal osp a b h h' =
      let x = key_parts a h in
      let y = key_parts b h' in
      rw
        (
          term-equal d.subjects k.subjects a.subject b.subject x.0 y.0,
          term-equal d.predicates k.predicates a.predicate b.predicate x.1 y.1,
          term-equal d.objects k.objects a.object b.object x.2 y.2,
          h,
          h',
          lex-equal (k.objects.rank a.object) (k.subjects.rank a.subject)
              (k.predicates.rank a.predicate) (k.objects.rank b.object) (k.subjects.rank b.subject)
              (k.predicates.rank b.predicate) (k.subjects.bounded a.subject x.0)
              (k.predicates.bounded a.predicate x.1) (k.subjects.bounded b.subject y.0)
              (k.predicates.bounded b.predicate y.1),
        )
        (ground arith)

  -- The comparator of each index orders the keys.
  abbrev pub compare_keys-KeyRanks : (o : ComponentOrder) → KeyRanks (compare_keys o d)
  compare_keys-KeyRanks o = record {
    rank = key_rank o k;
    zero_law = λ a b h h'. (keys-Orders o a b (ranked _ _ h) (ranked _ _ h')).0;
    negative_law = λ a b h h'. (keys-Orders o a b (ranked _ _ h) (ranked _ _ h')).1;
    equals_law = λ a b h h'. keys-equal o a b (ranked _ _ h) (ranked _ _ h');
    null_law = λ t h. null-first o t (ranked _ _ h);
  }
