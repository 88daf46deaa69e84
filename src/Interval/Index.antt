-- ===== src/Interval/Index.antt =====
-- `get_index` undoes `get_element_at`, and finds what the set holds.
use ostrich.Base.{
  ℕ, zero, suc, ◌+◌, ◌-◌, ◌≡◌, ◌<◌, ◌≤◌, refl, sym, ap, ◌∙◌, Bool, true, false, inl, inr,
  Bool-cases, ==_iff, List, [], ◌∷◌, ◌++◌,
}
use ostrich.Base.{arith, ltb→lt, ◌==◌, length}
use ostrich.Base.Int.{ltb_ℤ, ℤ, pos, negsuc}
use ostrich.Interval.{Interval, IntervalList}
use ostrich.Interval.Shape.{Chained, IsValid}
use ostrich.Interval.Covers.{covers}
use ostrich.Interval.{get_size, index_from, get_index, get_element_at}
use ostrich.Interval.Virtual.{
  Reaches, values, index_of, element_or, span, width, advance, offset, virtual_vector,
}

abbrev Ascending : ℕ → List ℕ → Type 0
Ascending low [] = Unit
Ascending low (x ∷ xs) = (low ≤ x) × Ascending (x + 1) xs

Ascending-weaken : (low high : ℕ) (xs : List ℕ) → low ≤ high → Ascending high xs → Ascending low xs
Ascending-weaken low high [] h a = tt
Ascending-weaken low high (x ∷ xs) h a = (omega arith, a.1)

Ascending-span :
    (low start n : ℕ) (ys : List ℕ)
    → low ≤ start
    → Ascending (start + n) ys
    → Ascending low (span start n ++ ys)
Ascending-span low start zero ys h a = Ascending-weaken low (start + 0) ys (omega arith) a
Ascending-span low start (suc n) ys h a = (
  h,
  Ascending-span (start + 1) (start + 1) n ys (omega arith)
      (Ascending-weaken (start + 1 + n) (start + suc n) ys (omega arith) a),
)

-- Only the last interval can be open.
values-full :
    (max outer low : ℕ) (m : List Interval)
    → low ≡ max
    → Chained max low m
    → values max outer m ≡ []
values-full max outer low [] e h = refl
values-full max outer low ((start, end) ∷ m) e h = absurd (omega arith)

values-Ascending :
    (max outer low : ℕ) (m : List Interval) → Chained max low m → Ascending low (values max outer m)
values-Ascending max outer low [] h = tt
values-Ascending max outer low ((start, end) ∷ m) h =
    Ascending-span low start (width max outer (start, end)) (values max outer m) h.0
      (elim (Bool-cases (end == max)) [
        | inl open_end ↦ rw (values-full max outer end m ((==_iff end max).0 open_end) h.3) tt
        | inr closed ↦ rw closed (
            Ascending-weaken (start + (end - start)) end (values max outer m) (omega arith)
              (values-Ascending max outer end m h.3))
      ])

element_or-low :
    (d low n : ℕ) (xs : List ℕ) → Ascending low xs → n < length xs → low ≤ element_or d n xs
element_or-low d low n [] a h = absurd (omega arith)
element_or-low d low zero (x ∷ xs) a h = a.0
element_or-low d low (suc n) (x ∷ xs) a h =
    omega (arith, element_or-low d (x + 1) n xs a.1 (omega arith))

index_of-element_or :
    (d k low n : ℕ) (xs : List ℕ)
    → Ascending low xs
    → n < length xs
    → index_of k (element_or d n xs) xs ≡ pos (k + n)
index_of-element_or d k low n [] a h = absurd (omega arith)
index_of-element_or d k low zero (x ∷ xs) a h = ground arith
index_of-element_or d k low (suc n) (x ∷ xs) a h =
    ground
      (arith, index_of-element_or d (k + 1) (x + 1) n xs a.1, element_or-low d (x + 1) n xs a.1)

-- A patch id below both limits has an index exactly if an interval holds it.
abbrev pub is_found : ℤ → Bool
is_found (pos n) = true
is_found (negsuc n) = false

index_from-covers :
    (max outer v k : ℕ) (m : List Interval)
    → Reaches max outer m
    → v < outer
    → v < max
    → is_found (index_from max outer v (pos k) m) ≡ covers v m
unfolding index_from
index_from-covers max outer v k [] h p q = refl
index_from-covers max outer v k (i ∷ m) h p q =
    rw (advance max outer k i h.0)
      (ground (arith, offset k v i.0, index_from-covers max outer v (k + width max outer i) m h.1))

below_size : (n k : ℕ) (s : ℤ) → s ≡ pos k → ltb_ℤ (pos n) s ≡ true → n < k
below_size n k s e h =
    let test : ltb_ℤ (pos n) (pos k) ≡ true = rw e at h in
    omega (arith, ltb→lt (n + 0) (k + 0) test)

pos-injective : (a b : ℕ) → pos a ≡ pos b → a ≡ b
pos-injective a b e = cc

-- On a valid list whose open interval the outer limit reaches, the index of the element at an index
-- below the size is that index.
pub get_index-get_element_at :
    (outer v n : ℕ) (l : IntervalList)
    → IsValid l
    → Reaches l.max outer l.intervals
    → get_element_at (pos n) outer l ≡ pos v
    → ltb_ℤ (pos n) (get_size outer l) ≡ true
    → get_index v outer l ≡ pos n
get_index-get_element_at outer v n l valid h e lt =
    let vs = values l.max outer l.intervals in
    let (size, index, element) = virtual_vector outer v n l h in
    let v-eq : v ≡ element_or l.max n vs = pos-injective _ _ (sym e ∙ element) in
    index
    ∙ ap (λ k. index_of 0 k vs) v-eq
    ∙ index_of-element_or l.max 0 0 n vs (values-Ascending l.max outer 0 l.intervals valid)
        (below_size n _ _ size lt)
    ∙ ap pos (omega arith)

-- If the outer limit is not below the start of an open interval and no interval starts above its end,
-- then a patch id below the outer limit and below `max` has an index exactly if it is in the set.
pub get_index-covers :
    (outer v : ℕ) (l : IntervalList)
    → Reaches l.max outer l.intervals
    → v < outer
    → v < l.max
    → is_found (get_index v outer l) ≡ covers v l.intervals
unfolding get_index
get_index-covers outer v l h p q = index_from-covers l.max outer v 0 l.intervals h p q
