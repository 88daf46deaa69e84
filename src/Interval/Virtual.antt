-- ===== src/Interval/Virtual.antt =====
-- `get_size`, `get_index` and `get_element_at` against the "virtual" vector of the patch ids in the
-- list, where an open interval ends at the outer limit.
use ostrich.Base.{ℕ, zero, suc, ◌+◌, ◌-◌, ◌≡◌, ◌≤◌, refl, ap, ◌∙◌, ◌&&◌, List, [], ◌∷◌, ◌++◌}
use ostrich.Base.{arith, leb, ltb, ◌==◌, if◌then◌else◌, length, length-append, All}
use ostrich.Base.Int.{ℤ, pos, negsuc, sub_ℕ, ◌+ℤ◌, ◌-ℤ◌}
use ostrich.Interval.{Interval, IntervalList, max_value, range}
use ostrich.Interval.{size_from, get_size, index_from, get_index, element_from, get_element_at}

abbrev pub span : ℕ → ℕ → List ℕ
span start zero = []
span start (suc n) = start ∷ span (start + 1) n

abbrev pub values : ℕ → ℕ → List Interval → List ℕ
values max outer [] = []
values max outer (i ∷ m) = span i.0 (max_value max outer i - i.0) ++ values max outer m

-- No interval starts above its end: the outer limit is not below the start of an open one.
abbrev pub Reaches : ℕ → ℕ → List Interval → Type 0
Reaches max outer = All (λ i. i.0 ≤ max_value max outer i)

-- The index of the first `v`, counted from `k`, or -1.
abbrev pub index_of : ℕ → ℕ → List ℕ → ℤ
index_of k v [] = negsuc 0
index_of k v (x ∷ xs) = if x == v then pos k else index_of (k + 1) v xs

abbrev pub element_or : ℕ → ℕ → List ℕ → ℕ
element_or d n [] = d
element_or d zero (x ∷ xs) = x
element_or d (suc n) (x ∷ xs) = element_or d n xs

length-span : (start n : ℕ) → length (span start n) ≡ n
length-span start zero = refl
length-span start (suc n) = ap suc (length-span (start + 1) n)

index_of-span :
    (k v start n : ℕ) (ys : List ℕ)
    → index_of k v (span start n ++ ys)
      ≡ (if leb start v && ltb v (start + n) then pos (k + (v - start)) else index_of (k + n) v ys)
index_of-span k v start zero ys = ground arith
index_of-span k v start (suc n) ys = ground (arith, index_of-span (k + 1) v (start + 1) n ys)

element_or-span :
    (d i start n : ℕ) (ys : List ℕ)
    → element_or d i (span start n ++ ys) ≡ (if ltb i n then start + i else element_or d (i - n) ys)
element_or-span d i start zero ys = ground arith
element_or-span d zero start (suc n) ys = ground arith
element_or-span d (suc i) start (suc n) ys = ground (arith, element_or-span d i (start + 1) n ys)

abbrev pub width : ℕ → ℕ → Interval → ℕ
width max outer i = max_value max outer i - i.0

pub advance :
    (max outer k : ℕ) (i : Interval)
    → i.0 ≤ max_value max outer i
    → pos k +ℤ range max outer i ≡ pos (k + width max outer i)
unfolding ◌+ℤ◌
advance max outer k (start, end) h = ground arith

pub offset : (k v start : ℕ) → start ≤ v → pos k +ℤ sub_ℕ v start ≡ pos (k + (v - start))
unfolding ◌+ℤ◌
offset k v start h = ground arith

step_into : (k n start : ℕ) → pos start +ℤ (pos (k + n) -ℤ pos k) ≡ pos (start + n)
unfolding ◌+ℤ◌ ◌-ℤ◌
step_into k n start = ground arith

size_from-values :
    (max outer k : ℕ) (m : List Interval)
    → Reaches max outer m
    → size_from max outer (pos k) m ≡ pos (k + length (values max outer m))
unfolding size_from
size_from-values max outer k [] h = ground arith
size_from-values max outer k (i ∷ m) h = rw (advance max outer k i h.0) (
    size_from-values max outer (k + width max outer i) m h.1
    ∙ ap pos (
        omega (
          arith,
          length-append (span i.0 (width max outer i)) (values max outer m),
          length-span i.0 (width max outer i),
        )))

index_from-values :
    (max outer v k : ℕ) (m : List Interval)
    → Reaches max outer m
    → index_from max outer v (pos k) m ≡ index_of k v (values max outer m)
unfolding index_from
index_from-values max outer v k [] h = refl
index_from-values max outer v k (i ∷ m) h = rw (advance max outer k i h.0) (
    ground (
      arith,
      offset k v i.0,
      index_from-values max outer v (k + width max outer i) m h.1,
      index_of-span k v i.0 (width max outer i) (values max outer m),
    ))

element_from-values :
    (max outer n k : ℕ) (m : List Interval)
    → Reaches max outer m
    → element_from max outer (pos (k + n)) (pos k) m ≡ pos (element_or max n (values max outer m))
unfolding element_from
element_from-values max outer n k [] h = refl
element_from-values max outer n k (i ∷ m) h =
    rw
      (
        advance max outer k i h.0,
        step_into k n i.0,
        element_or-span max n i.0 (width max outer i) (values max outer m),
      )
      (ground (
        arith,
        element_from-values max outer (n - width max outer i) (k + width max outer i) m h.1,
      ))

-- If the outer limit is not below the start of an open interval and no interval starts above its end,
-- then the three functions read the virtual vector: its size, the index of the first `v` in it or -1,
-- and the element at an index or `max` behind its end.
pub virtual_vector :
    (outer v n : ℕ) (l : IntervalList)
    → Reaches l.max outer l.intervals
    → (get_size outer l ≡ pos (length (values l.max outer l.intervals)))
      × (get_index v outer l ≡ index_of 0 v (values l.max outer l.intervals))
      × (get_element_at (pos n) outer l ≡ pos (element_or l.max n (values l.max outer l.intervals)))
unfolding get_size get_index get_element_at
virtual_vector outer v n l h = (
  size_from-values l.max outer 0 l.intervals h ∙ ap pos (omega arith),
  index_from-values l.max outer v 0 l.intervals h,
  ap (λ k. element_from l.max outer (pos k) (pos 0) l.intervals) (omega arith)
      ∙ element_from-values l.max outer n 0 l.intervals h,
)
