-- ===== src/Comparator/Range.antt =====
-- The keys between a pattern and its upper bound are the triples that match the pattern.
use ostrich.Base.{
  ℕ, zero, suc, ◌≡◌, ◌<◌, refl, sym, ◌∙◌, ap, Bool, true, false, not, ◌&&◌, ◌||◌, [], ◌∷◌,
}
use ostrich.Base.{arith, ◌==◌, if◌then◌else◌}
use ostrich.Base.Int.{ℤ, pos, negsuc}
use ostrich.Triple.{Triple, ComponentOrder, spo, pos_order, osp, pattern_match_triple}
use ostrich.Triple.Pattern.{components, bound_first}
use ostrich.Delta.{is_zero, is_negative}
use ostrich.PatchTree.Visits.{is_positive}
use ostrich.Comparator.{max_id, component, Dictionary, compare_keys, upper_bound}

-- An id of a term.
abbrev pub IsId : ℕ → Type 0
IsId a = (0 < a) × (a < max_id)

-- What the dictionary answers is zero for equal ids only.
abbrev pub Tells : (ℕ → ℕ → ℤ) → Type 0
Tells dict = (a b : ℕ) → IsId a → IsId b → is_zero (dict a b) ≡ (a == b)

-- A component of a key lies between 0 and the largest id.
variable_below : (dict : ℕ → ℕ → ℤ) (b : ℕ) → IsId b → component dict 0 b ≡ negsuc 0
unfolding component
variable_below dict b h = ground arith

variable_above : (dict : ℕ → ℕ → ℤ) (b : ℕ) → IsId b → component dict max_id b ≡ pos 1
unfolding component
variable_above dict b h = ground arith

bound_component : (dict : ℕ → ℕ → ℤ) (a b : ℕ) → IsId a → IsId b → component dict a b ≡ dict a b
unfolding component
bound_component dict a b h k = ground arith

-- A key that is not behind the triple, and an upper bound that is not before it.
abbrev pub inside : ℤ → ℤ → Bool
inside low up = not (is_positive low) && not (is_negative up)

-- The comparison of a component, and those behind it.
abbrev followed : ℤ → ℤ → ℤ
followed z rest = if is_zero z then rest else z

followed-inside :
    (z low up : ℤ) → inside (followed z low) (followed z up) ≡ (is_zero z && inside low up)
followed-inside (pos zero) low up = refl
followed-inside (pos (suc n)) low up = refl
followed-inside (negsuc n) low up = refl

last-inside : (z : ℤ) → inside z z ≡ is_zero z
last-inside (pos zero) = refl
last-inside (pos (suc n)) = refl
last-inside (negsuc n) = refl

abbrev up : ℕ → ℕ
up n = if n == 0 then max_id else n

abbrev fits : ℕ → ℕ → Bool
fits x t = x == 0 || x == t

up-bound : (x : ℕ) → 0 < x → up x ≡ x
up-bound x h = ground arith

fits-bound : (x t : ℕ) → 0 < x → fits x t ≡ (x == t)
fits-bound x t h = ground arith

-- The comparisons with the key and with its upper bound agree on a bound component.
module _ (d : ℕ → ℕ → ℤ) (law : Tells d) (x t : ℕ) (h : IsId x) (k : IsId t) where
  bound-low : component d x t ≡ d x t
  bound-low = bound_component d x t h k

  bound-up : component d (up x) t ≡ d x t
  bound-up = rw (up-bound x h.0) bound-low

  bound-fits : is_zero (d x t) ≡ fits x t
  bound-fits = law x t h k ∙ sym (fits-bound x t h.0)

  bound-step :
      (low high : ℤ)
      → inside (followed (component d x t) low) (followed (component d (up x) t) high)
        ≡ (fits x t && inside low high)
  bound-step low high =
      rw (bound-low, bound-up) (followed-inside (d x t) low high)
      ∙ ap (λ e. e && inside low high) bound-fits

  bound-last : inside (component d x t) (component d (up x) t) ≡ fits x t
  bound-last = rw (bound-low, bound-up) (last-inside (d x t)) ∙ bound-fits

-- A component of a pattern: a variable or an id.
abbrev pub IsPatternId : ℕ → Type 0
IsPatternId zero = Unit
IsPatternId (suc n) = IsId (suc n)

module _ (d1 d2 d3 : ℕ → ℕ → ℤ) (l1 : Tells d1) (l2 : Tells d2) (l3 : Tells d3) where
  inside_range :
      (x y z a b c : ℕ)
      → IsPatternId x
      → IsPatternId y
      → IsPatternId z
      → IsId a
      → IsId b
      → IsId c
      → bound_first (x ∷ y ∷ z ∷ []) ≡ true
      → inside (followed (component d1 x a) (followed (component d2 y b) (component d3 z c))) (
          followed
            (component d1 (up x) a)
            (followed (component d2 (up y) b) (component d3 (up z) c)))
        ≡ (fits x a && (fits y b && fits z c))
  inside_range zero zero zero a b c hx hy hz ha hb hc h =
      rw (variable_below d1 a ha, variable_above d1 a ha) refl
  inside_range zero zero (suc z) a b c hx hy hz ha hb hc h = ground arith
  inside_range zero (suc y) z a b c hx hy hz ha hb hc h = ground arith
  inside_range (suc x) zero zero a b c hx hy hz ha hb hc h =
      bound-step d1 l1 (suc x) a hx ha _ _
      ∙ rw (variable_below d2 b hb, variable_above d2 b hb) refl
  inside_range (suc x) zero (suc z) a b c hx hy hz ha hb hc h = ground arith
  inside_range (suc x) (suc y) zero a b c hx hy hz ha hb hc h =
      bound-step d1 l1 (suc x) a hx ha _ _
      ∙ ap (λ e. fits (suc x) a && e)
          (bound-step d2 l2 (suc y) b hy hb _ _
            ∙ rw (variable_below d3 c hc, variable_above d3 c hc) refl)
  inside_range (suc x) (suc y) (suc z) a b c hx hy hz ha hb hc h =
      bound-step d1 l1 (suc x) a hx ha _ _
      ∙ ap (λ e. fits (suc x) a && e)
          (bound-step d2 l2 (suc y) b hy hb _ _
            ∙ ap (λ e. fits (suc y) b && e) (bound-last d3 l3 (suc z) c hz hc))

abbrev pub IsProper : Triple → Type 0
IsProper t = IsId t.subject × IsId t.predicate × IsId t.object

abbrev pub IsPattern : Triple → Type 0
IsPattern t = IsPatternId t.subject × IsPatternId t.predicate × IsPatternId t.object

abbrev pub TellsAll : Dictionary → Type 0
TellsAll d = Tells d.subjects × Tells d.predicates × Tells d.objects

all_and : (a b c : Bool) → (b && (c && a)) ≡ (a && (b && c))
all_and true b c = ground arith
all_and false b c = ground arith

-- In each index, for a pattern whose bound components come first in its order: a triple of terms matches
-- the pattern exactly if the key that is the pattern does not come after it, and the key with the largest
-- id in the place of the variables does not come before it. The comparisons of the dictionary have to
-- answer zero for equal ids only.
pub compare_keys_range :
    (order : ComponentOrder) (d : Dictionary) (pattern t : Triple)
    → TellsAll d
    → IsPattern pattern
    → IsProper t
    → bound_first (components order pattern) ≡ true
    → (not (is_positive (compare_keys order d pattern t))
        && not (is_negative (compare_keys order d (upper_bound pattern) t)))
      ≡ pattern_match_triple t pattern
unfolding compare_keys upper_bound pattern_match_triple
compare_keys_range spo d pattern t l hp ht first =
    inside_range d.subjects d.predicates d.objects l.0 l.1 l.2 pattern.subject pattern.predicate
      pattern.object t.subject t.predicate t.object hp.0 hp.1 hp.2 ht.0 ht.1 ht.2 first
compare_keys_range pos_order d pattern t l hp ht first =
    inside_range d.predicates d.objects d.subjects l.1 l.2 l.0 pattern.predicate pattern.object
      pattern.subject t.predicate t.object t.subject hp.1 hp.2 hp.0 ht.1 ht.2 ht.0 first
    ∙ all_and (fits pattern.subject t.subject) (fits pattern.predicate t.predicate)
        (fits pattern.object t.object)
compare_keys_range osp d pattern t l hp ht first =
    inside_range d.objects d.subjects d.predicates l.2 l.0 l.1 pattern.object pattern.subject
      pattern.predicate t.object t.subject t.predicate hp.2 hp.0 hp.1 ht.2 ht.0 ht.1 first
    ∙ sym (
        all_and (fits pattern.object t.object) (fits pattern.subject t.subject)
          (fits pattern.predicate t.predicate))
