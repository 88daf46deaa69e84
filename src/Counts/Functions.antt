-- ===== src/Counts/Functions.antt =====
-- A store that is a function, which does what `HashDb` asks for.
use ostrich.Base.{
  ℕ, ◌≡◌, ◌≢◌, refl, Bool, true, false, Option, none, some, arith, ◌==◌, if◌then◌else◌,
}
use ostrich.Triple.{TripleVersion}
use ostrich.Counts.{HashDb}
use ostrich.Counts.Additions.{same_version, same_version_refl, same_version-equal}

module _ {K : Type 0} (same : K → K → Bool) (same_refl : (a : K) → same a a ≡ true)
    (same-equal : (a b : K) → same a b ≡ true → a ≡ b) where
  unfoldable pub set_at : K → ℕ → (K → Option ℕ) → K → Option ℕ
  set_at k v m j = if same k j then some v else m j

  pub set_at_same : (k : K) (v : ℕ) (m : K → Option ℕ) → set_at k v m k ≡ some v
  unfolding set_at
  set_at_same k v m = rw (same_refl k) refl

  pub set_at_other : (k j : K) (v : ℕ) (m : K → Option ℕ) → k ≢ j → set_at k v m j ≡ m j
  unfolding set_at
  set_at_other k j v m h = cases (same k j) (same-equal k j)
    where
      cases : (b : Bool) → (b ≡ true → k ≡ j) → (if b then some v else m j) ≡ m j
      cases true e = absurd (h (e refl))
      cases false e = refl

  abbrev pub functions : HashDb (K → Option ℕ) K ℕ
  functions = record {
    empty = λ k. none;
    get = λ k m. m k;
    set = set_at;
    get-empty = λ k. refl;
    get-set_same = set_at_same;
    get-set_other = set_at_other;
  }

pub equal_refl : (a : ℕ) → (a == a) ≡ true
equal_refl a = ground arith

pub equal-eq : (a b : ℕ) → (a == b) ≡ true → a ≡ b
equal-eq a b h = ground arith

abbrev pub positions_db : HashDb (ℕ → Option ℕ) ℕ ℕ
positions_db = functions (λ a b. a == b) equal_refl equal-eq

abbrev pub counts_db : HashDb (TripleVersion → Option ℕ) TripleVersion ℕ
counts_db = functions same_version same_version_refl same_version-equal
