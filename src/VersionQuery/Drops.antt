-- ===== src/VersionQuery/Drops.antt =====
-- Lists without their first elements, as the offsets of a version query take them apart.
use ostrich.Base.{ℕ, zero, suc, ◌-◌, ◌≡◌, ◌≤◌, refl, ap, ◌∙◌, Bool, List, [], ◌∷◌, ◌++◌, map}
use ostrich.Base.{arith, length, drop}
use ostrich.PatchTree.Visits.{Addition}
use ostrich.PatchTreeIterator.Filtered.{filter}
use ostrich.VersionQuery.Collected.{key}

pub drop-append :
    {A : Type 0} (n : ℕ) (xs ys : List A) → drop n (xs ++ ys) ≡ drop n xs ++ drop (n - length xs) ys
drop-append zero [] ys = refl
drop-append zero (x ∷ xs) ys = ap (λ (k : ℕ). x ∷ (xs ++ drop k ys)) {x = 0} (omega arith)
drop-append (suc n) [] ys = ap (λ (k : ℕ). drop k ys) {x = suc n} (omega arith)
drop-append (suc n) (x ∷ xs) ys =
    drop-append n xs ys ∙ ap (λ (k : ℕ). drop n xs ++ drop k ys) {x = n - length xs} (omega arith)

pub map-drop : (n : ℕ) (l : List Addition) → map key (drop n l) ≡ drop n (map key l)
map-drop zero l = refl
map-drop (suc n) [] = refl
map-drop (suc n) (a ∷ l) = map-drop n l

pub length-dropped : {A : Type 0} (n : ℕ) (l : List A) → drop n l ≡ [] → length l ≤ n
length-dropped zero [] e = omega arith
length-dropped zero (a ∷ l) e = cc
length-dropped (suc n) [] e = omega arith
length-dropped (suc n) (a ∷ l) e = omega (arith, length-dropped n l e)

pub length-filter : {A : Type 0} (p : A → Bool) (l : List A) → length (filter p l) ≤ length l
length-filter p [] = omega arith
length-filter p (a ∷ l) = ground (arith, length-filter p l)

pub length-map : {A B : Type 0} (f : A → B) (l : List A) → length (map f l) ≡ length l
length-map f [] = refl
length-map f (a ∷ l) = ap suc (length-map f l)
