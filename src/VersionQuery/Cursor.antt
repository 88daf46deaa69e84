-- ===== src/VersionQuery/Cursor.antt =====
-- What every record of a tree has, every record that a cursor steps over after `jump` has, too.
use ostrich.Base.{Bool-cases, List, [], ◌∷◌, All, inl, inr}
use ostrich.Base.Int.{ℤ}
use ostrich.Triple.{Triple}
use ostrich.Delta.{is_negative}
use ostrich.PatchTree.Queries.{jump}

pub All-jump :
    {V : Type 0}
    → (P : Triple × V → Type 0) (compare : Triple → Triple → ℤ) (t : Triple) (l : List (Triple × V))
    → All P l
    → All P (jump compare t l)
unfolding jump
All-jump P compare t [] a = tt
All-jump P compare t (d ∷ l) a = elim (Bool-cases (is_negative (compare d.0 t))) [
  | inl before ↦ rw before (All-jump P compare t l a.1)
  | inr behind ↦ rw behind a
]
