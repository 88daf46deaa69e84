-- ===== src/Positions/Latest.antt =====
-- The positions of the last version up to a patch, and how it reads off a list split at a bound.
use ostrich.Base.{
  ℕ, ◌+◌, ◌≡◌, ◌<◌, ◌≤◌, refl, sym, ◌∙◌, Bool, true, false, ◌&&◌, ◌||◌, Option, none, some, List,
  [], ◌∷◌,
}
use ostrich.Base.{arith, ltb, leb, and_split}
use ostrich.Ordered.{rewind}
use ostrich.Ordered.Split.{Below}
use ostrich.Base.Int.{eqb_ℤ-eq}
use ostrich.Positions.{PatchPositions, Version, same_positions}
use ostrich.Positions.{positions_of}

-- The patch ids ascend.
abbrev pub Ascends : ℕ → List Version → Type 0
Ascends low [] = Unit
Ascends low ((j, v) ∷ m) = (low ≤ j) × Ascends (j + 1) m

abbrev pub top : List Version → ℕ
top [] = 0
top ((j, v) ∷ before) = j + 1

abbrev pub AscendsBack : List Version → Type 0
AscendsBack [] = Unit
AscendsBack ((j, v) ∷ before) = (top before ≤ j) × AscendsBack before

pub Ascends-join :
    (before after : List Version)
    → AscendsBack before
    → Ascends (top before) after
    → Ascends 0 (rewind before after)
Ascends-join [] after b a = a
Ascends-join ((j, v) ∷ before) after b a = Ascends-join before ((j, v) ∷ after) b.1 (b.0, a)

pub Ascends-at :
    (before after : List Version)
    → Ascends 0 (rewind before after)
    → AscendsBack before × Ascends (top before) after
Ascends-at [] after h = (tt, h)
Ascends-at ((j, v) ∷ before) after h =
    let (b, a) = Ascends-at before ((j, v) ∷ after) h in ((a.0, b), a.1)

-- The positions of the last version up to a patch.
abbrev pub or_else : Option PatchPositions → Option PatchPositions → Option PatchPositions
or_else (some v) w = some v
or_else none w = w

abbrev pub latest : ℕ → List Version → Option PatchPositions
latest q [] = none
latest q (e ∷ m) = or_else (latest q m) (positions_of q e)

abbrev pub latest_back : ℕ → List Version → Option PatchPositions
latest_back q [] = none
latest_back q (e ∷ before) = or_else (positions_of q e) (latest_back q before)

pub or_else_assoc :
    (a b c : Option PatchPositions) → or_else a (or_else b c) ≡ or_else (or_else a b) c
or_else_assoc none b c = refl
or_else_assoc (some v) b c = refl

pub latest-rewind :
    (q : ℕ) (before after : List Version)
    → latest q (rewind before after) ≡ or_else (latest q after) (latest_back q before)
latest-rewind q [] after = ground arith
latest-rewind q (e ∷ before) after =
    latest-rewind q before (e ∷ after)
    ∙ sym (or_else_assoc (latest q after) (positions_of q e) (latest_back q before))

-- A version lies above `x` and not above `y`.
abbrev pub versions_between : ℕ → ℕ → List Version → Bool
versions_between x y [] = false
versions_between x y (e ∷ m) = (ltb x e.0 && leb e.0 y) || versions_between x y m

pub versions_between-rewind :
    (x y : ℕ) (before after : List Version)
    → versions_between x y (rewind before after)
      ≡ (versions_between x y before || versions_between x y after)
versions_between-rewind x y [] after = refl
versions_between-rewind x y (e ∷ before) after =
    ground (arith, versions_between-rewind x y before (e ∷ after))

pub latest-below : (low q : ℕ) (m : List Version) → Ascends low m → q < low → latest q m ≡ none
latest-below low q [] h k = refl
latest-below low q ((j, v) ∷ m) h k = ground (arith, latest-below (j + 1) q m)

abbrev pub CanSeek : ℕ → List Version → Type 0
CanSeek x [] = Unit
CanSeek x ((j, v) ∷ m) = j ≤ x

pub same_positions-eq : (a b : PatchPositions) → same_positions a b ≡ true → a ≡ b
unfolding same_positions
same_positions-eq a b h =
    let (h1, r1) = and_split _ _ h in
    let (h2, r2) = and_split _ _ r1 in
    let (h3, r3) = and_split _ _ r2 in
    let (h4, r4) = and_split _ _ r3 in
    let (h5, r5) = and_split _ _ r4 in
    let (h6, h7) = and_split _ _ r5 in
    λ i. record {
      sp = eqb_ℤ-eq a.sp b.sp h1 i;
      so = eqb_ℤ-eq a.so b.so h2 i;
      s = eqb_ℤ-eq a.s b.s h3 i;
      po = eqb_ℤ-eq a.po b.po h4 i;
      p = eqb_ℤ-eq a.p b.p h5 i;
      o = eqb_ℤ-eq a.o b.o h6 i;
      any = eqb_ℤ-eq a.any b.any h7 i;
    }

abbrev pub is_some : Option PatchPositions → Bool
is_some none = false
is_some (some v) = true

pub between-latest :
    (x low q : ℕ) (m : List Version)
    → x < low
    → Ascends low m
    → versions_between x q m ≡ is_some (latest q m)
between-latest x low q [] h a = refl
between-latest x low q ((j, v) ∷ m) h a = ground (arith, between-latest x (j + 1) q m)

pub between-before :
    (x q : ℕ) (before : List Version) → Below x before → versions_between x q before ≡ false
between-before x q [] h = refl
between-before x q (e ∷ before) h = ground (arith, between-before x q before h.1)

pub ruleset splits = (latest-rewind, versions_between-rewind)
