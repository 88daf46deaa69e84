-- ===== src/Positions/Insert.antt =====
-- What `insert_positions` makes of the versions around its bound.
use ostrich.Base.{
  ℕ, ◌+◌, ◌≡◌, ◌<◌, ◌≤◌, refl, Bool, true, false, not, ◌&&◌, Option, none, some, List, [], ◌∷◌,
}
use ostrich.Base.{arith, leb, if◌then◌else◌, compare-cases, Bool-cases, not_ltb, lt→ltb, inl, inr}
use ostrich.Ordered.{rewind, is_empty, assign}
use ostrich.Ordered.Split.{Below, StartsFrom, assign-at}
use ostrich.Positions.{PatchPositions, Version, same_positions, insert_after, insert_at_bound}
use ostrich.Positions.Latest.{
  Ascends, top, AscendsBack, Ascends-join, or_else, latest, latest_back, versions_between, CanSeek,
  same_positions-eq, is_some, between-latest, between-before, splits,
}

-- The versions answer `positions` from the patch `id` on, up to the next version.
abbrev pub Inserted : ℕ → PatchPositions → List Version → List Version → Type 0
Inserted id positions m m' =
    Ascends 0 m'
    × ((q : ℕ)
        → latest q m'
          ≡ (if leb id q && not (versions_between id q m) then some positions else latest q m))

abbrev pub entry_at : Bool → PatchPositions → Option PatchPositions
entry_at b v = if b then some v else none

pub pick_new :
    (b : Bool) (v : PatchPositions) (l c : Option PatchPositions)
    → or_else (or_else l (entry_at b v)) c ≡ (if b && not (is_some l) then some v else or_else l c)
pick_new b v l c = ground arith

pub pick_over :
    (b : Bool) (v w : PatchPositions) (l c : Option PatchPositions)
    → or_else (or_else l (entry_at b v)) c
      ≡ (if b && not (is_some l) then some v else or_else (or_else l (entry_at b w)) c)
pick_over b v w l c = ground arith

pub pick_same :
    (id j q : ℕ) (v : PatchPositions) (l c : Option PatchPositions)
    → j < id
    → or_else (or_else l (entry_at (leb j q) v)) c ≡ (
        if leb id q && not (is_some l)
        then some v
        else or_else (or_else l (entry_at (leb j q) v)) c)
pick_same id j q v l c h = ground arith

module _ (id : ℕ) (v : PatchPositions) where
  pub placed_new :
      (before after : List Version)
      → Below id before
      → AscendsBack before
      → top before ≤ id
      → Ascends (id + 1) after
      → Inserted id v (rewind before after) (rewind before ((id, v) ∷ after))
  placed_new before after k b t a = (
    Ascends-join before ((id, v) ∷ after) b (t, a),
    λ q. simp splits (
        rw (between-before id q before k, between-latest id (id + 1) q after (omega arith) a)
          (pick_new (leb id q) v (latest q after) (latest_back q before))),
  )

  pub overwritten :
      (w : PatchPositions) (before after : List Version)
      → Below id before
      → AscendsBack before
      → top before ≤ id
      → Ascends (id + 1) after
      → Inserted id v (rewind before ((id, w) ∷ after)) (rewind before ((id, v) ∷ after))
  overwritten w before after k b t a = (
    Ascends-join before ((id, v) ∷ after) b (t, a),
    λ q. simp splits (
        rw
          (
            between-before id q before k,
            not_ltb id id (omega arith),
            between-latest id (id + 1) q after (omega arith) a,
          )
          (pick_over (leb id q) v w (latest q after) (latest_back q before))),
  )

  pub unchanged :
      (j : ℕ) (before after : List Version)
      → j < id
      → Below id before
      → AscendsBack ((j, v) ∷ before)
      → Ascends (j + 1) after
      → Ascends (id + 1) after
      → Inserted id v (rewind before ((j, v) ∷ after)) (rewind before ((j, v) ∷ after))
  unchanged j before after h k b a u = (
    Ascends-join before ((j, v) ∷ after) b.1 (b.0, a),
    λ q. simp splits (
        rw
          (
            between-before id q before k,
            not_ltb id j (omega arith),
            between-latest id (id + 1) q after (omega arith) u,
          )
          (pick_same id j q v (latest q after) (latest_back q before) h)),
  )

abbrev pub Inserts : ℕ → PatchPositions → List Version → List Version × Bool → Type 0
Inserts id v m r = Inserted id v m r.0

pub insert_after_new :
    (id j : ℕ) (v old : PatchPositions) (before after m : List Version)
    → j < id
    → same_positions old v ≡ false
    → insert_after id v before after m (j, old) ≡ (rewind before ((id, v) ∷ after), true)
unfolding insert_after
insert_after_new id j v old before after m h e = ground arith

pub insert_after_same :
    (id j : ℕ) (v old : PatchPositions) (before after m : List Version)
    → j < id
    → same_positions old v ≡ true
    → insert_after id v before after m (j, old) ≡ (m, false)
unfolding insert_after
insert_after_same id j v old before after m h e = ground arith

pub insert_after_here :
    (id : ℕ) (v old : PatchPositions) (before after m : List Version)
    → insert_after id v before after m (id, old) ≡ (assign id v m, true)
unfolding insert_after
insert_after_here id v old before after m = ground arith

pub Below-top : (id : ℕ) (before : List Version) → Below id before → top before ≤ id
Below-top id [] h = omega arith
Below-top id ((j, v) ∷ before) h = omega arith

pub Ascends-from : (low k : ℕ) (m : List Version) → StartsFrom k m → Ascends low m → Ascends k m
Ascends-from low k [] u h = tt
Ascends-from low k ((j, v) ∷ m) u h = (u, h.1)

module _ (id : ℕ) (v : PatchPositions) where
  pub puts_before :
      (j : ℕ) (old : PatchPositions) (before after : List Version)
      → Below id ((j, old) ∷ before)
      → AscendsBack ((j, old) ∷ before)
      → Ascends (j + 1) after
      → StartsFrom (id + 1) after
      → Inserts id v
          (rewind before ((j, old) ∷ after))
          (insert_after id v ((j, old) ∷ before) after (rewind before ((j, old) ∷ after)) (j, old))
  puts_before j old before after k b a u =
      let a' = Ascends-from (j + 1) (id + 1) after u a in
      elim (Bool-cases (same_positions old v)) [
        | inl same ↦
            rw
              (
                insert_after_same id j v old ((j, old) ∷ before) after _ k.0 same,
                same_positions-eq old v same,
              )
              (unchanged id v j before after k.0 k.1 b a a')
        | inr new ↦
            rw (insert_after_new id j v old ((j, old) ∷ before) after _ k.0 new)
              (placed_new id v ((j, old) ∷ before) after k b (omega arith) a')
      ]

  pub puts_here :
      (old : PatchPositions) (before before' after after' : List Version)
      → Below id before
      → AscendsBack before
      → Ascends (top before) ((id, old) ∷ after)
      → Inserts id v
          (rewind before ((id, old) ∷ after))
          (insert_after id v before' after' (rewind before ((id, old) ∷ after)) (id, old))
  puts_here old before before' after after' k b a =
      rw
        (
          insert_after_here id v old before' after' (rewind before ((id, old) ∷ after)),
          assign-at id v old before after k,
        )
        (overwritten id v old before after k b a.0 a.1)

  pub inserts :
      (before after : List Version)
      → is_empty (rewind before after) ≡ false
      → Below id before
      → StartsFrom id after
      → AscendsBack before
      → Ascends (top before) after
      → CanSeek id (rewind before after)
      → (r : List Version × Bool) × (insert_at_bound id v after before (rewind before after)
          ≡ some r)
        × Inserts id v (rewind before after) r
  unfolding insert_at_bound
  inserts [] [] n k u b a c = cc
  inserts ((j, old) ∷ before) [] n k u b a c = (_, refl, puts_before j old before [] k b tt tt)
  inserts [] ((f, old) ∷ after) n k u b a c =
      let same : id ≡ f = omega arith in
      rw (← same) (
        insert_after id v [] ((id, old) ∷ after) ((id, old) ∷ after) (id, old),
        rw (not_ltb id id (omega arith)),
        puts_here old [] [] after ((id, old) ∷ after) tt tt (rw (← same) at a),
      )
  inserts ((j, w) ∷ before) ((f, old) ∷ after) n k u b a c = elim (compare-cases id f) [
    | inl lt ↦ (
      insert_after id v ((j, w) ∷ before) ((f, old) ∷ after)
          (rewind ((j, w) ∷ before) ((f, old) ∷ after)) (j, w),
      rw (lt→ltb id f lt),
      puts_before j w before ((f, old) ∷ after) k b a (omega arith),
    )
    | inr (inl same) ↦ rw (← same) (
      insert_after id v ((j, w) ∷ before) ((id, old) ∷ after)
          (rewind ((j, w) ∷ before) ((id, old) ∷ after)) (id, old),
      rw (not_ltb id id (omega arith)),
      puts_here old ((j, w) ∷ before) ((j, w) ∷ before) after ((id, old) ∷ after) k b
          (rw (← same) at a),
    )
    | inr (inr gt) ↦ absurd (omega arith)
  ]
