-- ===== src/Positions/Container.antt =====
-- The container against a step function from patch ids to positions.
use ostrich.Base.{ℕ, ◌+◌, ◌≡◌, refl, sym, Bool, true, false, some, List, [], ◌∷◌}
use ostrich.Base.{arith}
use mathlib.Core.Path.{subst}
use ostrich.Ordered.{rewind, lower_bound, is_empty}
use ostrich.Ordered.Split.{Below, StartsFrom, lower_bound-IsLowerBound}
use ostrich.Positions.{PatchPositions, Version, insert_at_bound, insert_positions}
use ostrich.Positions.{get_at_bound, get_positions}
use ostrich.Positions.Latest.{
  Ascends, top, AscendsBack, Ascends-at, latest, latest-rewind, latest-below, CanSeek,
}
use ostrich.Positions.Insert.{Inserted, inserts}

at_bound :
    (P : List Version → List Version → List Version → Type 0) (x : ℕ) (m : List Version)
    → ((before after : List Version)
        → is_empty (rewind before after) ≡ false
        → Below x before
        → StartsFrom x after
        → AscendsBack before
        → Ascends (top before) after
        → CanSeek x (rewind before after)
        → P (rewind before after) after before)
    → is_empty m ≡ false
    → Ascends 0 m
    → CanSeek x m
    → P m (lower_bound x m).after (lower_bound x m).before
at_bound P x m all n v c =
    let at = lower_bound x m in
    let found = lower_bound-IsLowerBound x m in
    let shape = Ascends-at at.before at.after (subst (Ascends 0) (sym found.whole) v) in
    subst (λ k. P k at.after at.before) found.whole
      (all at.before at.after (subst (λ k. is_empty k ≡ false) (sym found.whole) n) found.lower
        found.upper shape.0 shape.1 (subst (CanSeek x) (sym found.whole) c))

gets :
    (id : ℕ) (before after : List Version)
    → is_empty (rewind before after) ≡ false
    → Below id before
    → StartsFrom id after
    → AscendsBack before
    → Ascends (top before) after
    → CanSeek id (rewind before after)
    → get_at_bound id after before ≡ some (latest id (rewind before after))
unfolding get_at_bound
gets id [] [] n k u b a c = cc
gets id ((j, v) ∷ before) [] n k u b a c = rw (latest-rewind id before ((j, v) ∷ [])) (ground arith)
gets id [] ((f, w) ∷ after) n k u b a c = ground (arith, latest-below (f + 1) id after a.1)
gets id ((j, v) ∷ before) ((f, w) ∷ after) n k u b a c =
    rw (latest-rewind id before ((j, v) ∷ (f, w) ∷ after))
      (ground (arith, latest-below (f + 1) id after a.1))

-- On versions in order that do not start above the patch id, `get_positions` finds the positions of
-- the last version up to the patch id, and `insert_positions` sets them from the patch id on up to
-- the next version and keeps the order; neither steps back from `begin()`.
pub positions_laws :
    (id : ℕ) (v : PatchPositions) (m : List Version)
    → Ascends 0 m
    → CanSeek id m
    → (get_positions id m ≡ some (latest id m))
      × ((r : List Version × Bool) × (insert_positions id v m ≡ some r) × Inserted id v m r.0)
unfolding get_positions insert_positions
positions_laws id v [] h c =
    (refl, (((id, v) ∷ [], true), refl, ((omega arith, tt), λ q. ground arith)))
positions_laws id v (e ∷ m) h c = (
  at_bound (λ k after before. get_at_bound id after before ≡ some (latest id k)) id (e ∷ m)
      (gets id) refl h c,
  at_bound
      (λ k after before.
        (r : List Version × Bool) × (insert_at_bound id v after before k ≡ some r)
        × Inserted id v k r.0)
      id (e ∷ m) (inserts id v) refl h c,
)
