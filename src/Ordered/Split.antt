-- ===== src/Ordered/Split.antt =====
-- What `lower_bound` finds, and how an edit by key acts at the position that it returns.
use ostrich.Base.{ℕ, ◌<◌, ◌≤◌, ◌≡◌, refl, List, [], ◌∷◌, All, arith, ◌+◌, ap, ◌∙◌, lt→ltb, not_ltb}
use ostrich.Ordered.{Position, rewind, seek, lower_bound, insert, assign, erase}

module _ {V : Type 0} where
  -- All keys lie below `k`.
  abbrev pub Below : ℕ → List (ℕ × V) → Type 0
  Below k = All (λ e. e.0 < k)

  -- The first key, if there is one, is not below `k`.
  abbrev pub StartsFrom : ℕ → List (ℕ × V) → Type 0
  StartsFrom k [] = Unit
  StartsFrom k (e ∷ m) = k ≤ e.0

  pub record IsLowerBound (k : ℕ) (m : List (ℕ × V)) (p : Position V) : Type 0 where
    pub whole : rewind p.before p.after ≡ m
    pub lower : Below k p.before
    pub upper : StartsFrom k p.after

  seek-IsLowerBound :
      (k : ℕ) (before after m : List (ℕ × V))
      → rewind before after ≡ m
      → Below k before
      → IsLowerBound k m (seek k before after)
  unfolding seek
  seek-IsLowerBound k before [] m w b = record { whole = w; lower = b; upper = tt }
  seek-IsLowerBound k before ((j, v) ∷ after) m w b =
      ground (arith, seek-IsLowerBound k ((j, v) ∷ before) after m w)

  pub lower_bound-IsLowerBound : (k : ℕ) (m : List (ℕ × V)) → IsLowerBound k m (lower_bound k m)
  unfolding lower_bound
  lower_bound-IsLowerBound k m = seek-IsLowerBound k [] m m refl tt

  -- An edit at a key above all of `before` acts on what follows it.
  pub insert-rewind :
      (k : ℕ) (v : V) (before after : List (ℕ × V))
      → Below k before
      → insert k v (rewind before after) ≡ rewind before (insert k v after)
  unfolding insert
  insert-rewind k v [] after b = refl
  insert-rewind k v ((j, w) ∷ before) after b =
      insert-rewind k v before ((j, w) ∷ after) b.1 ∙ ap (rewind before) (rw (lt→ltb j k b.0))

  pub assign-rewind :
      (k : ℕ) (v : V) (before after : List (ℕ × V))
      → Below k before
      → assign k v (rewind before after) ≡ rewind before (assign k v after)
  unfolding assign
  assign-rewind k v [] after b = refl
  assign-rewind k v ((j, w) ∷ before) after b =
      assign-rewind k v before ((j, w) ∷ after) b.1 ∙ ap (rewind before) (rw (lt→ltb j k b.0))

  pub erase-rewind :
      (k : ℕ) (before after : List (ℕ × V))
      → Below k before
      → erase k (rewind before after) ≡ rewind before (erase k after)
  unfolding erase
  erase-rewind k [] after b = refl
  erase-rewind k ((j, w) ∷ before) after b =
      erase-rewind k before ((j, w) ∷ after) b.1 ∙ ap (rewind before) (rw (lt→ltb j k b.0))

  insert-head :
      (k : ℕ) (v : V) (after : List (ℕ × V))
      → StartsFrom (k + 1) after
      → insert k v after ≡ (k, v) ∷ after
  unfolding insert
  insert-head k v [] h = refl
  insert-head k v ((j, w) ∷ after) h = ground arith

  assign-head :
      (k : ℕ) (v w : V) (after : List (ℕ × V)) → assign k v ((k, w) ∷ after) ≡ (k, v) ∷ after
  unfolding assign
  assign-head k v w after = ground arith

  erase-head : (k : ℕ) (w : V) (after : List (ℕ × V)) → erase k ((k, w) ∷ after) ≡ after
  unfolding erase
  erase-head k w after = ground arith

  assign-new :
      (k : ℕ) (v : V) (after : List (ℕ × V))
      → StartsFrom (k + 1) after
      → assign k v after ≡ (k, v) ∷ after
  unfolding assign
  assign-new k v [] h = refl
  assign-new k v ((j, w) ∷ after) h = ground arith

  -- The edits where the position is known.
  pub insert-at :
      (k : ℕ) (v : V) (before after : List (ℕ × V))
      → Below k before
      → StartsFrom (k + 1) after
      → insert k v (rewind before after) ≡ rewind before ((k, v) ∷ after)
  insert-at k v before after b h =
      insert-rewind k v before after b ∙ ap (rewind before) (insert-head k v after h)

  pub assign-at :
      (k : ℕ) (v w : V) (before after : List (ℕ × V))
      → Below k before
      → assign k v (rewind before ((k, w) ∷ after)) ≡ rewind before ((k, v) ∷ after)
  assign-at k v w before after b =
      assign-rewind k v before ((k, w) ∷ after) b ∙ ap (rewind before) (assign-head k v w after)

  pub assign_new-at :
      (k : ℕ) (v : V) (before after : List (ℕ × V))
      → Below k before
      → StartsFrom (k + 1) after
      → assign k v (rewind before after) ≡ rewind before ((k, v) ∷ after)
  assign_new-at k v before after b h =
      assign-rewind k v before after b ∙ ap (rewind before) (assign-new k v after h)

  pub erase-at :
      (k : ℕ) (w : V) (before after : List (ℕ × V))
      → Below k before
      → erase k (rewind before ((k, w) ∷ after)) ≡ rewind before after
  erase-at k w before after b =
      erase-rewind k before ((k, w) ∷ after) b ∙ ap (rewind before) (erase-head k w after)

  pub lower_bound-first :
      (k j : ℕ) (v : V) (m : List (ℕ × V))
      → k < j
      → lower_bound k ((j, v) ∷ m) ≡ record { before = []; after = (j, v) ∷ m }
  unfolding lower_bound
  lower_bound-first k j v m h = rw (not_ltb j k (omega arith))
