-- ===== src/AdditionValue/History.antt =====
-- An addition value keeps the history of its triple: what it answers for a patch is the last event
-- that is not later.
use ostrich.Base.{
  ℕ, ◌≡◌, ◌<◌, ◌≤◌, refl, sym, ap, ◌∙◌, Bool, true, false, Option, some, List, [], ◌∷◌, ◌>>=◌,
}
use mathlib.Core.Path.{subst}
use ostrich.Base.{arith, leb, lt→ltb, if◌then◌else◌}
use ostrich.Base.Int.{pos}
use ostrich.Interval.{Interval, IntervalList}
use ostrich.Interval.Shape.{Chained, IsValid, CanSeek}
use ostrich.Interval.Covers.{covers, covers-below, starts_between}
use ostrich.Interval.Addition.{addition-Added}
use ostrich.Interval.Addition.Gaps.{Added}
use ostrich.Interval.Deletion.{Deleted, deletion-Deleted}
use ostrich.Interval.Lookup.{is_in-covers}
use ostrich.AdditionValue.{
  AdditionValue, int_max, create, grow, add, del, is_patch_id, with_patches,
}

-- What a patch does to the triple.
pub data Event : Type 0 where
  added : ℕ → Event
  deleted : ℕ → Event

abbrev pub time : Event → ℕ
time (added t) = t
time (deleted t) = t

-- The value after the events, the latest of them first.
abbrev pub apply : Event → AdditionValue → Option (AdditionValue × Bool)
apply (added t) v = add t v
apply (deleted t) v = del t v

unfoldable pub replay : ℕ → List Event → Option AdditionValue
replay max_patch_id [] = some (create max_patch_id)
replay max_patch_id (e ∷ older) = do v ← replay max_patch_id older; r ← apply e v; some r.0

-- Each event is later than the ones before it, and all lie below `INT_MAX`.
abbrev pub InOrder : ℕ → List Event → Type 0
InOrder bound [] = Unit
InOrder bound (e ∷ older) = (time e < bound) × InOrder (time e) older

-- Whether the last event up to the patch `y` is an addition.
abbrev pub status : ℕ → List Event → Bool
status y [] = false
status y (added t ∷ older) = if leb t y then true else status y older
status y (deleted t ∷ older) = if leb t y then false else status y older

-- The list of intervals stands for the history up to `now`.
record Keeps (now : ℕ) (events : List Event) (l : IntervalList) : Type 0 where
  bound : l.max ≡ int_max
  valid : IsValid l
  same : (y : ℕ) → y < int_max → covers y l.intervals ≡ status y events
  past : (y : ℕ) → starts_between now y l.intervals ≡ false

status-later :
    (x y : ℕ) (events : List Event) → InOrder x events → x ≤ y → status y events ≡ status x events
status-later x y [] h k = refl
status-later x y (added t ∷ older) h k = ground arith
status-later x y (deleted t ∷ older) h k = ground arith

past-CanSeek : (x : ℕ) (m : List Interval) → ((y : ℕ) → starts_between x y m ≡ false) → CanSeek x m
past-CanSeek x [] h = tt
past-CanSeek x ((start, end) ∷ m) h = ground (arith, h start)

past-later :
    (x x' y : ℕ) (m : List Interval)
    → x ≤ x'
    → starts_between x y m ≡ false
    → starts_between x' y m ≡ false
past-later x x' y [] k h = refl
past-later x x' y (i ∷ m) k h = ground (arith, past-later x x' y m)

module _ (t : ℕ) (older : List Event) (l : IntervalList) (ordered : InOrder t older)
    (small : t < int_max) (k : Keeps t older l) where
  seekable : CanSeek t l.intervals
  seekable = past-CanSeek t l.intervals k.past

  Keeps-added :
      (r : IntervalList × Bool)
      → r.0.max ≡ l.max
      → Added l.max t l.intervals (r.0.intervals, r.1)
      → Keeps t (added t ∷ older) r.0
  Keeps-added r e a = record {
    bound = e ∙ k.bound;
    valid = subst (λ m. Chained m 0 r.0.intervals) (sym e) a.0;
    same = λ y h. ground (
      arith,
      a.1 y,
      k.same y h,
      k.same t small,
      k.bound,
      status-later t y older ordered,
      k.past y,
    );
    past = λ y. ground (arith, a.3 y, k.past y);
  }

  Keeps-deleted :
      (r : IntervalList × Bool)
      → r.0.max ≡ l.max
      → Deleted l.max t l.intervals (r.0.intervals, r.1)
      → Keeps t (deleted t ∷ older) r.0
  Keeps-deleted r e d = record {
    bound = e ∙ k.bound;
    valid = subst (λ m. Chained m 0 r.0.intervals) (sym e) d.0;
    same = λ y h.
        ground (arith, d.1 y, k.same y h, k.same t small, status-later t y older ordered, k.past y);
    past = λ y. ground (arith, d.3 y, k.past y);
  }

Keeps-later :
    (now later : ℕ) (events : List Event) (l : IntervalList)
    → now ≤ later
    → Keeps now events l
    → Keeps later events l
Keeps-later now later events l h k = record {
  bound = k.bound;
  valid = k.valid;
  same = k.same;
  past = λ y. past-later now later y l.intervals h (k.past y);
}

grow-patches : (t : ℕ) (v : AdditionValue) → (grow t v).patches ≡ v.patches
unfolding grow
grow-patches t v = ground arith

grow-max : (t n : ℕ) (v : AdditionValue) → n < v.max_patch_id → n < (grow t v).max_patch_id
unfolding grow
grow-max t n v h = ground arith

apply-Keeps :
    (n : ℕ) (e : Event) (older : List Event) (v : AdditionValue)
    → InOrder (time e) older
    → time e < int_max
    → Keeps (time e) older v.patches
    → n < v.max_patch_id
    → (r : AdditionValue × Bool) × (apply e v ≡ some r)
      × Keeps (time e) (e ∷ older) r.0.patches
      × (n < r.0.max_patch_id)
unfolding add del
apply-Keeps n (added t) older v o h k b =
    let k' = subst (Keeps t older) (sym (grow-patches t v)) k in
    let (r, run, same, a) =
      addition-Added t (grow t v).patches k'.valid (seekable t older _ o h k')
        (subst (λ m. t < m) (sym k'.bound) h) in
    (with_patches (grow t v) r, rw run, Keeps-added t older _ o h k' r same a, grow-max t n v b)
apply-Keeps n (deleted t) older v o h k b =
    let k' = subst (Keeps t older) (sym (grow-patches t v)) k in
    let (r, run, same, d) =
      deletion-Deleted t (grow t v).patches k'.valid (seekable t older _ o h k') in
    (with_patches (grow t v) r, rw run, Keeps-deleted t older _ o h k' r same d, grow-max t n v b)

replay-Keeps :
    (n bound : ℕ) (events : List Event)
    → InOrder bound events
    → bound ≤ int_max
    → (v : AdditionValue) × (replay n events ≡ some v)
      × Keeps bound events v.patches
      × (n < v.max_patch_id)
unfolding replay create
replay-Keeps n bound [] o h = (
  create n,
  refl,
  record { bound = refl; valid = tt; same = λ y k. refl; past = λ y. refl },
  omega arith,
)
replay-Keeps n bound (e ∷ older) o h =
    let (v, run, k, b) = replay-Keeps n (time e) older o.1 (omega arith) in
    let (r, run', k', b') = apply-Keeps n e older v o.1 (omega arith) k b in
    (r.0, rw (run, run'), Keeps-later (time e) bound (e ∷ older) r.0.patches (omega arith) k', b')

covers-CanSeek :
    (max low τ x : ℕ) (m : List Interval)
    → Chained max low m
    → covers τ m ≡ true
    → τ ≤ x
    → CanSeek x m
covers-CanSeek max low τ x [] h c k = tt
covers-CanSeek max low τ x ((start, end) ∷ m) h c k = ground (arith, covers-below max end τ m)

-- The patches of a triple, added and deleted one after the other in the order of the patch ids, in a value
-- that is created with the largest patch id `n`, never run into undefined behaviour; and for a patch `p`
-- up to `n` and below `INT_MAX`, where some patch `τ` up to `p` has the triple, `is_patch_id(p)` tells
-- whether the last event up to `p` is an addition.
pub is_patch_id-status :
    (n p τ : ℕ) (events : List Event)
    → InOrder int_max events
    → p ≤ n
    → p < int_max
    → τ ≤ p
    → status τ events ≡ true
    → (v : AdditionValue) × (replay n events ≡ some v)
      × (is_patch_id (pos p) v ≡ some (status p events))
unfolding is_patch_id
is_patch_id-status n p τ events o h small le st =
    let (v, run, k, b) = replay-Keeps n int_max events o (omega arith) in
    let c =
      covers-CanSeek v.patches.max 0 τ p v.patches.intervals k.valid (k.same τ (omega arith) ∙ st)
        le in
    (
      v,
      run,
      rw (lt→ltb p v.max_patch_id (omega arith))
          (is_in-covers p v.patches k.valid c ∙ ap some (k.same p small)),
    )
