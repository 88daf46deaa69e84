-- ===== src/DeletionValue/Changes.antt =====
-- What `add` and `del` do to the patches, the local changes and the positions of a deletion value.
use ostrich.Base.{ℕ, ◌≡◌, ◌<◌, refl, Bool, true, false, not, ◌&&◌, ◌||◌, some, List}
use ostrich.Base.{arith, leb, if◌then◌else◌}
use ostrich.Interval
use ostrich.Interval.{IntervalList}
use ostrich.Interval.Shape.{IsValid, CanSeek}
use ostrich.Interval.Covers.{covers}
use ostrich.Interval.Addition.{addition-Added}
use ostrich.Interval.Addition.Gaps.{joins}
use ostrich.Interval.Deletion.{leaves, deletion-Deleted}
use ostrich.Positions.{delete_positions, PatchPositions, Version}
use ostrich.Positions.Latest.{Ascends, latest, versions_between, CanSeek as CanSeekVersion}
use ostrich.Positions.Container.{positions_laws}
use ostrich.DeletionValue.{
  DvIntervalList, DeletionValue, add, del, addition, deletion, add_local, add_positions,
}
use ostrich.DeletionValue.{with_elements}

abbrev pub IsSound : DvIntervalList → Type 0
IsSound d = IsValid d.patches × IsValid d.local_changes × Ascends 0 d.position_vec

-- The two interval lists and the versions may be searched for a patch.
abbrev pub CanSeekIn : ℕ → DvIntervalList → Type 0
CanSeekIn patch d =
    CanSeek patch d.patches.intervals
    × CanSeek patch d.local_changes.intervals
    × CanSeekVersion patch d.position_vec

-- A list that gains a patch id, and what follows it up to the next interval, if `b` holds.
abbrev pub Gains : Bool → ℕ → IntervalList → IntervalList → Type 0
Gains b patch l l' =
    IsValid l'
    × ((y : ℕ)
        → covers y l'.intervals ≡ (covers y l.intervals || (b && joins l.max patch l.intervals y)))

-- A list that loses a patch id, and what follows it in its interval.
abbrev pub Loses : ℕ → IntervalList → IntervalList → Type 0
Loses patch l l' =
    IsValid l'
    × ((y : ℕ) → covers y l'.intervals ≡ (covers y l.intervals && not (leaves patch l.intervals y)))

-- Versions that answer `p` from a patch on up to the next version, if `b` holds.
abbrev pub Sets : Bool → ℕ → PatchPositions → List Version → List Version → Type 0
Sets b patch p m m' =
    Ascends 0 m'
    × ((q : ℕ)
        → latest q m'
          ≡ (if b && (leb patch q && not (versions_between patch q m)) then some p else latest q m))

pub addition-Gains :
    (patch : ℕ) (l : IntervalList)
    → IsValid l
    → CanSeek patch l.intervals
    → patch < l.max
    → (r : IntervalList × Bool) × (Interval.addition patch l ≡ some r) × Gains true patch l r.0
addition-Gains patch l v c h =
    let (r, run, same, (chain, set, changed, starts)) = addition-Added patch l v c h in
    (r, run, (rw same chain, set))

pub add_local-Gains :
    (b : Bool) (patch : ℕ) (l : IntervalList)
    → IsValid l
    → CanSeek patch l.intervals
    → patch < l.max
    → (r : IntervalList × Bool) × (add_local patch b l ≡ some r) × Gains b patch l r.0
unfolding add_local
add_local-Gains true patch l v c h = addition-Gains patch l v c h
add_local-Gains false patch l v c h = ((l, false), refl, (v, λ y. ground arith))

pub deletion-Loses :
    (patch : ℕ) (l : IntervalList)
    → IsValid l
    → CanSeek patch l.intervals
    → (r : IntervalList × Bool) × (Interval.deletion patch l ≡ some r) × Loses patch l r.0
deletion-Loses patch l v c =
    let (r, run, same, (chain, set, changed, starts)) = deletion-Deleted patch l v c in
    (r, run, (rw same chain, set))

pub add_positions-Sets :
    (b : Bool) (patch : ℕ) (p : PatchPositions) (m : List Version)
    → Ascends 0 m
    → CanSeekVersion patch m
    → (r : List Version × Bool) × (add_positions b patch p m ≡ some r) × Sets b patch p m r.0
unfolding add_positions
add_positions-Sets true patch p m a c = (positions_laws patch p m a c).1
add_positions-Sets false patch p m a c = ((m, false), refl, (a, λ q. refl))

-- Adding the element of a patch below the limits always finishes where the lists may be searched: the
-- value stays sound, its patches gain the patch, its local changes do for a local change only, and its
-- positions are set for a class with positions only.
pub add-Gains :
    (positioned local_change : Bool) (patch : ℕ) (p : PatchPositions) (v : DeletionValue)
    → IsSound v.elements
    → CanSeekIn patch v.elements
    → patch < v.elements.patches.max
    → patch < v.elements.local_changes.max
    → (r : DeletionValue × Bool) × (add positioned patch local_change p v ≡ some r)
      × Gains true patch v.elements.patches r.0.elements.patches
      × Gains local_change patch v.elements.local_changes r.0.elements.local_changes
      × Sets positioned patch p v.elements.position_vec r.0.elements.position_vec
unfolding add addition
add-Gains positioned local_change patch p v s c h h' =
    let (a, run, gains) = addition-Gains patch v.elements.patches s.0 c.0 h in
    let (b, run', gains') =
      add_local-Gains local_change patch v.elements.local_changes s.1 c.1 h' in
    let (d, run'', sets) = add_positions-Sets positioned patch p v.elements.position_vec s.2 c.2 in
    (
      with_elements v
          (record { patches = a.0; local_changes = b.0; position_vec = d.0 }, a.1 || (b.1 || d.1)),
      rw (run, run', run'') refl,
      gains,
      gains',
      sets,
    )

-- Deleting a patch always finishes where the lists may be searched: the interval lists stay valid, the
-- patches and the local changes lose the patch, and the positions stay.
pub del-Loses :
    (patch : ℕ) (v : DeletionValue)
    → IsSound v.elements
    → CanSeekIn patch v.elements
    → (r : DeletionValue × Bool) × (del patch v ≡ some r)
      × Loses patch v.elements.patches r.0.elements.patches
      × Loses patch v.elements.local_changes r.0.elements.local_changes
      × (r.0.elements.position_vec ≡ v.elements.position_vec)
unfolding del deletion delete_positions
del-Loses patch v s c =
    let (a, run, loses) = deletion-Loses patch v.elements.patches s.0 c.0 in
    let (b, run', loses') = deletion-Loses patch v.elements.local_changes s.1 c.1 in
    (
      with_elements v (
        record { patches = a.0; local_changes = b.0; position_vec = v.elements.position_vec },
        a.1 || (b.1 || false),
      ),
      rw (run, run') refl,
      loses,
      loses',
      refl,
    )
