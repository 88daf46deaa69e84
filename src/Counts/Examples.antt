-- ===== src/Counts/Examples.antt =====
-- The counters at a few triples, with a store that is a function.
use ostrich.Base.{ℕ, ◌+◌, ◌^◌, ◌≡◌, refl, none, List, [], ◌∷◌, arith, All}
use ostrich.Base.Int.{pos}
use ostrich.Triple.{Triple, TripleVersion, triple}
use ostrich.Counts.Functions.{positions_db, counts_db}
use ostrich.Base.{Option, ◌||◌, ltb, if◌then◌else◌}
use ostrich.Counts.Functions.{set_at}
use ostrich.Counts.Lasting.{AreRecords, get_addition_count-flushed}
use ostrich.Counts.{increment_addition_counts, min_addition_count}
use ostrich.Counts.{positions, get_addition_count, flush_addition_counts}
use ostrich.Counts.Positions.{
  counters_after, positions-counted, counted, count, positions_collide, AreSmall,
}
use ostrich.Counts.Additions.{
  Addition, counts_after, matches, IsProper, same_version, flush_addition_counts-first,
}

abbrev before : List Triple
before = triple 7 8 9 ∷ triple 7 8 2 ∷ triple 3 8 9 ∷ []

before-AreSmall : All AreSmall before
before-AreSmall = (
  (omega arith, omega arith, omega arith),
  ((omega arith, omega arith, omega arith), ((omega arith, omega arith, omega arith), tt)),
)

positions-counted_example :
    (positions positions_db (triple 7 8 5) (counters_after positions_db before)).0
    ≡ counted (triple 7 8 5) before
positions-counted_example =
    positions-counted positions_db (triple 7 8 5) before (omega arith, omega arith, omega arith)
      before-AreSmall

positions_collide_example :
    (positions positions_db
      (triple (5 + 2 ^ 16) 1 4)
      (counters_after positions_db (triple 5 1 3 ∷ []))).0.sp
    ≡ pos 1
positions_collide_example = positions_collide positions_db 5 3 4 (omega arith)

abbrev additions : List Addition
additions = (2, triple 7 8 5) ∷ []

additions-IsProper : All (λ a. IsProper a.1) additions
additions-IsProper = ((omega arith, omega arith, omega arith), tt)

abbrev key : ℕ → ℕ → ℕ → TripleVersion
key s p o = record { patch_id = 2; version_of = triple s p o }

abbrev records : List (TripleVersion × ℕ)
records =
    (key 0 0 0, 1)
    ∷ (key 0 8 5, 1)
    ∷ (key 0 8 0, 1)
    ∷ (key 7 0 5, 1)
    ∷ (key 7 0 0, 1)
    ∷ (key 7 8 0, 1)
    ∷ []

records-AreRecords :
    AreRecords counts_db (counts_after counts_db additions) ((key 0 0 5, 1) ∷ records)
unfolding counts_after increment_addition_counts set_at
records-AreRecords = ((refl, (refl, (refl, (refl, (refl, (refl, (refl, tt))))))), λ v. refl)

-- An earlier flush has saved 250 for this pattern.
abbrev lasting : TripleVersion → Option ℕ
lasting = counts_db.set (key 7 0 0) 250 counts_db.empty

get_addition_count-flushed_example :
    get_addition_count counts_db 2
      (triple 7 0 0)
      (flush_addition_counts counts_db ((key 0 0 5, 1) ∷ records) lasting).1
    ≡ (if same_version (key 0 0 5) (key 7 0 0)
          || ltb (count (matches 2 (triple 7 0 0)) additions) min_addition_count
        then get_addition_count counts_db 2 (triple 7 0 0) lasting
        else count (matches 2 (triple 7 0 0)) additions)
get_addition_count-flushed_example =
    get_addition_count-flushed counts_db 2 (triple 7 0 0) additions (key 0 0 5, 1) records lasting
      additions-IsProper refl records-AreRecords

abbrev version : ℕ → TripleVersion
version s = record { patch_id = 0; version_of = triple s 0 0 }

flush_addition_counts-first_example :
    counts_db.get
      (version 1)
      (flush_addition_counts counts_db ((version 1, 500) ∷ (version 2, 500) ∷ []) counts_db.empty).1
    ≡ none
flush_addition_counts-first_example =
    flush_addition_counts-first counts_db (version 1) 500 ((version 2, 500) ∷ []) counts_db.empty
      refl
