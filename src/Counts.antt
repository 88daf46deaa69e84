-- ===== src/Counts.antt =====
-- The counters that an insertion into a patch tree keeps in Kyoto Cabinet stores:
-- `contains_and_increment_position` and `Patch::positions` of src/main/cpp/patch/patch.cc, and the
-- addition counts of src/main/cpp/patch/triple_store.cc.
pub mod Positions
pub mod Additions
pub mod Lasting
pub mod Functions
mod Examples
use ostrich.Base.{ℕ, ◌+◌, ◌*◌, ◌%◌, ◌^◌, ◌≡◌, ◌≢◌, Option, none, some, List, [], ◌∷◌, bit_or}
use ostrich.Base.{leb, if◌then◌else◌, drop}
use ostrich.Base.Int.{pos}
use ostrich.Positions.{PatchPositions}
use ostrich.Triple.{Triple, TripleVersion, triple}

-- A `kyotocabinet::HashDB`: what the code uses of it, and what the library documents.
pub record HashDb (S K V : Type 0) : Type 0 where
  pub empty : S
  pub get : K → S → Option V
  pub set : K → V → S → S
  pub get-empty : (k : K) → get k empty ≡ none
  pub get-set_same : (k : K) (v : V) (s : S) → get k (set k v s) ≡ some v
  pub get-set_other : (k j : K) (v : V) (s : S) → k ≢ j → get j (set k v s) ≡ get j s

-- `PatchPosition pos = 0;` and the value that is there, if any.
abbrev pub or_zero : Option ℕ → ℕ
or_zero none = 0
or_zero (some n) = n

module _ {S K : Type 0} (db : HashDb S K ℕ) where
  -- The position before this call, and the store with the next one.
  unfoldable pub contains_and_increment_position : K → S → ℕ × S
  contains_and_increment_position hash m =
      let p = or_zero (db.get hash m) in (p, db.set hash (p + 1) m)

-- `a | (b << 16)`
unfoldable pub pair_hash : ℕ → ℕ → ℕ
pair_hash a b = bit_or a (b * 2 ^ 16 % 2 ^ 64)

unfoldable pub hash_sp : Triple → ℕ
unfolding pair_hash
hash_sp t = pair_hash t.subject t.predicate

unfoldable pub hash_so : Triple → ℕ
unfolding pair_hash
hash_so t = pair_hash t.subject t.object

unfoldable pub hash_po : Triple → ℕ
unfolding pair_hash
hash_po t = pair_hash t.predicate t.object

-- The six stores and the counter for the pattern of variables only.
pub record Counters (S : Type 0) : Type 0 where
  pub sp : S
  pub so : S
  pub s : S
  pub po : S
  pub p : S
  pub o : S
  pub any : ℕ

module _ {S : Type 0} (db : HashDb S ℕ ℕ) where
  -- `clear_temp_insertion_trees()`, with `PatchPosition ___ = 0;`
  abbrev pub no_counters : Counters S
  no_counters = record {
    sp = db.empty;
    so = db.empty;
    s = db.empty;
    po = db.empty;
    p = db.empty;
    o = db.empty;
    any = 0;
  }

  unfoldable pub positions : Triple → Counters S → PatchPositions × Counters S
  unfolding contains_and_increment_position hash_sp hash_so hash_po
  positions t c =
      let (sp, sp') = contains_and_increment_position db (hash_sp t) c.sp in
      let (so, so') = contains_and_increment_position db (hash_so t) c.so in
      let (s, s') = contains_and_increment_position db t.subject c.s in
      let (po, po') = contains_and_increment_position db (hash_po t) c.po in
      let (p, p') = contains_and_increment_position db t.predicate c.p in
      let (o, o') = contains_and_increment_position db t.object c.o in
      (
        record {
          sp = pos sp;
          so = pos so;
          s = pos s;
          po = pos po;
          p = pos p;
          o = pos o;
          any = pos c.any;
        },
        record { sp = sp'; so = so'; s = s'; po = po'; p = p'; o = o'; any = c.any + 1 },
      )

module _ {S : Type 0} (db : HashDb S TripleVersion ℕ) where
  unfoldable pub increment_addition_count : TripleVersion → S → S
  increment_addition_count v m = db.set v (or_zero (db.get v m) + 1) m

  unfoldable pub increment_addition_counts : ℕ → Triple → S → S
  unfolding increment_addition_count
  increment_addition_counts patch_id t m =
      let at : Triple → S → S = λ pattern.
        increment_addition_count (record { patch_id = patch_id; version_of = pattern }) in
      at (triple 0 0 t.object) (
        at (triple 0 0 0) (
          at (triple 0 t.predicate t.object) (
            at (triple 0 t.predicate 0) (
              at (triple t.subject 0 t.object)
                (at (triple t.subject 0 0) (at (triple t.subject t.predicate 0) m))))))

  unfoldable pub get_addition_count : ℕ → Triple → S → ℕ
  get_addition_count patch_id t m =
      or_zero (db.get (record { patch_id = patch_id; version_of = t }) m)

-- `MIN_ADDITION_COUNT`
abbrev pub min_addition_count : ℕ
min_addition_count = 100

module _ {S : Type 0} (db : HashDb S TripleVersion ℕ) where
  -- The records that the loop of `flush_addition_counts` reads, into the lasting counts.
  unfoldable pub flush_records : List (TripleVersion × ℕ) → S → ℕ × S
  flush_records [] counts = (0, counts)
  flush_records ((v, count) ∷ records) counts =
      if leb min_addition_count count
      then (let (added, m) = flush_records records (db.set v count counts) in (added + 1, m))
      else flush_records records counts

  -- `cursor->jump(); while (cursor->step())` over the records of the store in the order of its cursor:
  -- each round steps before it reads.
  unfoldable pub flush_addition_counts : List (TripleVersion × ℕ) → S → ℕ × S
  unfolding flush_records
  flush_addition_counts records counts = flush_records (drop 1 records) counts
