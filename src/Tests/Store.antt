-- ===== src/Tests/Store.antt =====
-- The statements and the retention on a sample database.
use hannah_logcollector.Prelude.{
  ℕ, ◌+◌, ◌*◌, ◌≡◌, ◌≢◌, ◌≤◌, refl, ◌⊎◌, true, false, List, [], ◌∷◌, ◌++◌, map, some, arith, ltb,
  if◌then◌else◌, ℤ, pos, All, length,
}
use hannah_logcollector.Prelude.Perm.{Distinct}
use hannah_logcollector.Text.{codes, equal}
use hannah_logcollector.Store.Sql.{Row, Engine, IsEngine, State, ok, failed, entry_ids}
use hannah_logcollector.Store.Queries.{insert_entries, upsert_source, Filter, conds, args, all_hold}
use hannah_logcollector.Store.Queries.Inserts.{insert_entries_atomic}
use hannah_logcollector.Store.Queries.Sources.{Registers, upsert_source-Registers}
use mathlib.Core.List.{Permᴰ}
use hannah_logcollector.Prelude.Sort.{Pairwise}
use hannah_logcollector.Prelude.{keep_if}
use hannah_logcollector.Store.Queries.{each_entry}
use hannah_logcollector.Store.Queries.Rows.{wanted, Comes, each_entry-Pairwise}
use hannah_logcollector.Store.{Gap}
use hannah_logcollector.Store.Queries.Gaps.{
  gap_conds, gap_args, gap_all_hold, overlaps, gap_all_hold-overlaps,
}
use hannah_logcollector.Store.Queries.Filters.{passes, all_hold-passes}
use hannah_logcollector.Store.Prune.{Pruned, prune, cutoff_of}
use hannah_logcollector.Store.Prune.Newest.{Retained, prune_keeps_newest}
use hannah_logcollector.Tests.Samples.{satellite, warning}

-- One more than the largest number.
abbrev above : List ℕ → ℕ
above [] = 1
above (i ∷ ids) = (if ltb i (above ids) then above ids else i + 1)

above_lem : (ids : List ℕ) → All (λ i. i + 1 ≤ above ids) ids
above_lem [] = tt
above_lem (i ∷ ids) = (ground arith, later ids (above_lem ids))
  where
    later : (js : List ℕ) → All (λ j. j + 1 ≤ above ids) js → All (λ j. j + 1 ≤ above (i ∷ ids)) js
    later [] h = tt
    later (j ∷ js) h = (ground arith, later js h.1)

below-ne : (n : ℕ) (ids : List ℕ) → All (λ i. i + 1 ≤ n) ids → All (λ i. n ≢ i) ids
below-ne n [] h = tt
below-ne n (i ∷ ids) h = (omega arith, below-ne n ids h.1)

-- A page for each row, and no statement that fails.
abbrev pub engine : Engine
engine = record {
  fails = λ _. false;
  next_id = above;
  page_count = λ _ db. length db.entries + 3;
  freelist_count = λ _ _. 0;
  page_size = 4096;
}

pub engine-IsEngine : IsEngine engine
engine-IsEngine = record { next_id-fresh = λ ids. below-ne (above ids) ids (above_lem ids) }

abbrev at_time : ℕ → ℕ → Row
at_time id ms = record { id = id; entry = record warning { timestamp_ms = pos ms } }

abbrev pub start : State
start = record {
  db = record {
    sources = satellite ∷ [];
    entries = at_time 1 5000 ∷ at_time 2 4000 ∷ at_time 3 6000 ∷ [];
    gaps = [];
  };
  clock = 0;
}

insert_entries_atomic_example :
    let (result, s') = insert_entries engine (warning ∷ []) start in
    ((result ≡ ok tt)
        × (map (λ (r : Row). r.entry) s'.db.entries
            ≡ map (λ (r : Row). r.entry) start.db.entries ++ warning ∷ [])
      ⊎ (result ≡ failed) × (s'.db ≡ start.db))
    × Distinct (entry_ids s'.db)
insert_entries_atomic_example =
    insert_entries_atomic engine (warning ∷ []) start engine-IsEngine (omega arith)

abbrev filter : Filter
filter = record {
  since_ms = pos 1;
  until_ms = pos 0;
  components = codes "core" ∷ codes "hannah-esp" ∷ [];
  exclude_categories = pos 7 ∷ [];
}

all_hold-passes_example :
    all_hold (conds filter) warning (codes "hannah-esp") (args filter)
    ≡ passes filter warning (codes "hannah-esp")
all_hold-passes_example = all_hold-passes filter warning (codes "hannah-esp")

passes_filter : all_hold (conds filter) warning (codes "hannah-esp") (args filter) ≡ true
unfolding all_hold conds args equal
passes_filter = refl

-- Now, and an age, in nanoseconds: the cutoff is 4.5 s after 1970.
abbrev now : ℤ
now = pos (62_135_596_800 * 1_000_000_000 + 10_000_000_000)

abbrev age : ℤ
age = pos 5_500_000_000

prune_keeps_newest_example :
    (p : Pruned) × (prune engine now age (pos 20000) start ≡ some p)
    × Retained engine (cutoff_of now age) (pos 20000) start p
prune_keeps_newest_example = prune_keeps_newest engine now age (pos 20000) start (omega arith)

-- A name that is there, and another one.
upsert_source-Registers_example :
    Registers
      (codes "satellite")
      (codes "kitchen")
      (codes "2.0")
      (codes "core")
      []
      start.db
      (upsert_source engine (codes "satellite") (codes "kitchen") (codes "2.0") start)
upsert_source-Registers_example =
    upsert_source-Registers engine (codes "satellite") (codes "kitchen") (codes "2.0")
      (codes "core") [] start engine-IsEngine (omega arith)

each_entry-Pairwise_example :
    let (result, s') = each_entry engine filter start in
    (s'.db ≡ start.db)
    × ((result ≡ failed)
        ⊎ ((rows : List Row) × (result ≡ ok (map (λ (r : Row). r.entry) rows))
            × Permᴰ (keep_if (wanted filter start.db.sources) start.db.entries) rows
            × Pairwise Comes rows))
each_entry-Pairwise_example = each_entry-Pairwise engine filter start

abbrev lost : Gap
lost = record { source_id = 1; dropped = pos 3; from_ms = pos 10; to_ms = pos 20 }

gap_all_hold-overlaps_example :
    gap_all_hold (gap_conds filter) lost (codes "core") (gap_args filter)
    ≡ overlaps filter lost (codes "core")
gap_all_hold-overlaps_example = gap_all_hold-overlaps filter lost (codes "core")
