-- ===== src/Tests/Service.antt =====
-- The service on a sample archive, an entry of an older component, and a sample database.
use mathlib.Core.Option
use mathlib.Core.List.{Permᴰ}
use hannah_logcollector.Prelude.{
  ◌≡◌, ◌⊎◌, refl, sym, inl, inr, Bool, true, false, Bool-cases, List, [], ◌∷◌, map, Option, none,
  some, ℤ, pos, eq_ℤ, length, keep_if, All, if◌then◌else◌, arith,
}
use hannah_logcollector.Prelude.Sort.{Pairwise}
use hannah_logcollector.Text.{Bytes, codes, equal}
use hannah_logcollector.Text.Laws.{equal_iff}
use hannah_logcollector.Store.Sql.{ok, failed}
use hannah_logcollector.Store.Queries.Stats.{SourceStats, LogSource, get_sources}
use hannah_logcollector.Store.Queries.Stats.Count.{
  Reports, ListedBefore, has_entries, has_source, total, get_sources_describes,
}
use hannah_logcollector.Store.Queries.Stats.Describes.{Listed}
use hannah_logcollector.Store.Writer.{Writer, new_writer, add}
use hannah_logcollector.Server.Chunks.{Channel, IsChannel, Streamed, stream_archive}
use hannah_logcollector.Server.Chunks.Whole.{Delivers, stream_archive-Delivers}
use hannah_logcollector.Server.Ship.{message, entry, LogEntry, shipping, Call}
use hannah_logcollector.Server.Legacy.{Generations, v1_receive}
use hannah_logcollector.Server.Legacy.Names.{Matching, Carries, v1_entry_by_name}
use hannah_logcollector.Tests.Store.{engine, start}

-- Two bytes at a time, and nothing fails.
abbrev pub channel : Channel
channel = record { size = λ k. 2; read_fails = λ k. false; send_fails = λ k. false }

pub channel-IsChannel : IsChannel channel
channel-IsChannel = record { size_pos = λ k. omega arith; size_fits = λ k. omega arith }

stream_archive-Delivers_example :
    (out : Streamed) × (stream_archive channel 6 0 (codes "tar") ≡ some out)
    × Delivers (codes "tar") out
stream_archive-Delivers_example =
    stream_archive-Delivers channel channel-IsChannel 6 0 (codes "tar") (omega arith)

two_chunks :
    Option.map (λ (out : Streamed). out.sent) (stream_archive channel 6 0 (codes "tar"))
    ≡ some (codes "ta" ∷ codes "r" ∷ [])
unfolding stream_archive
two_chunks = refl

-- The older generation counts its levels from another number.
abbrev v1_names : ℤ → Bytes
v1_names n = if eq_ℤ n (pos 30) then codes "LOG_LEVEL_WARNING" else codes "OTHER"

abbrev v2_values : Bytes → Option ℤ
v2_values name = if equal name (codes "LOG_LEVEL_WARNING") then some (pos 3) else none

abbrev v2_names : ℤ → Bytes
v2_names n = if eq_ℤ n (pos 3) then codes "LOG_LEVEL_WARNING" else codes "LOG_LEVEL_UNSPECIFIED"

abbrev generations : Generations
generations = record {
  v1_level = v1_names;
  v1_category = v1_names;
  level_value = v2_values;
  category_value = v2_values;
}

three :
    (known : Bool) (n : ℤ)
    → known ≡ true
    → (if known then some (pos 3) else none) ≡ some n
    → n ≡ pos 3
three true n e h = cc
three false n e h = ground arith

unknown :
    (known : Bool) (n : ℤ) → known ≡ false → (if known then some (pos 3) else none) ≡ some n → ⊥
unknown known n e h = ground arith

value_named : (name : Bytes) (n : ℤ) → v2_values name ≡ some n → v2_names n ≡ name
value_named name n h = elim (Bool-cases (equal name (codes "LOG_LEVEL_WARNING"))) [
  | inl e ↦ rw (three _ n e h) (sym ((equal_iff name _).0 e))
  | inr e ↦ absurd (unknown _ n e h)
]

generations-Matching : Matching generations v2_names v2_names
generations-Matching = record { level-named = value_named; category-named = value_named }

abbrev old_line : LogEntry
old_line = record {
  timestamp_ms = pos 7000;
  level = pos 30;
  logger = [];
  message = codes "hot";
  category = pos 1;
}

abbrev in_loop : Call
in_loop = record { phase = shipping 2 0; shipped = [] }

abbrev idle : Writer
idle = new_writer 2 start none

v1_entry_by_name_example :
    let (c', w') = v1_receive generations engine (message (entry old_line)) in_loop idle in
    (level category : ℤ) × (w'
      ≡ add
          (record {
            source_id = 2;
            timestamp_ms = pos 7000;
            level = level;
            logger = [];
            message = codes "hot";
            category = category;
          })
          idle)
    × (c'.phase ≡ shipping 2 1)
    × Carries v2_values v2_names (v1_names (pos 30)) level
    × Carries v2_values v2_names (v1_names (pos 1)) category
v1_entry_by_name_example =
    v1_entry_by_name generations v2_names v2_names generations-Matching engine 2 0 old_line in_loop
      idle refl

get_sources_describes_example :
    let (result, s') = get_sources engine start in
    (s'.db ≡ start.db)
    × ((result ≡ failed)
        ⊎ ((stats : List SourceStats) × (out : List LogSource) × (result ≡ ok out)
            × Reports stats out
            × All (Listed start.db.entries) stats
            × Permᴰ
                (keep_if (has_entries start.db.entries) start.db.sources)
                (map (λ (st : SourceStats). st.source) stats)
            × Pairwise ListedBefore (map (λ (st : SourceStats). st.source) stats)
            × (total stats ≡ length (keep_if (has_source start.db.sources) start.db.entries))))
get_sources_describes_example = get_sources_describes engine start (omega arith)
