-- ===== src/Store/Queries/Stats.antt =====
-- `Sources` of internal/store/store.go: every source that has entries, with its time range; and
-- `GetSources` of internal/server, which hands it on.
pub mod Describes
pub mod Count
use mathlib.Core.Option
use hannah_logcollector.Prelude.{
  ℕ, ◌+◌, Bool, not, ◌&&◌, ◌||◌, List, [], ◌∷◌, map, ◌==◌, if◌then◌else◌, ℤ, leb_ℤ, keep_if,
}
use hannah_logcollector.Prelude.Sort.{sort}
use hannah_logcollector.Text.{Bytes, less, equal}
use hannah_logcollector.Store.{Source}
use hannah_logcollector.Store.Sql.{Row, Engine, Sql, Result, ok, failed, query}

-- `SourceStats`
pub record SourceStats : Type 0 where
  pub source : Source
  pub oldest_ms : ℤ
  pub newest_ms : ℤ
  pub entries : ℕ

abbrev pub of_source : ℕ → Row → Bool
of_source id r = r.entry.source_id == id

abbrev pub min_ℤ : ℤ → ℤ → ℤ
min_ℤ a b = if leb_ℤ a b then a else b

abbrev pub max_ℤ : ℤ → ℤ → ℤ
max_ℤ a b = if leb_ℤ a b then b else a

-- MIN(e.ts_ms), MAX(e.ts_ms) and COUNT(*) of a group that is not empty.
unfoldable pub grouped : Source → Row → List Row → SourceStats
grouped s r [] = record {
  source = s;
  oldest_ms = r.entry.timestamp_ms;
  newest_ms = r.entry.timestamp_ms;
  entries = 1;
}
grouped s r (q ∷ rows) =
    let rest = grouped s q rows in
    record {
      source = s;
      oldest_ms = min_ℤ r.entry.timestamp_ms rest.oldest_ms;
      newest_ms = max_ℤ r.entry.timestamp_ms rest.newest_ms;
      entries = rest.entries + 1;
    }

-- GROUP BY s.id: a source without entries has no group.
abbrev pub group : Source → List Row → List SourceStats → List SourceStats
group s [] others = others
group s (r ∷ rows) others = grouped s r rows ∷ others

unfoldable pub groups : List Row → List Source → List SourceStats
groups rows [] = []
groups rows (s ∷ sources) = group s (keep_if (of_source s.id) rows) (groups rows sources)

-- ORDER BY s.component, s.instance
abbrev pub by_name : Source → Source → Bool
by_name a b =
    less a.component b.component
    || (equal a.component b.component && not (less b.instance_name a.instance_name))

-- `Sources`
unfoldable pub sources_of : Engine → Sql (List SourceStats)
sources_of g = query g (λ s. groups s.db.entries (sort by_name s.db.sources))

-- `LogSource`
pub record LogSource : Type 0 where
  pub component : Bytes
  pub instance_name : Bytes
  pub version : Bytes
  pub oldest_ms : ℤ
  pub newest_ms : ℤ
  pub entries : ℕ

abbrev pub log_source : SourceStats → LogSource
log_source st = record {
  component = st.source.component;
  instance_name = st.source.instance_name;
  version = st.source.version;
  oldest_ms = st.oldest_ms;
  newest_ms = st.newest_ms;
  entries = st.entries;
}

-- `GetSources`; a failure is the status Internal.
abbrev pub answer_sources : Result (List SourceStats) → Result (List LogSource)
answer_sources failed = failed
answer_sources (ok stats) = ok (map log_source stats)

unfoldable pub get_sources : Engine → Sql (List LogSource)
get_sources g s = let (result, s') = sources_of g s in (answer_sources result, s')
