-- ===== src/Server/Legacy.antt =====
-- internal/server/v1.go: components that speak hannah.v1. Each message is converted to its
-- counterpart of hannah.v2. The messages of the two generations have the same parts, so one type
-- serves for both; their enums are only assumed to share names.
pub mod Names
use mathlib.Core.Option
use hannah_logcollector.Prelude.{◌≡◌, refl, ap, List, [], ◌∷◌, map, Option, none, some, ℤ, pos}
use hannah_logcollector.Text.{Bytes}
use hannah_logcollector.Store.Sql.{Engine, State, Result, ok, failed, Sql}
use hannah_logcollector.Store.Queries.Stats.{LogSource, get_sources}
use hannah_logcollector.Store.Writer.{Writer}
use hannah_logcollector.Server.Ship.{
  Payload, hello, entry, gap, unknown, Received, message, end_of_stream, broken, LogEntry, Call,
  receive,
}

-- What the generated packages give: `String` of the enums of hannah.v1, and the maps
-- `LogLevel_value` and `LogCategory_value` of hannah.v2 from names to numbers.
pub record Generations : Type 0 where
  pub v1_level : ℤ → Bytes
  pub v1_category : ℤ → Bytes
  pub level_value : Bytes → Option ℤ
  pub category_value : Bytes → Option ℤ

-- A Go map has 0 for a key that is not there.
abbrev pub value_or_zero : Option ℤ → ℤ
value_or_zero none = pos 0
value_or_zero (some n) = n

module _ (gen : Generations) where
  unfoldable pub convert_level : ℤ → ℤ
  convert_level l = value_or_zero (gen.level_value (gen.v1_level l))

  unfoldable pub convert_category : ℤ → ℤ
  convert_category c = value_or_zero (gen.category_value (gen.v1_category c))

  abbrev pub convert_entry : LogEntry → LogEntry
  convert_entry e = record {
    timestamp_ms = e.timestamp_ms;
    level = convert_level e.level;
    logger = e.logger;
    message = e.message;
    category = convert_category e.category;
  }

  abbrev pub convert : Payload → Payload
  convert (hello h) = hello h
  convert (entry e) = entry (convert_entry e)
  convert (gap x) = gap x
  convert unknown = unknown

  -- `v1ShipStream.Recv`
  unfoldable pub recv : Received → Received
  recv end_of_stream = end_of_stream
  recv broken = broken
  recv (message p) = message (convert p)

  -- `v1Server.Ship`, one message of it
  unfoldable pub v1_receive : Engine → Received → Call → Writer → Call × Writer
  v1_receive g r c w = receive g (recv r) c w

-- `ExportRequest`
pub record ExportRequest : Type 0 where
  pub since_ms : ℤ
  pub until_ms : ℤ
  pub components : List Bytes
  pub exclude_categories : List ℤ

-- The request that `v1Server.Export` makes.
unfoldable pub convert_request : Generations → ExportRequest → ExportRequest
convert_request gen req = record {
  since_ms = req.since_ms;
  until_ms = req.until_ms;
  components = req.components;
  exclude_categories = map (convert_category gen) req.exclude_categories;
}

-- The loop of `v1Server.GetSources`, which copies each source.
unfoldable pub copy_sources : List LogSource → List LogSource
copy_sources [] = []
copy_sources (s ∷ rest) =
    record {
      component = s.component;
      instance_name = s.instance_name;
      version = s.version;
      oldest_ms = s.oldest_ms;
      newest_ms = s.newest_ms;
      entries = s.entries;
    }
    ∷ copy_sources rest

abbrev pub copied : Result (List LogSource) → Result (List LogSource)
copied failed = failed
copied (ok found) = ok (copy_sources found)

-- `v1Server.GetSources`
unfoldable pub v1_get_sources : Engine → Sql (List LogSource)
v1_get_sources g s = let (result, s') = get_sources g s in (copied result, s')

copy_sources_lem : (found : List LogSource) → copy_sources found ≡ found
unfolding copy_sources
copy_sources_lem [] = refl
copy_sources_lem (s ∷ rest) = ap (◌∷◌ s) (copy_sources_lem rest)

copied_lem : (found : Result (List LogSource)) → copied found ≡ found
copied_lem failed = refl
copied_lem (ok found) = ap ok (copy_sources_lem found)

-- Both generations get the same sources.
pub v1_get_sources-get_sources : (g : Engine) (s : State) → v1_get_sources g s ≡ get_sources g s
unfolding v1_get_sources
v1_get_sources-get_sources g s = ap (λ t. (t, (get_sources g s).1)) (copied_lem (get_sources g s).0)
