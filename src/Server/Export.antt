-- ===== src/Server/Export.antt =====
-- `Export` of internal/server/server.go: the archive is built into a temp file and streamed from
-- there. The writer's answer to `Sync`, which comes first, is an argument, and so are the bytes
-- that archive/tar and compress/gzip make of the files.
pub mod Delivered
use hannah_logcollector.Prelude.{
  ℕ, ◌+◌, ◌-◌, true, false, suc, Bool, List, Option, none, some, ℤ, if◌then◌else◌, length,
}
use hannah_logcollector.Text.{Bytes}
use hannah_logcollector.Proto.{Proto}
use hannah_logcollector.Store.Sql.{Engine, State, Result, ok, failed}
use hannah_logcollector.Store.Queries.{Filter}
use hannah_logcollector.Export.Manifest.{Manifest}
use hannah_logcollector.Export.Build.{Member, Work, build, started}
use hannah_logcollector.Server.Chunks.{Channel, Streamed, stream_archive}
use hannah_logcollector.Server.Legacy.{Generations, ExportRequest, convert_request}

-- What is up to the environment of a call.
pub record Host : Type 0 where
  pub create_fails : Bool
  pub build_fails : ℕ → Bool
  pub marshal : Manifest → Option Bytes
  pub pack : List Member → Bytes
  pub seek_fails : Bool
  pub remove_fails : Bool
  pub channel : Channel
  pub now : ℤ

-- How `Export` returns: with a status before it sends anything, or at the end of its loop.
pub data Answer : Type 0 where
  flushing_failed creating_failed building_failed reading_failed : Answer
  streamed : Streamed → Answer
  unfinished : Answer

-- The outcome, with the database, the temp files that are left, and how many removals failed.
pub record Exported : Type 0 where
  pub answer : Answer
  pub store : State
  pub temp_files : ℕ
  pub unremoved : ℕ

unfoldable pub filter_of : ExportRequest → Filter
filter_of req = record {
  since_ms = req.since_ms;
  until_ms = req.until_ms;
  components = req.components;
  exclude_categories = req.exclude_categories;
}

abbrev pub answer_of : Option Streamed → Answer
answer_of none = unfinished
answer_of (some out) = streamed out

-- The deferred `os.Remove` of the archive, by whether it fails; its error is ignored.
abbrev pub remove_archive : Bool → Exported → Exported
remove_archive true out = record out { unremoved = out.unremoved + 1 }
remove_archive false out = record out { temp_files = out.temp_files - 1 }

-- A return before there is an archive.
abbrev pub given_up : Answer → State → Exported
given_up a s = record { answer = a; store = s; temp_files = 0; unremoved = 0 }

module _ (p : Proto) (g : Engine) (h : Host) where
  -- The loop over the archive, with fuel for a round per byte and one more.
  abbrev pub send_archive : Bytes → Answer
  send_archive archive =
      if h.seek_fails
      then reading_failed
      else answer_of (stream_archive h.channel (suc (length archive)) 0 archive)

  abbrev pub after_build : Result (Unit {0}) → Work → Answer
  after_build failed w = building_failed
  after_build (ok _) w = send_archive (h.pack w.members)

  -- The archive is one more temp file, which is removed whatever comes of the rest.
  abbrev pub create_archive : ExportRequest → State → Exported
  create_archive req s =
      if h.create_fails
      then given_up creating_failed s
      else let (r, w) = build h.build_fails p h.marshal g h.now (filter_of req) (started s) in
        remove_archive h.remove_fails (record {
          answer = after_build r w;
          store = w.store;
          temp_files = w.temp_files + 1;
          unremoved = length w.unremoved;
        })

  -- `Export`, with the answer of `Sync`.
  unfoldable pub serve_export : Result (Unit {0}) → ExportRequest → State → Exported
  unfolding filter_of
  serve_export failed req s = given_up flushing_failed s
  serve_export (ok _) req s = create_archive req s

  -- `v1Server.Export`
  unfoldable pub v1_serve_export :
      Generations → Result (Unit {0}) → ExportRequest → State → Exported
  v1_serve_export gen synced req s = serve_export synced (convert_request gen req) s
