-- ===== src/Tests/Export.antt =====
-- The archive of the sample database, and its delivery.
use hannah_logcollector.Prelude.{
  ◌+◌, ◌*◌, ◌≡◌, refl, false, true, List, [], ◌∷◌, ◌++◌, map, Option, some, ℤ, pos, arith, div_ℤ,
  mod_ℤ,
}
use hannah_logcollector.Prelude.Lists.{All, length}
use hannah_logcollector.Prelude.Sort.{sort, insert}
use hannah_logcollector.Text.{Bytes, codes, equal, has_prefix, trim_prefix}
use hannah_logcollector.Text.Utf8.{rune_width}
use hannah_logcollector.Text.Decimal.{itoa}
use hannah_logcollector.Time.{format_ms, print_year, date_of, unix_milli}
use hannah_logcollector.Store.Sql.{ok}
use hannah_logcollector.Store.Queries.{
  Filter, select_rows, all_sources, each_entry, source_of, conds, args, all_hold,
}
use hannah_logcollector.Store.Queries.Gaps.{gaps_of}
use hannah_logcollector.Export.Line.{format_line, file_name}
use hannah_logcollector.Export.Line.Safe.{AllSafe, file_name-AllSafe}
use hannah_logcollector.Export.Manifest.{Manifest}
use hannah_logcollector.Export.Build.{
  Member, build, started, until_now, take_entries, take_entry, write_manifest,
}
use hannah_logcollector.Export.Table.{take_gaps}
use hannah_logcollector.Export.Build.Temp.{build-leaves_nothing}
use hannah_logcollector.Export.Build.Holds.{Archives}
use hannah_logcollector.Export.Build.Archive.{build-Archives}
use hannah_logcollector.Export.Build.Success.{build_succeeds}
use hannah_logcollector.Server.Legacy.{ExportRequest}
use hannah_logcollector.Server.Export.{Host, serve_export}
use hannah_logcollector.Server.Export.Delivered.{
  Answered, Cleared, requested, serve_export-Answered,
}
use hannah_logcollector.Tests.Samples.{proto}
use hannah_logcollector.Tests.Store.{engine, start}
use hannah_logcollector.Tests.Service.{channel, channel-IsChannel}

-- A text for every manifest.
abbrev marshal : Manifest → Option Bytes
marshal m = some m.until

abbrev now : ℤ
now = pos (62_135_596_800 * 1_000_000_000 + 10_000_000_000)

abbrev filter : Filter
filter = record { since_ms = pos 4500; until_ms = pos 0; components = []; exclude_categories = [] }

-- The lines of the source in one file, and the manifest.
archive_lem :
    map
      (λ (m : Member). m.name)
      (build (λ _. false) proto marshal engine now filter (started start)).1.members
    ≡ codes "hannah-esp-esp_1.log" ∷ codes "manifest.json" ∷ []
unfolding build started all_sources each_entry select_rows sort insert conds args all_hold source_of
    take_entries take_entry file_name gaps_of take_gaps write_manifest equal unix_milli div_ℤ
archive_lem = refl

line_lem :
    format_line proto (record {
      source_id = 1;
      timestamp_ms = pos 0;
      level = pos 3;
      logger = codes "net";
      message = codes "up";
      category = pos 1;
    })
    ≡ codes "1970-01-01T00:00:00.000Z WARNING  net: up\n"
unfolding format_line trim_prefix has_prefix rune_width format_ms print_year date_of div_ℤ mod_ℤ
    itoa
line_lem = refl

build_succeeds_example :
    (build (λ _. false) proto marshal engine now filter (started start)).0 ≡ ok tt
build_succeeds_example =
    build_succeeds proto marshal engine now (λ m. ground arith) (λ k. refl) filter start

build-leaves_nothing_example :
    let w = (build (λ _. false) proto marshal engine now filter (started start)).1 in
    (w.temp_files ≡ length w.unremoved)
    × All (λ _. false ≡ true) w.unremoved
    × (w.store.db ≡ start.db)
build-leaves_nothing_example =
    build-leaves_nothing (λ _. false) proto marshal engine now filter start

built : (build (λ _. false) proto marshal engine now filter (started start)).0 ≡ ok tt
built = build_succeeds proto marshal engine now (λ m. ground arith) (λ k. refl) filter start

build-Archives_example :
    Archives proto marshal now
      (until_now now filter)
      start.db
      (build (λ _. false) proto marshal engine now filter (started start)).1.members
build-Archives_example = build-Archives (λ _. false) proto marshal engine now filter start built

file_name-AllSafe_example : AllSafe (file_name (codes "../a b") (codes "x"))
file_name-AllSafe_example = file_name-AllSafe (codes "../a b") (codes "x")

-- The bytes of an archive are those of its files.
abbrev pack : List Member → Bytes
pack [] = []
pack (m ∷ members) = m.name ++ (m.content ++ pack members)

abbrev host : Host
host = record {
  create_fails = false;
  build_fails = λ _. false;
  marshal = marshal;
  pack = pack;
  seek_fails = false;
  remove_fails = false;
  channel = channel;
  now = now;
}

abbrev request : ExportRequest
request = record { since_ms = pos 4500; until_ms = pos 0; components = []; exclude_categories = [] }

serve_export-Answered_example :
    let out = serve_export proto engine host (ok tt) request start in
    Answered proto host (requested request now) start.db out.answer
    × Cleared proto engine host channel-IsChannel start out
serve_export-Answered_example =
    serve_export-Answered proto engine host channel-IsChannel (ok tt) request start
