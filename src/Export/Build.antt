-- ===== src/Export/Build.antt =====
-- `Build` of internal/export/export.go and the `stagedFile` it uses. Up to the database, the file
-- system and the writer of the archive is which of their operations fail; up to encoding/json is
-- the text of the manifest. What the archive holds counts once `Build` succeeds.
pub mod Rules
pub mod Temp
pub mod Effects
pub mod Contents
pub mod Tables
pub mod Standing
pub mod Collect
pub mod Listed
pub mod Gaps
pub mod Listing
pub mod Holds
pub mod Closing
pub mod Archive
pub mod Success
use hannah_logcollector.Prelude.{
  ℕ, ◌+◌, ◌-◌, Bool, false, List, [], ◌∷◌, ◌++◌, map, Option, none, some, ◌==◌, if◌then◌else◌, ℤ,
  pos, eq_ℤ,
}
use hannah_logcollector.Text.{Bytes, codes}
use hannah_logcollector.Time.{format_ms, unix_milli}
use hannah_logcollector.Proto.{Proto}
use hannah_logcollector.Store.{Source, Entry, Gap}
use hannah_logcollector.Store.Sql.{Engine, State, Result, ok, failed, Sql}
use hannah_logcollector.Store.Queries.{Filter, all_sources, each_entry}
use hannah_logcollector.Store.Queries.Gaps.{gaps_of}
use hannah_logcollector.Export.Line.{format_line}
use hannah_logcollector.Export.Manifest.{ManifestSource, Manifest, build_manifest}
use hannah_logcollector.Export.Table.{
  entry_at, change_at, with_source, named_at, opened_at, counted_at, file_at, take_gaps,
}

abbrev pub manifest_name : Bytes
manifest_name = codes "manifest.json"

-- A source's file that is being collected.
pub record StagedFile : Type 0 where
  pub source_id : ℕ
  pub name : Bytes
  pub content : Bytes

-- A file of the archive.
pub record Member : Type 0 where
  pub name : Bytes
  pub content : Bytes

-- The database, how many operations on files and rows there were, the map of manifest sources, the
-- staged file, the archive so far, how many temp files there are, and the removals that failed.
pub record Work : Type 0 where
  pub store : State
  pub operations : ℕ
  pub manifest : List (ℕ × ManifestSource)
  pub current : Option StagedFile
  pub members : List Member
  pub temp_files : ℕ
  pub unremoved : List ℕ

abbrev pub Job : Type 0 → Type 0
Job A = Work → Result A × Work

abbrev pub continue : {A B : Type 0} → Result A → Work → (A → Job B) → Result B × Work
continue (ok a) w f = f a w
continue failed w f = (failed, w)

infixl 5 ◌>>=◌ ◌>>◌
abbrev pub ◌>>=◌ : {A B : Type 0} → Job A → (A → Job B) → Job B
◌>>=◌ m f w = continue (m w).0 (m w).1 f

abbrev pub ◌>>◌ : {B : Type 0} → Job (Unit {0}) → Job B → Job B
m >> k = m >>= λ _. k

-- A call of the store.
abbrev pub stored : {A : Type 0} → Sql A → Job A
stored m w = ((m w.store).0, record w { store = (m w.store).1 })

-- `defer`: what is done whatever comes of the job.
abbrev pub finally : {A : Type 0} → (Work → Work) → Job A → Job A
finally g m w = ((m w).0, g (m w).1)

-- `UntilMs` of 0 is the time of the export.
abbrev pub until_now : ℤ → Filter → Filter
until_now now f = if eq_ℤ f.until_ms (pos 0) then record f { until_ms = unix_milli now } else f

abbrev pub add_gaps : List Source → List Gap → Job (Unit {0})
add_gaps sources gaps w = (ok tt, record w { manifest = take_gaps sources gaps w.manifest })

abbrev pub append_member : Member → Work → Work
append_member m w = record w { members = w.members ++ m ∷ [] }

abbrev pub staged : ℕ → Bytes → Work → Work
staged id file w = record w {
  current = some (record { source_id = id; name = file; content = [] });
  temp_files = w.temp_files + 1;
}

abbrev pub is_current : ℕ → Option StagedFile → Bool
is_current id none = false
is_current id (some s) = s.source_id == id

abbrev pub appended : Bytes → Option StagedFile → Option StagedFile
appended line none = none
appended line (some s) = some (record s { content = s.content ++ line })

-- Where `Build` starts.
unfoldable pub started : State → Work
started s = record {
  store = s;
  operations = 0;
  manifest = [];
  current = none;
  members = [];
  temp_files = 0;
  unremoved = [];
}

module _ (fails : ℕ → Bool) where
  -- An operation on a file or on the archive: it fails, or does what it does.
  abbrev pub operate : (Work → Work) → Job (Unit {0})
  operate g w =
      if fails w.operations
      then (failed, record w { operations = w.operations + 1 })
      else (ok tt, record (g w) { operations = w.operations + 1 })

  -- `rows.Next` with `rows.Scan` or, at the end, `rows.Err`.
  abbrev pub next_row : Job (Unit {0})
  next_row = operate (λ w. w)

  -- `discard`: the file is closed and removed; an error of `os.Remove` is ignored, and leaves it.
  abbrev pub discard : Work → Work
  discard w =
      let let_go = record w { current = none; operations = w.operations + 1 } in
      if fails w.operations
      then record let_go { unremoved = w.operations ∷ w.unremoved }
      else record let_go { temp_files = w.temp_files - 1 }

  abbrev pub discard_staged : Option StagedFile → Work → Work
  discard_staged none w = w
  discard_staged (some _) w = discard w

  -- `addTo`: Stat, Seek, WriteHeader and Copy, and the file is discarded whatever comes of them.
  unfoldable pub add_to : StagedFile → Job (Unit {0})
  add_to s = finally discard (do
    operate (λ w. w)
    operate (λ w. w)
    operate (λ w. w)
    operate (append_member (record { name = s.name; content = s.content })))

  abbrev pub finish_staged : Option StagedFile → Job (Unit {0})
  finish_staged none w = (ok tt, w)
  finish_staged (some s) w = add_to s w

  -- `finish`
  unfoldable pub finish : Job (Unit {0})
  unfolding add_to
  finish w = finish_staged w.current w

  -- `newStagedFile`, and the variables at the first entry of a source.
  abbrev pub stage : List Source → Entry → Job (Unit {0})
  stage sources e w =
      let manifest = with_source sources e.source_id w.manifest in
      let named = change_at e.source_id named_at manifest in
      (do
        operate (staged e.source_id (file_at (entry_at e.source_id named)))
        (λ v. (
          ok tt,
          record v {
            manifest = change_at e.source_id (opened_at (format_ms e.timestamp_ms)) v.manifest;
          },
        )))
        (record w { manifest = named })

  -- A change of source: the file so far goes into the archive, and the next one is begun.
  abbrev pub switch : List Source → Entry → Job (Unit {0})
  switch sources e w =
      if is_current e.source_id w.current then (ok tt, w) else (do finish; stage sources e) w

  abbrev pub json_of : Option Bytes → Job Bytes
  json_of none w = (failed, w)
  json_of (some s) w = (ok s, w)

  -- The manifest with this text, if there is one.
  abbrev pub text_member : Option Bytes → Job (Unit {0})
  text_member text = do
    json ← json_of text
    operate (λ w. w)
    operate (append_member (record { name = manifest_name; content = json }))

  module _ (p : Proto) where
    -- An entry is counted, and its line written.
    abbrev pub count_entry : Entry → Job (Unit {0})
    count_entry e = do
      (λ w. (
        ok tt,
        record w {
          manifest = change_at e.source_id (counted_at (format_ms e.timestamp_ms)) w.manifest;
        },
      ))
      operate (λ w. record w { current = appended (format_line p e) w.current })

    -- The callback of `EachEntry`.
    unfoldable pub take_entry : List Source → Entry → Job (Unit {0})
    unfolding finish with_source
    take_entry sources e = do switch sources e; count_entry e

    -- The loop of `EachEntry` over the rows of its query: reading a row, or finding that there are no
    -- more, may fail behind rows that the callback was given.
    unfoldable pub take_entries : List Source → List Entry → Job (Unit {0})
    take_entries sources [] w = next_row w
    take_entries sources (e ∷ es) w =
        (next_row >> λ v. (take_entry sources e >> take_entries sources es) v) w

    module _ (marshal : Manifest → Option Bytes) where
      -- `writeManifest`
      unfoldable pub write_manifest : Manifest → Job (Unit {0})
      write_manifest m = text_member (marshal m)

      module _ (g : Engine) (now : ℤ) where
        abbrev pub close_manifest : Filter → Job (Unit {0})
        close_manifest f w =
            write_manifest
              (build_manifest p (map (λ (x : ℕ × ManifestSource). x.1) w.manifest) f now) w

        -- `tw.Close` and `gz.Close`
        abbrev pub close_archive : Job (Unit {0})
        close_archive = do operate (λ w. w); operate (λ w. w)

        -- What follows once all entries are in.
        abbrev pub after_entries : List Source → Filter → Job (Unit {0})
        after_entries sources f = do
          finish
          gaps ← stored (gaps_of g f)
          add_gaps sources gaps
          close_manifest f
          close_archive

        abbrev pub build_body : Filter → Job (Unit {0})
        build_body f = do
          sources ← stored (all_sources g)
          es ← stored (each_entry g f)
          take_entries sources es
          after_entries sources f

        -- `Build`; a file that is still staged when it returns is discarded. Its three queries are
        -- made on one database: nothing else writes between them.
        unfoldable pub build : Filter → Job (Unit {0})
        build f = finally (λ w. discard_staged w.current w) (build_body (until_now now f))
