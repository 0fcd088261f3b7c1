-- ===== src/Export/Build/Effects.antt =====
-- What each step of `Build` changes, if it succeeds.
use hannah_logcollector.Prelude.{
  ℕ, append-nil, ap, ◌∙◌, ◌≡◌, Bool, true, false, List, [], ◌∷◌, ◌++◌, Option, none, some, arith,
}
use hannah_logcollector.Time.{format_ms}
use hannah_logcollector.Proto.{Proto}
use hannah_logcollector.Store.{Source, Entry}
use hannah_logcollector.Store.Sql.{Result, ok, failed}
use hannah_logcollector.Export.Line.{format_line}
use hannah_logcollector.Export.Manifest.{ManifestSource}
use hannah_logcollector.Export.Build.{
  StagedFile, Member, Work, ◌>>◌, add_to, finish, is_current, stage, take_entry, count_entry,
  appended,
}
use hannah_logcollector.Export.Table.{
  change_at, entry_at, with_source, named_at, opened_at, counted_at, file_at,
}
use hannah_logcollector.Export.Build.Rules.{Ensures, then-Ensures, Anything}

-- The file in the archive for a staged one.
abbrev pub closed : Option StagedFile → List Member
closed none = []
closed (some s) = record { name = s.name; content = s.content } ∷ []

-- The manifest, the staged file and the archive are these, and the database is that of `w`.
abbrev pub Shows :
    Work → List (ℕ × ManifestSource) → Option StagedFile → List Member → Work → Type 0
Shows w manifest current members v =
    (v.manifest ≡ manifest) × (v.current ≡ current) × (v.members ≡ members) × (v.store ≡ w.store)

-- The manifest once the first entry of a source has named its file.
abbrev pub named : List Source → Entry → List (ℕ × ManifestSource) → List (ℕ × ManifestSource)
named sources e manifest = change_at e.source_id named_at (with_source sources e.source_id manifest)

-- The manifest and the staged file at the first entry of a source.
abbrev pub begun : List Source → Entry → List (ℕ × ManifestSource) → List (ℕ × ManifestSource)
begun sources e manifest =
    change_at e.source_id (opened_at (format_ms e.timestamp_ms)) (named sources e manifest)

abbrev pub empty_file : List Source → Entry → List (ℕ × ManifestSource) → Option StagedFile
empty_file sources e manifest = some (record {
  source_id = e.source_id;
  name = file_at (entry_at e.source_id (named sources e manifest));
  content = [];
})

rebase :
    (r : Result (Unit {0})) (u v w : Work) {m m' : List (ℕ × ManifestSource)}
    {c c' : Option StagedFile} {s s' : List Member}
    → Ensures (λ _. Shows v m c s) Anything r u
    → m ≡ m'
    → c ≡ c'
    → s ≡ s'
    → v.store ≡ w.store
    → Ensures (λ _. Shows w m' c' s') Anything r u
rebase failed u v w h em ec es et = tt
rebase (ok _) u v w h em ec es et = (h.0 ∙ em, h.1 ∙ ec, h.2 ∙ es, h.3 ∙ et)

module _ (fails : ℕ → Bool) where
  pub finish-Shows :
      (w : Work)
      → Ensures
          (λ _. Shows w w.manifest none (w.members ++ closed w.current))
          Anything
          (finish fails w).0
          (finish fails w).1
  unfolding finish add_to
  finish-Shows w = ground (arith, append-nil w.members)

  pub stage-Shows :
      (sources : List Source) (e : Entry) (w : Work)
      → Ensures
          (λ _.
            Shows w
              (change_at e.source_id
                (opened_at (format_ms e.timestamp_ms))
                (named sources e w.manifest))
              (some (record {
                source_id = e.source_id;
                name = file_at (entry_at e.source_id (named sources e w.manifest));
                content = [];
              }))
              w.members)
          Anything
          (stage fails sources e w).0
          (stage fails sources e w).1
  stage-Shows sources e w = ground arith

  -- An entry of the source whose file is staged.
  pub entry_same :
      (p : Proto) (sources : List Source) (e : Entry) (w : Work)
      → is_current e.source_id w.current ≡ true
      → Ensures
          (λ _.
            Shows w
              (change_at e.source_id (counted_at (format_ms e.timestamp_ms)) w.manifest)
              (appended (format_line p e) w.current)
              w.members)
          Anything
          (take_entry fails p sources e w).0
          (take_entry fails p sources e w).1
  unfolding take_entry
  entry_same p sources e w h = ground arith

  -- The rest of the callback behind `stage`.
  count-Shows :
      (p : Proto) (e : Entry) (w : Work)
      → Ensures
          (λ _.
            Shows w
              (change_at e.source_id (counted_at (format_ms e.timestamp_ms)) w.manifest)
              (appended (format_line p e) w.current)
              w.members)
          Anything
          (count_entry fails p e w).0
          (count_entry fails p e w).1
  count-Shows p e w = ground arith

  change-Shows :
      (sources : List Source) (e : Entry) (w : Work)
      → Ensures
          (λ _.
            Shows w
              (begun sources e w.manifest)
              (empty_file sources e w.manifest)
              (w.members ++ closed w.current))
          Anything
          ((finish fails >> stage fails sources e) w).0
          ((finish fails >> stage fails sources e) w).1
  change-Shows sources e w =
      then-Ensures (λ _. Shows w w.manifest none (w.members ++ closed w.current)) _ Anything
        (finish fails w).0 (finish fails w).1 (λ _. stage fails sources e) (finish-Shows w)
        (λ _ v h.
          rebase _ _ v w (stage-Shows sources e v) (ap (begun sources e) h.0)
            (ap (empty_file sources e) h.0) h.2 h.3)

  -- An entry of another source.
  pub entry_new :
      (p : Proto) (sources : List Source) (e : Entry) (w : Work)
      → is_current e.source_id w.current ≡ false
      → Ensures
          (λ _.
            Shows w
              (change_at e.source_id
                (counted_at (format_ms e.timestamp_ms))
                (begun sources e w.manifest))
              (appended (format_line p e) (empty_file sources e w.manifest))
              (w.members ++ closed w.current))
          Anything
          (take_entry fails p sources e w).0
          (take_entry fails p sources e w).1
  unfolding take_entry
  entry_new p sources e w h = rw h (
      then-Ensures
        (λ _.
          Shows w (begun sources e w.manifest) (empty_file sources e w.manifest)
            (w.members ++ closed w.current))
        _ Anything ((finish fails >> stage fails sources e) w).0
        ((finish fails >> stage fails sources e) w).1 (λ _. count_entry fails p e)
        (change-Shows sources e w)
        (λ _ v k.
          rebase _ _ v w (count-Shows p e v)
            (ap (change_at e.source_id (counted_at (format_ms e.timestamp_ms))) k.0)
            (ap (appended (format_line p e)) k.1) k.2 k.3))
