-- ===== src/Export/Build/Closing.antt =====
-- The end of `Build`: from the last entry to the archive.
use mathlib.Core.List.{Permᴰ}
use mathlib.Core.Path.{subst₂}
use hannah_logcollector.Prelude.{
  ℕ, ◌≡◌, refl, sym, ap, ◌∙◌, Bool, List, [], ◌∷◌, ◌++◌, map, Option, some, ℤ, keep_if, arith,
}
use hannah_logcollector.Prelude.Perm.{All-imp}
use hannah_logcollector.Prelude.Sort.{Pairwise}
use hannah_logcollector.Text.{Bytes}
use hannah_logcollector.Proto.{Proto}
use hannah_logcollector.Store.{Source, Entry, Gap}
use hannah_logcollector.Store.Sql.{Row, Db, Engine, State}
use hannah_logcollector.Store.Queries.{Filter}
use hannah_logcollector.Store.Queries.Rows.{wanted, Comes}
use hannah_logcollector.Store.Queries.Gaps.{gaps_of}
use hannah_logcollector.Export.Manifest.{Manifest, ManifestSource, build_manifest}
use hannah_logcollector.Export.Build.{
  Member, Work, ◌>>◌, stored, finish, add_gaps, write_manifest, close_manifest, close_archive,
  after_entries,
}
use hannah_logcollector.Export.Table.{take_gaps}
use hannah_logcollector.Export.Build.Rules.{Anything, Gives, gives_also, gives_then, then-Ensures}
use hannah_logcollector.Export.Build.Effects.{closed, finish-Shows}
use hannah_logcollector.Export.Build.Contents.{describe, keyed, member_of}
use hannah_logcollector.Export.Build.Standing.{Between}
use hannah_logcollector.Export.Build.Gaps.{take_gaps-Tabled}
use hannah_logcollector.Export.Build.Listed.{Rising-Distinct}
use hannah_logcollector.Store.Queries.Overlap.{gaps_for, gaps_for-perm, gaps_for-Pairwise}
use hannah_logcollector.Export.Build.Listing.{build_manifest-Lists}
use hannah_logcollector.Export.Build.Holds.{
  entries_of, Archives, stored-Ensures, WithText, json_gives, gaps_found,
}

module _ (fails : ℕ → Bool) (p : Proto) (marshal : Manifest → Option Bytes) (g : Engine)
    (now : ℤ) where
  -- The manifest of these sources is in the archive.
  abbrev Written : Filter → List (ℕ × ManifestSource) → List Member → Work → Type 0
  Written f manifest members v =
      (json : Bytes) × (marshal
          (build_manifest p (map (λ (x : ℕ × ManifestSource). x.1) manifest) f now)
        ≡ some json)
      × WithText members json v

  close_manifest_gives :
      (f : Filter) (w : Work)
      → Gives (close_manifest fails p marshal g now f) w (Written f w.manifest w.members)
  unfolding write_manifest
  close_manifest_gives f w =
      json_gives fails
        (marshal (build_manifest p (map (λ (x : ℕ × ManifestSource). x.1) w.manifest) f now)) w

  close_archive_gives :
      (w : Work) → Gives (close_archive fails p marshal g now) w (λ v. v.members ≡ w.members)
  close_archive_gives w = ground arith

  closing_gives :
      (f : Filter) (w : Work)
      → Gives
          (close_manifest fails p marshal g now f >> close_archive fails p marshal g now)
          w
          (Written f w.manifest w.members)
  closing_gives f w =
      gives_then (close_manifest fails p marshal g now f) (close_archive fails p marshal g now) w
        (Written f w.manifest w.members) _ (close_manifest_gives f w)
        (λ v h.
          gives_also (close_archive fails p marshal g now) v _ (Written f w.manifest w.members)
            (close_archive_gives v) (λ u same. (h.0, h.1, same ∙ h.2)))

  values_of_keyed :
      (sources : List Source) (es : List Entry) (gaps : List Gap) (keys : List ℕ)
      → map (λ (x : ℕ × ManifestSource). x.1) (map (keyed sources es gaps) keys)
        ≡ map (describe sources es gaps) keys
  values_of_keyed sources es gaps [] = refl
  values_of_keyed sources es gaps (k ∷ keys) =
      ap (◌∷◌ (describe sources es gaps k)) (values_of_keyed sources es gaps keys)

  assembled :
      (f : Filter) (db : Db) (rows : List Row) (ids : List ℕ) (w x : Work)
      → Permᴰ (keep_if (wanted f db.sources) db.entries) rows
      → Pairwise Comes rows
      → Between p db.sources (entries_of rows) ids w
      → Written f
          (take_gaps db.sources (gaps_for f db) w.manifest)
          (map (member_of p db.sources (entries_of rows)) ids)
          x
      → Archives p marshal now f db x.members
  assembled f db rows ids w x selects in_time b written =
      let (keys, t) =
        take_gaps-Tabled db.sources (entries_of rows) (gaps_for f db) [] ids w.manifest (record {
          table = b.manifest;
          distinct = Rising-Distinct ids b.rising;
          known = b.known;
          known_gaps = tt;
          some_reason = All-imp ids (λ k h. ground arith) b.each_entry;
        }) in
      let values =
        ap (map (λ (x : ℕ × ManifestSource). x.1)) t.table
        ∙ values_of_keyed db.sources (entries_of rows) (gaps_for f db) keys in
      record {
        rows = rows;
        selects = selects;
        in_time = in_time;
        ids = ids;
        rising = b.rising;
        every_entry = b.known;
        no_empty = b.each_entry;
        keys = keys;
        distinct = t.distinct;
        every_source = t.known;
        gaps = gaps_for f db;
        overlapping = gaps_for-perm f db;
        by_start = gaps_for-Pairwise f db;
        every_gap = t.known_gaps;
        some_reason = t.some_reason;
        json = written.0;
        manifest =
            build_manifest p (map (describe db.sources (entries_of rows) (gaps_for f db)) keys) f
              now;
        lists = build_manifest-Lists p _ f now;
        written = ap (λ l. marshal (build_manifest p l f now)) (sym values) ∙ written.1;
        whole = written.2;
      }

  -- From the end of the loop over the entries to the end of `Build`.
  pub after_entries_gives :
      (f : Filter) (db : Db) (rows : List Row) (ids : List ℕ) (w : Work)
      → Permᴰ (keep_if (wanted f db.sources) db.entries) rows
      → Pairwise Comes rows
      → w.store.db ≡ db
      → Between p db.sources (entries_of rows) ids w
      → Gives
          (after_entries fails p marshal g now db.sources f)
          w
          (λ v. Archives p marshal now f db v.members)
  unfolding gaps_of
  after_entries_gives f db rows ids w selects in_time same b =
      let sources = db.sources in
      let es = entries_of rows in
      let gaps = gaps_for f db in
      then-Ensures
        (λ _ v.
          (v.manifest ≡ w.manifest)
          × (v.members ≡ w.members ++ closed w.current)
          × (v.store ≡ w.store))
        (λ _ v. Archives p marshal now f db v.members) Anything (finish fails w).0
        (finish fails w).1 _
        (gives_also (finish fails) w _
          (λ v.
            (v.manifest ≡ w.manifest)
            × (v.members ≡ w.members ++ closed w.current)
            × (v.store ≡ w.store))
          (finish-Shows fails w) (λ v s. (s.0, s.2, s.3)))
        (λ _ v s.
          then-Ensures
            (λ found u.
              (found ≡ gaps)
              × (u.manifest ≡ w.manifest)
              × (u.members ≡ w.members ++ closed w.current))
            (λ _ v. Archives p marshal now f db v.members) Anything (stored (gaps_of g f) v).0
            (stored (gaps_of g f) v).1 _
            (stored-Ensures (gaps_of g f) v _ (λ found e. (
              gaps_found g f v.store found e
                  ∙ ap (gaps_for f) (ap (λ (t : State). t.db) s.2 ∙ same),
              s.0,
              s.1,
            )))
            (λ found u q.
              gives_also
                (close_manifest fails p marshal g now f >> close_archive fails p marshal g now)
                (add_gaps sources found u).1 _ _ (closing_gives f (add_gaps sources found u).1)
                (λ x written. assembled f db rows ids w x selects in_time b (
                  subst₂ (λ l m. Written f l m x)
                    (ap (λ l. take_gaps sources l u.manifest) q.0 ∙ ap (take_gaps sources gaps) q.1)
                    (q.2 ∙ b.members) written))))
