-- ===== src/Export/Build/Archive.antt =====
-- What an archive holds that `Build` reports as done.
use mathlib.Core.List.{Permᴰ}
use mathlib.Core.Path.{subst, subst₂}
use hannah_logcollector.Prelude.{
  ℕ, ◌≤◌, ◌≡◌, refl, sym, ap, ◌∙◌, Bool, List, [], ◌∷◌, Option, none, some, ℤ, keep_if, All, arith,
  inl, inr,
}
use hannah_logcollector.Prelude.Sort.{Pairwise}
use hannah_logcollector.Text.{Bytes}
use hannah_logcollector.Proto.{Proto}
use hannah_logcollector.Store.{Entry}
use hannah_logcollector.Store.Sql.{Row, Db, Engine, State, Result, ok, failed}
use hannah_logcollector.Store.Queries.{Filter, all_sources, each_entry}
use hannah_logcollector.Store.Queries.Rows.{wanted, Comes, each_entry-Pairwise}
use hannah_logcollector.Export.Manifest.{Manifest}
use hannah_logcollector.Export.Build.{
  Work, Job, ◌>>=◌, ◌>>◌, stored, started, take_entries, after_entries, build_body, build,
  until_now, discard_staged, StagedFile,
}
use hannah_logcollector.Export.Build.Rules.{Ensures, Anything, Gives, gives_then, then-Ensures}
use hannah_logcollector.Export.Build.Collect.{Ascends, entries-Between}
use hannah_logcollector.Export.Build.Standing.{Between}
use hannah_logcollector.Export.Build.Holds.{entries_of, Archives, sorted-Ascends, stored-Ensures}
use hannah_logcollector.Export.Build.Closing.{after_entries_gives}

module _ (fails : ℕ → Bool) (p : Proto) (marshal : Manifest → Option Bytes) (g : Engine)
    (now : ℤ) where
  zero_below : (rows : List Row) → All (λ (r : Row). 0 ≤ r.entry.source_id) rows
  zero_below [] = tt
  zero_below (r ∷ rows) = (omega arith, zero_below rows)

  -- What `EachEntry` hands to the callback.
  entries_found :
      (f : Filter) (s : State) (es : List Entry)
      → (each_entry g f s).0 ≡ ok es
      → (rows : List Row) × (es ≡ entries_of rows)
        × Permᴰ (keep_if (wanted f s.db.sources) s.db.entries) rows
        × Pairwise Comes rows
        × ((each_entry g f s).1.db ≡ s.db)
  entries_found f s es e = elim (each_entry-Pairwise g f s).1 [
    | inl refused ↦ absurd (apart es (sym refused ∙ e))
    | inr (rows, given, selects, in_time) ↦ (
      rows,
      one es (entries_of rows) (sym e ∙ given),
      selects,
      in_time,
      (each_entry-Pairwise g f s).0,
    )
  ]
    where
      apart : (es : List Entry) → ◌≡◌ {A = Result (List Entry)} failed (ok es) → ⊥
      apart es h = ground arith

      one : (a b : List Entry) → ◌≡◌ {A = Result (List Entry)} (ok a) (ok b) → a ≡ b
      one a b h = cc

  -- From the end of `AllSources`.
  from_entries :
      (f : Filter) (v : Work)
      → v.manifest ≡ []
      → v.current ≡ none
      → v.members ≡ []
      → let job : Job (Unit {0}) = stored (each_entry g f) >>= λ es.
          take_entries fails p v.store.db.sources es
          >> after_entries fails p marshal g now v.store.db.sources f in
        Gives job v (λ u. Archives p marshal now f v.store.db u.members)
  from_entries f v em ec es =
      let db = v.store.db in
      then-Ensures
        (λ found u.
          (rows : List Row) × (found ≡ entries_of rows)
          × Permᴰ (keep_if (wanted f db.sources) db.entries) rows
          × Pairwise Comes rows
          × (u.store.db ≡ db)
          × (u.manifest ≡ [])
          × (u.current ≡ none)
          × (u.members ≡ []))
        (λ _ u. Archives p marshal now f db u.members) Anything (stored (each_entry g f) v).0
        (stored (each_entry g f) v).1 _
        (stored-Ensures (each_entry g f) v _ (λ found e.
          let (rows, given, selects, in_time, same) = entries_found f v.store found e in
          (rows, given, selects, in_time, same, em, ec, es)))
        (λ found u (rows, given, selects, in_time, same, em', ec', es').
          gives_then (take_entries fails p db.sources found)
            (after_entries fails p marshal g now db.sources f) u
            (λ x. (ids : List ℕ) × Between p db.sources found ids x × (x.store ≡ u.store))
            (λ x. Archives p marshal now f db x.members)
            (entries-Between p db.sources fails found u em' ec' es' (
              subst (Ascends p db.sources 0) (sym given)
                (sorted-Ascends 0 rows (zero_below rows) in_time p db.sources)))
            (λ x b.
              after_entries_gives fails p marshal g now f db rows b.0 x selects in_time
                (ap (λ (t : State). t.db) b.2 ∙ same)
                (subst (λ l. Between p db.sources l b.0 x) given b.1)))

  build_body_gives :
      (f : Filter) (s : State)
      → Gives
          (build_body fails p marshal g now f)
          (started s)
          (λ v. Archives p marshal now f s.db v.members)
  unfolding all_sources started
  build_body_gives f s =
      then-Ensures
        (λ found v.
          (found ≡ s.db.sources)
          × (v.store.db ≡ s.db)
          × (v.manifest ≡ [])
          × (v.current ≡ none)
          × (v.members ≡ []))
        (λ _ v. Archives p marshal now f s.db v.members) Anything
        (stored (all_sources g) (started s)).0 (stored (all_sources g) (started s)).1 _
        (stored-Ensures (all_sources g) (started s) _
          (λ found e. (ground arith, ground arith, refl, refl, refl)))
        (λ sources v h.
          subst₂
            (λ l d.
              Ensures (λ _ u. Archives p marshal now f d u.members) Anything
                ((stored (each_entry g f) >>= λ es.
                    take_entries fails p l es >> after_entries fails p marshal g now l f)
                  v).0
                ((stored (each_entry g f) >>= λ es.
                    take_entries fails p l es >> after_entries fails p marshal g now l f)
                  v).1)
            (ap (λ (d : Db). d.sources) h.1 ∙ sym h.0) h.1 (from_entries f v h.2 h.3 h.4))

  kept_members : (o : Option StagedFile) (w : Work) → (discard_staged fails o w).members ≡ w.members
  kept_members none w = refl
  kept_members (some s) w = ground arith

  succeeded :
      (f : Filter) (db : Db) (r : Result (Unit {0})) (w : Work)
      → Ensures (λ _ v. Archives p marshal now f db v.members) Anything r w
      → r ≡ ok tt
      → Archives p marshal now f db w.members
  succeeded f db (ok _) w h e = h
  succeeded f db failed w h e = ground arith

  -- If `Build` succeeds, the archive holds one file for each source of which the filter selects an
  -- entry and has a file name of its component and instance: the lines of these entries, each once,
  -- by timestamp, then rowid. The manifest stands behind them. It has one entry for each source of
  -- which there is a selected entry or gap, by component and instance: the number of its entries,
  -- the timestamps of the oldest and the newest, and its gaps, by start; and it has the times and
  -- the excluded categories of the filter and the time of the export. (A filter without an end ends
  -- at the time of the export. Nothing else writes between the three queries of `Build`.)
  pub build-Archives :
      (f : Filter) (s : State)
      → (build fails p marshal g now f (started s)).0 ≡ ok tt
      → Archives p marshal now
          (until_now now f)
          s.db
          (build fails p marshal g now f (started s)).1.members
  unfolding build
  build-Archives f s e =
      let (r, w) = build_body fails p marshal g now (until_now now f) (started s) in
      subst (Archives p marshal now (until_now now f) s.db) (sym (kept_members w.current w))
        (succeeded (until_now now f) s.db r w (build_body_gives (until_now now f) s) e)
