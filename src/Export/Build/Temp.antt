-- ===== src/Export/Build/Temp.antt =====
-- What `Build` leaves behind, whether it succeeds or not: no temp file, and the database as it was.
use hannah_logcollector.Prelude.{
  ℕ, ◌+◌, All, length, true, Bool-cases, inl, inr, ◌≡◌, refl, ◌∙◌, Bool, List, [], ◌∷◌, Option,
  none, some, ℤ, arith,
}
use hannah_logcollector.Text.{Bytes}
use hannah_logcollector.Proto.{Proto}
use hannah_logcollector.Store.{Source, Entry, Gap}
use hannah_logcollector.Store.Sql.{Db, Engine, State, Result, ok, failed, Sql}
use hannah_logcollector.Store.Queries.{Filter, all_sources, each_entry}
use hannah_logcollector.Store.Queries.Gaps.{gaps_of}
use hannah_logcollector.Export.Manifest.{Manifest}
use hannah_logcollector.Export.Build.{
  StagedFile, Work, Job, ◌>>=◌, started, add_to, finish, switch, take_entry, take_entries, next_row,
  write_manifest, build_body, close_manifest, close_archive, after_entries, add_gaps, build,
  discard_staged, stored, continue, until_now,
}

abbrev held : Option StagedFile → ℕ
held none = 0
held (some _) = 1

-- There is a temp file for the staged file and for each removal that failed, and the database is `db`.
abbrev Tidy : (ℕ → Bool) → Db → Work → Type 0
Tidy fails db w =
    (w.temp_files ≡ held w.current + length w.unremoved)
    × All (λ k. fails k ≡ true) w.unremoved
    × (w.store.db ≡ db)

-- The job leaves things tidy.
record Keeps {A : Type 0} (fails : ℕ → Bool) (db : Db) (m : Job A) : Type 0 where
  after : (w : Work) → Tidy fails db w → Tidy fails db (m w).1

module _ {A B : Type 0} {fails : ℕ → Bool} {db : Db} where
  continue-Tidy :
      (r : Result A) (w : Work) (f : A → Job B)
      → Tidy fails db w
      → ((a : A) → Keeps fails db (f a))
      → Tidy fails db (continue r w f).1
  continue-Tidy (ok a) w f h k = (k a).after w h
  continue-Tidy failed w f h k = h

  then-Keeps :
      {m : Job A} {f : A → Job B}
      → Keeps fails db m
      → ((a : A) → Keeps fails db (f a))
      → Keeps fails db (m >>= f)
  then-Keeps {m} {f} h k = record { after = λ w t. continue-Tidy (m w).0 (m w).1 f (h.after w t) k }

module _ (db : Db) (fails : ℕ → Bool) where
  switch-Keeps : (sources : List Source) (e : Entry) → Keeps fails db (switch fails sources e)
  unfolding finish add_to
  switch-Keeps sources e = record { after = λ w h. ground arith }

  finish-Keeps : Keeps fails db (finish fails)
  unfolding finish
  finish-Keeps = record { after = λ w h. ground arith }

  take_entry-Keeps :
      (p : Proto) (sources : List Source) (e : Entry)
      → Keeps fails db (take_entry fails p sources e)
  unfolding take_entry
  take_entry-Keeps p sources e =
      then-Keeps (switch-Keeps sources e) (λ _. record { after = λ w h. ground arith })

  take_entries-Keeps :
      (p : Proto) (sources : List Source) (es : List Entry)
      → Keeps fails db (take_entries fails p sources es)
  unfolding take_entries
  take_entries-Keeps p sources [] = record { after = λ w h. ground arith }
  take_entries-Keeps p sources (e ∷ es) = record {
    after = λ w h.
        (then-Keeps {m = next_row fails} (record { after = λ w h. ground arith })
            (λ _.
              then-Keeps (take_entry-Keeps p sources e)
                (λ _. take_entries-Keeps p sources es))).after
          w h;
  }

  write_manifest-Keeps :
      (p : Proto) (marshal : Manifest → Option Bytes) (m : Manifest)
      → Keeps fails db (write_manifest fails p marshal m)
  unfolding write_manifest
  write_manifest-Keeps p marshal m = record { after = λ w h. ground arith }

stored-Keeps :
    {A : Type 0} (fails : ℕ → Bool) (db : Db) (m : Sql A)
    → ((s : State) → (m s).1.db ≡ s.db)
    → Keeps fails db (stored m)
stored-Keeps fails db m same = record { after = λ w h. (h.0, h.1, same w.store ∙ h.2) }

-- What the deferred `discard` leaves: no file but those whose removal failed.
discarded :
    (fails : ℕ → Bool) (db : Db) (o : Option StagedFile) (w : Work)
    → w.temp_files ≡ held o + length w.unremoved
    → All (λ k. fails k ≡ true) w.unremoved
    → w.store.db ≡ db
    → let v = discard_staged fails o w in
      (v.temp_files ≡ length v.unremoved)
      × All (λ k. fails k ≡ true) v.unremoved
      × (v.store.db ≡ db)
discarded fails db none w files undone same = (omega arith, undone, same)
discarded fails db (some s) w files undone same = elim (Bool-cases (fails w.operations)) [
  | inl bad ↦ rw bad (omega arith, (bad, undone), same)
  | inr fine ↦ rw fine (omega arith, undone, same)
]

module _ (fails : ℕ → Bool) (p : Proto) (marshal : Manifest → Option Bytes) (g : Engine)
    (now : ℤ) where
  add_gaps-Keeps :
      (db : Db) (sources : List Source) (gaps : List Gap) → Keeps fails db (add_gaps sources gaps)
  add_gaps-Keeps db sources gaps = record { after = λ w h. h }

  close_archive-Keeps : (db : Db) → Keeps fails db (close_archive fails p marshal g now)
  close_archive-Keeps db = record { after = λ w h. ground arith }

  close_manifest-Keeps :
      (db : Db) (f : Filter) → Keeps fails db (close_manifest fails p marshal g now f)
  close_manifest-Keeps db f = record {
    after = λ w h. (write_manifest-Keeps db fails p marshal _).after w h;
  }

  after_entries-Keeps :
      (db : Db) (sources : List Source) (f : Filter)
      → Keeps fails db (after_entries fails p marshal g now sources f)
  unfolding gaps_of
  after_entries-Keeps db sources f = then-Keeps (finish-Keeps db fails) λ _.
      then-Keeps (stored-Keeps fails db (gaps_of g f) (λ s. ground arith)) λ gaps.
        then-Keeps (add_gaps-Keeps db sources gaps)
          λ _. then-Keeps (close_manifest-Keeps db f) λ _. close_archive-Keeps db

  build_body-Keeps : (db : Db) (f : Filter) → Keeps fails db (build_body fails p marshal g now f)
  unfolding all_sources each_entry
  build_body-Keeps db f =
      then-Keeps (stored-Keeps fails db (all_sources g) (λ s. ground arith)) λ sources.
        then-Keeps (stored-Keeps fails db (each_entry g f) (λ s. ground arith)) λ es.
          then-Keeps (take_entries-Keeps db fails p sources es)
            λ _. after_entries-Keeps db sources f

  -- Whatever fails: when `Build` returns, as many of its temp files are left as removals failed, so
  -- none if every call of `os.Remove` succeeds; and the database is what it was.
  pub build-leaves_nothing :
      (f : Filter) (s : State)
      → let w = (build fails p marshal g now f (started s)).1 in
        (w.temp_files ≡ length w.unremoved)
        × All (λ k. fails k ≡ true) w.unremoved
        × (w.store.db ≡ s.db)
  unfolding build started
  build-leaves_nothing f s =
      let (r, w) = build_body fails p marshal g now (until_now now f) (started s) in
      let (files, undone, same) =
        (build_body-Keeps s.db (until_now now f)).after (started s) (refl, tt, refl) in
      discarded fails s.db w.current w files undone same
