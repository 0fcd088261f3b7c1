-- ===== src/Server/Export/Delivered.antt =====
-- What arrives of an export.
use mathlib.Core.Path.{subst}
use hannah_logcollector.Prelude.{
  ℕ, ◌+◌, [], ◌∷◌, ◌⊎◌, inl, inr, ℤ, pos, eq_ℤ, All, Bool-cases, if◌then◌else◌, suc, ◌≡◌, refl, sym,
  Bool, true, false, List, Option, none, some, length, arith,
}
use hannah_logcollector.Time.{unix_milli}
use hannah_logcollector.Proto.{Proto}
use hannah_logcollector.Store.Sql.{Db, Engine, State, Result, ok, failed}
use hannah_logcollector.Store.Queries.{Filter}
use hannah_logcollector.Export.Build.{Member, Work, build, started, until_now}
use hannah_logcollector.Export.Build.Holds.{Archives}
use hannah_logcollector.Export.Build.Archive.{build-Archives}
use hannah_logcollector.Export.Build.Temp.{build-leaves_nothing}
use hannah_logcollector.Server.Chunks.{IsChannel, Streamed}
use hannah_logcollector.Server.Chunks.Whole.{Delivers, stream_archive-Delivers}
use hannah_logcollector.Server.Legacy.{ExportRequest}
use hannah_logcollector.Server.Export.{
  remove_archive, given_up, Host, Answer, creating_failed, reading_failed, streamed, unfinished,
  Exported, filter_of, answer_of, send_archive, after_build, serve_export,
}

-- The bytes that were sent are those of an archive for the filter, or a front of them.
pub record Serves (p : Proto) (h : Host) (f : Filter) (db : Db) (out : Streamed) : Type 0 where
  pub members : List Member
  pub archive : Archives p h.marshal h.now f db members
  pub delivers : Delivers (h.pack members) out

-- A status says why nothing was sent.
abbrev pub Answered : Proto → Host → Filter → Db → Answer → Type 0
Answered p h f db (streamed out) = Serves p h f db out
Answered p h f db unfinished = ⊥
Answered p h f db _ = Unit

-- The filter that a request asks for.
abbrev pub requested : ExportRequest → ℤ → Filter
requested req now = record {
  since_ms = req.since_ms;
  until_ms = if eq_ℤ req.until_ms (pos 0) then unix_milli now else req.until_ms;
  components = req.components;
  exclude_categories = req.exclude_categories;
}

filter_of-requested :
    (req : ExportRequest) (now : ℤ) → until_now now (filter_of req) ≡ requested req now
unfolding filter_of
filter_of-requested req now = elim (Bool-cases (eq_ℤ req.until_ms (pos 0))) [
  | inl e ↦ rw e refl
  | inr e ↦ rw e refl
]

some_inj : (a b : Streamed) → ◌≡◌ {A = Option Streamed} (some a) (some b) → a ≡ b
some_inj a b e = cc

module _ (p : Proto) (g : Engine) (h : Host) (proper : IsChannel h.channel) where
  streamed-Serves :
      (f : Filter) (db : Db) (members : List Member) (found : Option Streamed)
      → Archives p h.marshal h.now f db members
      → ((out : Streamed) × (found ≡ some out) × Delivers (h.pack members) out)
      → Answered p h f db (answer_of found)
  streamed-Serves f db members none a (out, e, d) = ground arith
  streamed-Serves f db members (some out') a (out, e, d) = record {
    members = members;
    archive = a;
    delivers = subst (Delivers (h.pack members)) (sym (some_inj out' out e)) d;
  }

  send-Answered :
      (f : Filter) (db : Db) (members : List Member)
      → Archives p h.marshal h.now f db members
      → Answered p h f db (send_archive p g h (h.pack members))
  send-Answered f db members a = seek h.seek_fails _ (
      streamed-Serves f db members _ a (
        stream_archive-Delivers h.channel proper (suc (length (h.pack members))) 0 (h.pack members)
          (omega arith)))
    where
      seek :
          (fails : Bool) (answer : Answer)
          → Answered p h f db answer
          → Answered p h f db (if fails then reading_failed else answer)
      seek true answer k = tt
      seek false answer k = k

  build-Answered :
      (f : Filter) (db : Db) (r : Result (Unit {0})) (w : Work)
      → (r ≡ ok tt → Archives p h.marshal h.now f db w.members)
      → Answered p h f db (after_build p g h r w)
  build-Answered f db failed w a = tt
  build-Answered f db (ok _) w a = send-Answered f db w.members (a refl)

  -- What is left: a file for each removal that failed.
  abbrev pub Cleared : State → Exported → Type 0
  Cleared s out =
      (out.temp_files ≡ out.unremoved)
      × ((out.unremoved ≡ 0) ⊎ (h.remove_fails ≡ true) ⊎ ((k : ℕ) × (h.build_fails k ≡ true)))
      × (out.store.db ≡ s.db)

  some_unremoved :
      (xs : List ℕ)
      → All (λ k. h.build_fails k ≡ true) xs
      → (length xs ≡ 0) ⊎ ((k : ℕ) × (h.build_fails k ≡ true))
  some_unremoved [] all = inl refl
  some_unremoved (k ∷ xs) all = inr (k, all.0)

  remove-Cleared :
      (fails : Bool) (s : State) (out : Exported)
      → h.remove_fails ≡ fails
      → out.temp_files ≡ out.unremoved + 1
      → (out.unremoved ≡ 0) ⊎ ((k : ℕ) × (h.build_fails k ≡ true))
      → out.store.db ≡ s.db
      → Cleared s (remove_archive fails out)
  remove-Cleared true s out e files why same = (files, inr (inl e), same)
  remove-Cleared false s out e files (inl none_left) same = (omega arith, inl none_left, same)
  remove-Cleared false s out e files (inr bad) same = (omega arith, inr (inr bad), same)

  remove-answer : (fails : Bool) (out : Exported) → (remove_archive fails out).answer ≡ out.answer
  remove-answer true out = refl
  remove-answer false out = refl

  abbrev Outcome : ExportRequest → State → Exported → Type 0
  Outcome req s out = Answered p h (requested req h.now) s.db out.answer × Cleared s out

  create :
      (fails : Bool) (req : ExportRequest) (s : State) (out : Exported)
      → Outcome req s out
      → Outcome req s (if fails then given_up creating_failed s else out)
  create true req s out k = (tt, (refl, inl refl, refl))
  create false req s out k = k

  -- Whatever the writer answers, fails or breaks off: `Export` ends, either with a status and
  -- nothing sent, or with chunks of 1 byte to 256 KiB that are, in order, the bytes of an archive
  -- for the times, components and excluded categories of the request, up to now if it has no end; all
  -- of them unless the call reports that reading or sending failed. It leaves a temp file for each call
  -- of `os.Remove` that failed, so none if all succeed, and the database as it was. (A `Read` is taken
  -- to give between one byte and the size of its buffer, and nothing else writes while the archive is
  -- built.)
  pub serve_export-Answered :
      (synced : Result (Unit {0})) (req : ExportRequest) (s : State)
      → let out = serve_export p g h synced req s in
        Answered p h (requested req h.now) s.db out.answer × Cleared s out
  unfolding serve_export
  serve_export-Answered failed req s = (tt, (refl, inl refl, refl))
  serve_export-Answered (ok _) req s =
      let (r, w) = build h.build_fails p h.marshal g h.now (filter_of req) (started s) in
      let (files, undone, same) =
        build-leaves_nothing h.build_fails p h.marshal g h.now (filter_of req) s in
      let out : Exported = record {
        answer = after_build p g h r w;
        store = w.store;
        temp_files = w.temp_files + 1;
        unremoved = length w.unremoved;
      } in
      create h.create_fails req s (remove_archive h.remove_fails out) (
        subst (Answered p h (requested req h.now) s.db) (sym (remove-answer h.remove_fails out)) (
            subst (λ f. Answered p h f s.db (after_build p g h r w)) (filter_of-requested req h.now)
              (build-Answered (until_now h.now (filter_of req)) s.db r w
                (build-Archives h.build_fails p h.marshal g h.now (filter_of req) s))),
        remove-Cleared h.remove_fails s out refl (omega arith) (some_unremoved w.unremoved undone)
            same,
      )
