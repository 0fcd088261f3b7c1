-- ===== src/Export/Build/Holds.antt =====
-- What an archive for a filter holds, and the calls under `Build` that make it.
use mathlib.Core.List.{Permᴰ}
use hannah_logcollector.Prelude.{
  ℕ, ◌+◌, ◌≤◌, ◌≡◌, refl, Bool, true, ◌||◌, List, [], ◌∷◌, ◌++◌, map, Option, none, some, ℤ,
  keep_if, All, arith, Bool-cases, inl, inr,
}
use hannah_logcollector.Prelude.Perm.{Distinct, All-imp}
use hannah_logcollector.Prelude.Sort.{Pairwise}
use hannah_logcollector.Text.{Bytes}
use hannah_logcollector.Proto.{Proto}
use hannah_logcollector.Store.{Source, Entry, Gap}
use hannah_logcollector.Store.Sql.{Row, Db, Engine, State, Result, ok, failed, Sql}
use hannah_logcollector.Store.Queries.{Filter, has_any}
use hannah_logcollector.Store.Queries.Rows.{wanted, Comes}
use hannah_logcollector.Store.Queries.Gaps.{gaps_of}
use hannah_logcollector.Store.Queries.Overlap.{gaps_for, gap_wanted, Starts}
use hannah_logcollector.Export.Manifest.{Manifest}
use hannah_logcollector.Export.Build.Listing.{Lists}
use hannah_logcollector.Export.Build.{Member, Work, stored, manifest_name, text_member}
use hannah_logcollector.Export.Build.Rules.{Ensures, Anything}
use hannah_logcollector.Export.Build.Contents.{mine, gaps_in, describe, member_of}
use hannah_logcollector.Export.Build.Tables.{Among, Rising}
use hannah_logcollector.Export.Build.Collect.{Ascends}

abbrev pub entries_of : List Row → List Entry
entries_of = map (λ (r : Row). r.entry)

-- The archive for the filter, with the rows that it selects.
pub record Archives (p : Proto) (marshal : Manifest → Option Bytes) (now : ℤ) (f : Filter) (db : Db)
    (archive : List Member) : Type 0 where
  pub rows : List Row
  pub selects : Permᴰ (keep_if (wanted f db.sources) db.entries) rows
  pub in_time : Pairwise Comes rows
  -- The sources that have a file.
  pub ids : List ℕ
  pub rising : Rising ids
  pub every_entry : All (λ (e : Entry). Among e.source_id ids) (entries_of rows)
  pub no_empty : All (λ k. has_any (mine k (entries_of rows)) ≡ true) ids
  -- The sources of the manifest.
  pub keys : List ℕ
  pub distinct : Distinct keys
  pub every_source : All (λ (e : Entry). Among e.source_id keys) (entries_of rows)
  pub gaps : List Gap
  pub overlapping : Permᴰ (keep_if (gap_wanted f db.sources) db.gaps) gaps
  pub by_start : Pairwise Starts gaps
  pub every_gap : All (λ (x : Gap). Among x.source_id keys) gaps
  pub some_reason :
      All (λ k. (has_any (mine k (entries_of rows)) || has_any (gaps_in k gaps)) ≡ true) keys
  pub json : Bytes
  pub manifest : Manifest
  pub lists : Lists p now f (map (describe db.sources (entries_of rows) gaps) keys) manifest
  pub written : marshal manifest ≡ some json
  pub whole :
      archive
      ≡ map (member_of p db.sources (entries_of rows)) ids
        ++ record { name = manifest_name; content = json } ∷ []

-- Rows in their order come by source.
pub sorted-Ascends :
    (id : ℕ) (rows : List Row)
    → All (λ (r : Row). id ≤ r.entry.source_id) rows
    → Pairwise Comes rows
    → (p : Proto) (sources : List Source) → Ascends p sources id (entries_of rows)
sorted-Ascends id [] h s p sources = tt
sorted-Ascends id (r ∷ rows) h s p sources = (
  h.0,
  sorted-Ascends r.entry.source_id rows (All-imp rows (λ q le. ground arith) s.0) s.1 p sources,
)

-- A call of the store that succeeds.
pub stored-Ensures :
    {A : Type 0} (m : Sql A) (w : Work) (P : A → Work → Type 0)
    → ((a : A) → (m w.store).0 ≡ ok a → P a (record w { store = (m w.store).1 }))
    → Ensures P Anything (stored m w).0 (stored m w).1
stored-Ensures {A} m w P h = split (m w.store).0 refl
  where
    split :
        (r : Result A)
        → (m w.store).0 ≡ r
        → Ensures P Anything r (record w { store = (m w.store).1 })
    split (ok a) e = h a e
    split failed e = tt

-- The manifest with the text `json` is in the archive.
abbrev pub WithText : List Member → Bytes → Work → Type 0
WithText members json v =
    v.members ≡ members ++ record { name = manifest_name; content = json } ∷ []

pub json_gives :
    (fails : ℕ → Bool) (o : Option Bytes) (w : Work)
    → Ensures
        (λ _ v. (json : Bytes) × (o ≡ some json) × WithText w.members json v)
        Anything
        (text_member fails o w).0
        (text_member fails o w).1
json_gives fails none w = tt
json_gives fails (some json) w = elim (Bool-cases (fails w.operations)) [
  | inl e ↦ rw e tt
  | inr e ↦ rw e (elim (Bool-cases (fails (w.operations + 1))) [
    | inl e' ↦ rw e' tt
    | inr e' ↦ rw e' (json, refl, refl)
  ])
]

pub gaps_found :
    (g : Engine) (f : Filter) (s : State) (found : List Gap)
    → (gaps_of g f s).0 ≡ ok found
    → found ≡ gaps_for f s.db
unfolding gaps_of
gaps_found g f s found e = ground arith
