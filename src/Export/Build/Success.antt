-- ===== src/Export/Build/Success.antt =====
-- `Build` fails for no other reason than an operation that fails.
use hannah_logcollector.Prelude.{
  ℕ, ◌≡◌, ◌≢◌, refl, Bool, false, List, [], ◌∷◌, Option, none, some, ℤ, arith,
}
use hannah_logcollector.Text.{Bytes}
use hannah_logcollector.Proto.{Proto}
use hannah_logcollector.Store.{Source, Entry, Gap}
use hannah_logcollector.Store.Sql.{Engine, State, Result, ok, failed, Sql}
use hannah_logcollector.Store.Queries.{Filter, all_sources, each_entry}
use hannah_logcollector.Store.Queries.Gaps.{gaps_of}
use hannah_logcollector.Export.Manifest.{Manifest}
use hannah_logcollector.Export.Build.{
  Work, Job, ◌>>=◌, continue, stored, started, add_to, finish, switch, take_entry, take_entries,
  next_row, add_gaps, text_member, write_manifest, close_manifest, close_archive, after_entries,
  build_body, build, until_now,
}

-- The job does not fail.
record Fine {A : Type 0} (m : Job A) : Type 0 where
  result : (w : Work) → (m w).0 ≢ failed

module _ {A B : Type 0} where
  continue-Fine :
      (r : Result A) (w : Work) (f : A → Job B)
      → r ≢ failed
      → ((a : A) → Fine (f a))
      → (continue r w f).0 ≢ failed
  continue-Fine (ok a) w f h k = (k a).result w
  continue-Fine failed w f h k = absurd (h refl)

  then-Fine : {m : Job A} {f : A → Job B} → Fine m → ((a : A) → Fine (f a)) → Fine (m >>= f)
  then-Fine {m} {f} h k = record { result = λ w. continue-Fine (m w).0 (m w).1 f (h.result w) k }

stored-Fine : {A : Type 0} (m : Sql A) → ((s : State) → (m s).0 ≢ failed) → Fine (stored m)
stored-Fine m h = record { result = λ w. h w.store }

-- No operation on files fails.
abbrev never : ℕ → Bool
never _ = false

switch-Fine : (sources : List Source) (e : Entry) → Fine (switch never sources e)
unfolding finish add_to
switch-Fine sources e = record { result = λ w. ground arith }

finish-Fine : Fine (finish never)
unfolding finish
finish-Fine = record { result = λ w. ground arith }

take_entry-Fine :
    (p : Proto) (sources : List Source) (e : Entry) → Fine (take_entry never p sources e)
unfolding take_entry
take_entry-Fine p sources e =
    then-Fine (switch-Fine sources e) (λ _. record { result = λ w. ground arith })

take_entries-Fine :
    (p : Proto) (sources : List Source) (es : List Entry) → Fine (take_entries never p sources es)
unfolding take_entries
take_entries-Fine p sources [] = record { result = λ w. ground arith }
take_entries-Fine p sources (e ∷ es) = record {
  result = λ w.
      (then-Fine {m = next_row never} (record { result = λ w. ground arith })
          (λ _.
            then-Fine (take_entry-Fine p sources e) (λ _. take_entries-Fine p sources es))).result
        w;
}

text_member-Fine : (o : Option Bytes) (w : Work) → o ≢ none → (text_member never o w).0 ≢ failed
text_member-Fine none w h = absurd (h refl)
text_member-Fine (some s) w h = ground arith

module _ (p : Proto) (marshal : Manifest → Option Bytes) (g : Engine) (now : ℤ)
    (rendered : (m : Manifest) → marshal m ≢ none) (answers : (k : ℕ) → g.fails k ≡ false) where
  close_manifest-Fine : (f : Filter) → Fine (close_manifest never p marshal g now f)
  unfolding write_manifest
  close_manifest-Fine f = record { result = λ w. text_member-Fine (marshal _) w (rendered _) }

  close_archive-Fine : Fine (close_archive never p marshal g now)
  close_archive-Fine = record { result = λ w. ground arith }

  add_gaps-Fine : (sources : List Source) (gaps : List Gap) → Fine (add_gaps sources gaps)
  add_gaps-Fine sources gaps = record { result = λ w. ground arith }

  after_entries-Fine :
      (sources : List Source) (f : Filter) → Fine (after_entries never p marshal g now sources f)
  unfolding gaps_of
  after_entries-Fine sources f = then-Fine finish-Fine λ _.
      then-Fine (stored-Fine (gaps_of g f) (λ s. ground (arith, answers s.clock))) λ gaps.
        then-Fine (add_gaps-Fine sources gaps)
          λ _. then-Fine (close_manifest-Fine f) λ _. close_archive-Fine

  build_body-Fine : (f : Filter) → Fine (build_body never p marshal g now f)
  unfolding all_sources each_entry
  build_body-Fine f =
      then-Fine (stored-Fine (all_sources g) (λ s. ground (arith, answers s.clock))) λ sources.
        then-Fine (stored-Fine (each_entry g f) (λ s. ground (arith, answers s.clock)))
          λ es. then-Fine (take_entries-Fine p sources es) λ _. after_entries-Fine sources f

  only_ok : (r : Result (Unit {0})) → r ≢ failed → r ≡ ok tt
  only_ok (ok _) h = refl
  only_ok failed h = absurd (h refl)

  -- If no statement, no reading of a row and no operation on files fails and the manifest can be
  -- rendered, `Build` succeeds.
  pub build_succeeds :
      (f : Filter) (s : State) → (build (λ _. false) p marshal g now f (started s)).0 ≡ ok tt
  unfolding build
  build_succeeds f s = only_ok _ ((build_body-Fine (until_now now f)).result (started s))
