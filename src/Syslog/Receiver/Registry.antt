-- ===== src/Syslog/Receiver/Registry.antt =====
-- The store of internal/store/store.go as the `Sources` of internal/syslog/receiver.go.
use mathlib.Core.Option
use mathlib.Core.Path.{subst}
use hannah_logcollector.Prelude.{
  ℕ, ◌≡◌, refl, sym, ◌∙◌, ap, inl, inr, ◌&&◌, List, Option, some, Bool-cases, arith,
}
use hannah_logcollector.Text.{Bytes, equal}
use hannah_logcollector.Text.Laws.{equal_iff}
use hannah_logcollector.Store.{Source}
use hannah_logcollector.Store.Sql.{Db, Engine, State, ok}
use hannah_logcollector.Store.Queries.{find, upsert, upsert_source}
use hannah_logcollector.Store.Queries.Sources.{find-upsert, upsert-other, kept_id}
use hannah_logcollector.Syslog.Receiver.{Sources}

-- The id is the one of the row of (component, instance).
abbrev pub IsId : List Source → Bytes → Bytes → ℕ → Type 0
IsId ss c i id = Option.map (λ (s : Source). s.id) (find c i ss) ≡ some id

pub registers :
    (g : Engine) (c i v : Bytes) (s : State) (id : ℕ)
    → (upsert_source g c i v s).0 ≡ ok id
    → IsId (upsert_source g c i v s).1.db.sources c i id
unfolding upsert_source
registers g c i v s id h = ground (arith, find-upsert g c i v s.db (find c i s.db.sources) refl)

keeps_same :
    (g : Engine) (c i v : Bytes) (db : Db) (old : Option Source) (id : ℕ)
    → find c i db.sources ≡ old
    → IsId db.sources c i id
    → IsId (upsert g c i v db old).1.sources c i id
keeps_same g c i v db old id e h =
    ground (arith, find-upsert g c i v db old e, kept_id g c i v db old)

keeps_upsert :
    (g : Engine) (c i v c' i' : Bytes) (db : Db) (id : ℕ)
    → IsId db.sources c' i' id
    → IsId (upsert g c i v db (find c i db.sources)).1.sources c' i' id
keeps_upsert g c i v c' i' db id h = elim (Bool-cases (equal c c' && equal i i')) [
  | inl same ↦
      let ec : c ≡ c' = grind (arith, equal_iff c c') in
      let ei : i ≡ i' = grind (arith, equal_iff i i') in
      let moved : IsId db.sources c i id =
        subst (λ i. IsId db.sources c i id) (sym ei)
          (subst (λ c. IsId db.sources c i' id) (sym ec) h) in
      let after = (upsert g c i v db (find c i db.sources)).1.sources in
      subst (λ i. IsId after c' i id) ei
        (subst (λ c. IsId after c i id) ec
          (keeps_same g c i v db (find c i db.sources) id refl moved))
  | inr differ ↦
      ap (Option.map (λ (s : Source). s.id))
        (upsert-other g c i v c' i' db (find c i db.sources) differ)
      ∙ h
]

pub keeps :
    (g : Engine) (c i v c' i' : Bytes) (s : State) (id : ℕ)
    → IsId s.db.sources c' i' id
    → IsId (upsert_source g c i v s).1.db.sources c' i' id
unfolding upsert_source
keeps g c i v c' i' s id h = ground (arith, keeps_upsert g c i v c' i' s.db id h)

abbrev pub store_sources : Engine → Sources State
store_sources g = record {
  upsert_source = upsert_source g;
  Registered = λ s. IsId s.db.sources;
  upsert_source-registers = registers g;
  upsert_source-keeps = keeps g;
}
