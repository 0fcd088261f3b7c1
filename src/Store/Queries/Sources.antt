-- ===== src/Store/Queries/Sources.antt =====
-- `UpsertSource` keeps one row for each (component, instance).
use mathlib.Core.List.{map-append}
use mathlib.Core.Option
use hannah_logcollector.Store.Queries.Inserts.{Distinct-snoc}
use hannah_logcollector.Prelude.{
  ℕ, ◌≡◌, ◌∙◌, refl, ◌⊎◌, inl, inr, Bool, true, false, ◌&&◌, List, [], ◌∷◌, ◌++◌, map, Option, none,
  some, arith, Bool-cases,
}
use hannah_logcollector.Text.{Bytes, equal}
use hannah_logcollector.Text.Laws.{equal_iff, equal_refl}
use hannah_logcollector.Prelude.Perm.{Distinct}
use hannah_logcollector.Store.{Source}
use hannah_logcollector.Store.Sql.{Db, source_ids, Engine, IsEngine, State, Result, ok, failed}
use hannah_logcollector.Store.Queries.{find, set_version, upsert, upsert_source}

-- The row is the one of (component, instance).
abbrev pub named : Bytes → Bytes → Source → Bool
named c i s = equal s.component c && equal s.instance_name i

find-named :
    (c i : Bytes) (ss : List Source) (s : Source) → find c i ss ≡ some s → named c i s ≡ true
unfolding find
find-named c i [] s h = ground arith
find-named c i (r ∷ rest) s h = ground (arith, find-named c i rest s)

find-set_version :
    (c i v : Bytes) (ss : List Source) (s : Source)
    → find c i ss ≡ some s
    → find c i (set_version c i v ss) ≡ some (record s { version = v })
unfolding find set_version
find-set_version c i v [] s h = ground arith
find-set_version c i v (r ∷ rest) s h = ground (arith, find-set_version c i v rest s)

-- Two rows of different names are not both the row of one name.
named_other :
    (c i c' i' : Bytes) (s : Source)
    → equal c c' && equal i i' ≡ false
    → named c i s ≡ true
    → named c' i' s ≡ false
named_other c i c' i' s h n = grind (
  arith,
  equal_iff c c',
  equal_iff i i',
  equal_iff s.component c,
  equal_iff s.component c',
  equal_iff s.instance_name i,
  equal_iff s.instance_name i',
)

same_name :
    {c i v : Bytes} (s : Source)
    → named c i s ≡ true
    → some (record s { version = v })
      ≡ some (record { id = s.id; component = c; instance_name = i; version = v })
same_name {c} {i} s n = grind (arith, equal_iff s.component c, equal_iff s.instance_name i)

find_other-set_version :
    (c i v c' i' : Bytes) (ss : List Source)
    → equal c c' && equal i i' ≡ false
    → find c' i' (set_version c i v ss) ≡ find c' i' ss
unfolding find set_version
find_other-set_version c i v c' i' [] h = refl
find_other-set_version c i v c' i' (r ∷ rest) h =
    ground (arith, named_other c i c' i' r h, find_other-set_version c i v c' i' rest h)

find-append_none :
    (c i : Bytes) (ss : List Source) (s : Source)
    → find c i ss ≡ none
    → named c i s ≡ true
    → find c i (ss ++ s ∷ []) ≡ some s
unfolding find
find-append_none c i [] s h n = ground arith
find-append_none c i (r ∷ rest) s h n = ground (arith, find-append_none c i rest s)

find-append_other :
    (c i : Bytes) (ss : List Source) (s : Source)
    → named c i s ≡ false
    → find c i (ss ++ s ∷ []) ≡ find c i ss
unfolding find
find-append_other c i [] s n = ground arith
find-append_other c i (r ∷ rest) s n = ground (arith, find-append_other c i rest s)

-- The rows after `UpsertSource`.
pub find-upsert :
    (g : Engine) (c i v : Bytes) (db : Db) (old : Option Source)
    → find c i db.sources ≡ old
    → find c i (upsert g c i v db old).1.sources
      ≡ some
          (record { id = (upsert g c i v db old).0; component = c; instance_name = i; version = v })
find-upsert g c i v db (some s) h =
    find-set_version c i v db.sources s h ∙ same_name s (find-named c i db.sources s h)
find-upsert g c i v db none h =
    find-append_none c i db.sources
      (record { id = g.next_id (source_ids db); component = c; instance_name = i; version = v }) h
      (rw (equal_refl c, equal_refl i) refl)

pub upsert-other :
    (g : Engine) (c i v c' i' : Bytes) (db : Db) (old : Option Source)
    → equal c c' && equal i i' ≡ false
    → find c' i' (upsert g c i v db old).1.sources ≡ find c' i' db.sources
upsert-other g c i v c' i' db (some s) h = find_other-set_version c i v c' i' db.sources h
upsert-other g c i v c' i' db none h =
    find-append_other c' i' db.sources
      (record { id = g.next_id (source_ids db); component = c; instance_name = i; version = v }) h

ids-set_version :
    (c i v : Bytes) (ss : List Source)
    → map (λ (s : Source). s.id) (set_version c i v ss) ≡ map (λ (s : Source). s.id) ss
unfolding set_version
ids-set_version c i v [] = refl
ids-set_version c i v (s ∷ rest) = ground (arith, ids-set_version c i v rest)

upsert-Distinct :
    (g : Engine)
    → IsEngine g
    → (c i v : Bytes) (db : Db) (old : Option Source) → Distinct (source_ids db)
    → Distinct (source_ids (upsert g c i v db old).1)
upsert-Distinct g fresh c i v db (some s) d = rw (ids-set_version c i v db.sources) d
upsert-Distinct g fresh c i v db none d = rw map-append (
    Distinct-snoc (source_ids db) (g.next_id (source_ids db)) d
      (fresh.next_id-fresh (source_ids db)))

pub kept_id :
    (g : Engine) (c i v : Bytes) (db : Db) (old : Option Source)
    → (old ≡ none) ⊎ (Option.map (λ (s : Source). s.id) old ≡ some (upsert g c i v db old).0)
kept_id g c i v db (some s) = inr refl
kept_id g c i v db none = inl refl

-- What `UpsertSource` promises of its result, for the name it is called with and another one.
abbrev pub Registers : Bytes → Bytes → Bytes → Bytes → Bytes → Db → Result ℕ × State → Type 0
Registers c i v c' i' db (ok id, s') =
    (find c i s'.db.sources
      ≡ some (record { id = id; component = c; instance_name = i; version = v }))
    × ((find c i db.sources ≡ none)
        ⊎ (Option.map (λ (s : Source). s.id) (find c i db.sources) ≡ some id))
    × ((equal c c' && equal i i' ≡ true) ⊎ (find c' i' s'.db.sources ≡ find c' i' db.sources))
    × Distinct (source_ids s'.db)
Registers c i v c' i' db (failed, s') = s'.db ≡ db

-- If new ids are not in use and the ids of the table are distinct: the id that `UpsertSource`
-- returns is the id of the row of (component, instance), which has the version just announced; a
-- name that had a row keeps its id; every other name has the row it had; and the ids stay
-- distinct. A call that fails leaves the database as it was.
pub upsert_source-Registers :
    (g : Engine) (c i v c' i' : Bytes) (s : State)
    → IsEngine g
    → Distinct (source_ids s.db)
    → Registers c i v c' i' s.db (upsert_source g c i v s)
unfolding upsert_source
upsert_source-Registers g c i v c' i' s fresh d = elim (Bool-cases (g.fails s.clock)) [
  | inl refused ↦ rw refused refl
  | inr granted ↦ rw granted (
    find-upsert g c i v s.db (find c i s.db.sources) refl,
    kept_id g c i v s.db (find c i s.db.sources),
    elim (Bool-cases (equal c c' && equal i i')) [
      | inl same ↦ inl same
      | inr differ ↦ inr (upsert-other g c i v c' i' s.db (find c i s.db.sources) differ)
    ],
    upsert-Distinct g fresh c i v s.db (find c i s.db.sources) d,
  )
]
