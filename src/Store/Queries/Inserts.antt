-- ===== src/Store/Queries/Inserts.antt =====
-- `InsertEntries` stores a batch as a whole or not at all.
use mathlib.Core.List.{map-append}
use hannah_logcollector.Prelude.{
  ℕ, ◌+◌, ◌≡◌, ◌≢◌, refl, ◌∙◌, ◌⊎◌, inl, inr, List, [], ◌∷◌, ◌++◌, append-nil, append_assoc, map,
  sym, All-append, arith, All, true, Bool-cases,
}
use hannah_logcollector.Prelude.Perm.{Distinct}
use hannah_logcollector.Store.{Entry}
use hannah_logcollector.Store.Sql.{Row, Db, entry_ids, Engine, IsEngine, State, Result, ok, failed}
use hannah_logcollector.Store.Queries.{add_row, insert_each, insert_entries}

-- The rows of a batch, in order, behind those that are there.
unfoldable pub with_rows : Engine → List Entry → Db → Db
with_rows g [] db = db
with_rows g (e ∷ es) db = with_rows g es (add_row g e db)

-- Either all of it is there, or the database is as it was.
abbrev pub AllOrNothing : Engine → List Entry → State → Result (Unit {0}) × State → Type 0
AllOrNothing g es s out =
    ((out.0 ≡ ok tt) × (out.1.db ≡ with_rows g es s.db)) ⊎ ((out.0 ≡ failed) × (out.1.db ≡ s.db))

insert_each_lem :
    (g : Engine) (es : List Entry) (s : State)
    → ((insert_each g es s).0 ≡ failed)
      ⊎ (((insert_each g es s).0 ≡ ok tt) × ((insert_each g es s).1.db ≡ with_rows g es s.db))
unfolding insert_each with_rows
insert_each_lem g [] s = inr (refl, refl)
insert_each_lem g (e ∷ es) s =
    ground (arith, insert_each_lem g es (record { db = add_row g e s.db; clock = s.clock + 1 }))

pub insert_entries-AllOrNothing :
    (g : Engine) (es : List Entry) (s : State) → AllOrNothing g es s (insert_entries g es s)
unfolding insert_entries
insert_entries-AllOrNothing g [] s = unfold with_rows in inl (refl, refl)
insert_entries-AllOrNothing g (e ∷ es) s =
    ground (arith, insert_each_lem g (e ∷ es) (record { db = s.db; clock = s.clock + 1 + 1 }))

-- A statement of the database failed.
abbrev pub SomeFailed : Engine → Type 0
SomeFailed g = (k : ℕ) × (g.fails k ≡ true)

insert_each_fails :
    (g : Engine) (es : List Entry) (s : State) → ((insert_each g es s).0 ≡ ok tt) ⊎ SomeFailed g
unfolding insert_each
insert_each_fails g [] s = inl refl
insert_each_fails g (e ∷ es) s = elim (Bool-cases (g.fails s.clock)) [
  | inl bad ↦ inr (s.clock, bad)
  | inr fine ↦
      rw fine (insert_each_fails g es (record { db = add_row g e s.db; clock = s.clock + 1 }))
]

-- `InsertEntries` fails only with a statement.
pub insert_entries_fails :
    (g : Engine) (es : List Entry) (s : State) → ((insert_entries g es s).0 ≡ ok tt) ⊎ SomeFailed g
unfolding insert_entries
insert_entries_fails g [] s = inl refl
insert_entries_fails g (e ∷ es) s = elim (Bool-cases (g.fails s.clock)) [
  | inl bad ↦ inr (_, bad)
  | inr begun ↦ elim (Bool-cases (g.fails (s.clock + 1))) [
    | inl bad ↦ inr (_, bad)
    | inr prepared ↦
        let within : State = record { db = s.db; clock = s.clock + 1 + 1 } in
        elim (Bool-cases (g.fails (insert_each g (e ∷ es) within).1.clock)) [
          | inl bad ↦ inr (_, bad)
          | inr committed ↦ elim (insert_each_fails g (e ∷ es) within) [
            | inl inserted ↦ inl (ground arith)
            | inr bad ↦ inr bad
          ]
        ]
  ]
]

with_rows-entries :
    (g : Engine) (es : List Entry) (db : Db)
    → map (λ (r : Row). r.entry) (with_rows g es db).entries
      ≡ map (λ (r : Row). r.entry) db.entries ++ es
unfolding with_rows
with_rows-entries g [] db = rw append-nil
with_rows-entries g (e ∷ es) db =
    with_rows-entries g es (add_row g e db)
    ∙ rw map-append (append_assoc (map (λ (r : Row). r.entry) db.entries) (e ∷ []) es)

pub Distinct-snoc :
    (ids : List ℕ) (i : ℕ) → Distinct ids → All (λ j. i ≢ j) ids → Distinct (ids ++ i ∷ [])
Distinct-snoc [] i d fresh = (tt, tt)
Distinct-snoc (j ∷ ids) i d fresh =
    (All-append _ ids (i ∷ []) d.0 (λ e. fresh.0 (sym e), tt), Distinct-snoc ids i d.1 fresh.1)

with_rows-Distinct :
    (g : Engine)
    → IsEngine g
    → (es : List Entry) (db : Db) → Distinct (entry_ids db)
    → Distinct (entry_ids (with_rows g es db))
unfolding with_rows
with_rows-Distinct g h [] db d = d
with_rows-Distinct g h (e ∷ es) db d = with_rows-Distinct g h es (add_row g e db) (
    rw map-append
      (Distinct-snoc (entry_ids db) (g.next_id (entry_ids db)) d (h.next_id-fresh (entry_ids db))))

-- If new rowids are not in use and the rowids of the table are distinct: a batch is stored as a
-- whole, in order behind the entries that are there, or the database is left as it was; which of
-- the two, the result says. The rowids of the table stay distinct.
pub insert_entries_atomic :
    (g : Engine) (es : List Entry) (s : State)
    → IsEngine g
    → Distinct (entry_ids s.db)
    → let (result, s') = insert_entries g es s in
      ((result ≡ ok tt)
          × (map (λ (r : Row). r.entry) s'.db.entries
              ≡ map (λ (r : Row). r.entry) s.db.entries ++ es)
        ⊎ (result ≡ failed) × (s'.db ≡ s.db))
      × Distinct (entry_ids s'.db)
insert_entries_atomic g es s h d = elim (insert_entries-AllOrNothing g es s) [
  | inl (stored, rows) ↦ (
    inl (stored, rw rows (with_rows-entries g es s.db)),
    rw rows (with_rows-Distinct g h es s.db d),
  )
  | inr (refused, same) ↦ (inr (refused, same), rw same d)
]

-- What a call adds to the table, by its result.
abbrev pub added_by : Result (Unit {0}) → List Entry → List Entry
added_by (ok _) es = es
added_by failed es = []

pub stored_or_not :
    (g : Engine) (es : List Entry) (s : State)
    → map (λ (r : Row). r.entry) (insert_entries g es s).1.db.entries
      ≡ map (λ (r : Row). r.entry) s.db.entries ++ added_by (insert_entries g es s).0 es
stored_or_not g es s = elim (insert_entries-AllOrNothing g es s) [
  | inl (stored, rows) ↦ rw (stored, rows) (with_rows-entries g es s.db)
  | inr (refused, same) ↦
      rw (refused, same) (sym (append-nil (map (λ (r : Row). r.entry) s.db.entries)))
]
