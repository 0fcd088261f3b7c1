-- ===== src/Store/Sql.antt =====
-- The database under internal/store: its tables, and the statements that run on them. The store has
-- a single connection (`SetMaxOpenConns(1)`), so statements run one after another.
use hannah_logcollector.Prelude.{ℕ, ◌+◌, ◌≢◌, Bool, List, if◌then◌else◌, map, All}
use hannah_logcollector.Store.{Source, Entry, Gap}

-- A row of `entries`: the rowid beside the entry.
pub record Row : Type 0 where
  pub id : ℕ
  pub entry : Entry

-- The tables that `migrate` creates.
pub record Db : Type 0 where
  pub sources : List Source
  pub entries : List Row
  pub gaps : List Gap

abbrev pub entry_ids : Db → List ℕ
entry_ids db = map (λ (r : Row). r.id) db.entries

abbrev pub source_ids : Db → List ℕ
source_ids db = map (λ (s : Source). s.id) db.sources

-- What is up to SQLite, which is not part of the repository: which statements fail, counted from the
-- start; the rowid of a new row; and how many pages the file has, and how many of them are free.
pub record Engine : Type 0 where
  pub fails : ℕ → Bool
  pub next_id : List ℕ → ℕ
  pub page_count : ℕ → Db → ℕ
  pub freelist_count : ℕ → Db → ℕ
  pub page_size : ℕ

-- A new row gets a rowid that no row of the table has.
pub record IsEngine (g : Engine) : Type 0 where
  pub next_id-fresh : (ids : List ℕ) → All (λ i. g.next_id ids ≢ i) ids

-- `clock` counts the statements so far.
pub record State : Type 0 where
  pub db : Db
  pub clock : ℕ

pub data Result {ℓ} (A : Type ℓ) : Type ℓ where
  ok : A → Result A
  failed : Result A

abbrev pub Sql {ℓ} : Type ℓ → Type ℓ
Sql A = State → Result A × State

abbrev pub tick : State → State
tick s = record s { clock = s.clock + 1 }

abbrev pub continue {ℓ κ} :
    {A : Type ℓ} {B : Type κ} → Result A → State → (A → Sql B) → Result B × State
continue (ok a) s f = f a s
continue failed s f = (failed, s)

infixl 5 ◌>>=◌ ◌>>◌
abbrev pub ◌>>=◌ {ℓ κ} : {A : Type ℓ} {B : Type κ} → Sql A → (A → Sql B) → Sql B
◌>>=◌ m f s = continue (m s).0 (m s).1 f

abbrev pub ◌>>◌ {ℓ} : {B : Type ℓ} → Sql (Unit {0}) → Sql B → Sql B
m >> k = m >>= λ _. k

abbrev pub pure {ℓ} : {A : Type ℓ} → A → Sql A
pure a s = (ok a, s)

module _ (g : Engine) where
  -- A statement that fails changes nothing.
  abbrev pub statement {ℓ} : {A : Type ℓ} → (State → A × Db) → Sql A
  statement f s =
      if g.fails s.clock
      then (failed, tick s)
      else (ok (f s).0, record { db = (f s).1; clock = s.clock + 1 })

  -- A statement that only reads.
  abbrev pub query {ℓ} : {A : Type ℓ} → (State → A) → Sql A
  query f = statement (λ s. (f s, s.db))

-- A transaction that fails is rolled back.
abbrev pub transaction : Sql (Unit {0}) → Sql (Unit {0})
transaction m s = elim (m s).0 [
  | ok _ ↦ m s
  | failed ↦ (failed, record { db = s.db; clock = (m s).1.clock })
]
