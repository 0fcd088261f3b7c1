-- ===== src/Store/Queries.antt =====
-- internal/store/store.go: registering sources, storing entries and gaps, and selecting them.
pub mod Sources
pub mod Inserts
pub mod Filters
pub mod Rows
pub mod Gaps
pub mod Overlap
pub mod Stats
use mathlib.Core.Option
use hannah_logcollector.Prelude.{
  ℕ, zero, suc, ◌+◌, Bool, true, false, not, ◌&&◌, ◌||◌, List, [], ◌∷◌, ◌++◌, map, Option, none,
  some, ◌==◌, leb, if◌then◌else◌, ℤ, pos, ltb_ℤ, leb_ℤ, eq_ℤ, length, keep_if,
}
use hannah_logcollector.Prelude.Sort.{sort}
use hannah_logcollector.Text.{Bytes, codes, equal}
use hannah_logcollector.Store.{Source, Entry, Gap}
use hannah_logcollector.Store.Sql.{
  Row, Db, entry_ids, source_ids, Engine, State, Sql, ◌>>=◌, ◌>>◌, pure, statement, query,
  transaction,
}

-- The source of (component, instance) among the rows.
unfoldable pub find : Bytes → Bytes → List Source → Option Source
find c i [] = none
find c i (s ∷ rest) =
    if equal s.component c && equal s.instance_name i then some s else find c i rest

-- `DO UPDATE SET version = excluded.version` on the row of (component, instance)
unfoldable pub set_version : Bytes → Bytes → Bytes → List Source → List Source
set_version c i v [] = []
set_version c i v (s ∷ rest) =
    (if equal s.component c && equal s.instance_name i then record s { version = v } else s)
    ∷ set_version c i v rest

-- The source with an id, as the map of `AllSources` gives it.
unfoldable pub source_of : ℕ → List Source → Option Source
source_of id [] = none
source_of id (s ∷ rest) = if s.id == id then some s else source_of id rest

-- `Filter`
pub record Filter : Type 0 where
  pub since_ms : ℤ
  pub until_ms : ℤ
  pub components : List Bytes
  pub exclude_categories : List ℤ

-- The conditions that `where` and `Gaps` put together, with the number of their placeholders.
pub data Cond : Type 0 where
  at_least at_most : Cond
  component_in : ℕ → Cond
  category_not_in : ℕ → Cond

pub data Arg : Type 0 where
  num : ℤ → Arg
  str : Bytes → Arg

abbrev pub when {ℓ} : {A : Type ℓ} → Bool → List A → List A
when b xs = if b then xs else []

abbrev pub is_positive : ℤ → Bool
is_positive = ltb_ℤ (pos 0)

abbrev pub has_any {ℓ} : {A : Type ℓ} → List A → Bool
has_any [] = false
has_any (_ ∷ _) = true

-- `where`: the conditions, and the arguments for their placeholders.
unfoldable pub conds : Filter → List Cond
conds f =
    when (is_positive f.since_ms) (at_least ∷ [])
    ++ (when (is_positive f.until_ms) (at_most ∷ [])
        ++ (when (has_any f.components) (component_in (length f.components) ∷ [])
            ++ when (has_any f.exclude_categories)
                (category_not_in (length f.exclude_categories) ∷ [])))

unfoldable pub args : Filter → List Arg
args f =
    when (is_positive f.since_ms) (num f.since_ms ∷ [])
    ++ (when (is_positive f.until_ms) (num f.until_ms ∷ [])
        ++ (map str f.components ++ map num f.exclude_categories))

-- `placeholders`
unfoldable pub placeholders : ℕ → Bytes
placeholders zero = []
placeholders (suc zero) = codes "?"
placeholders (suc (suc n)) = codes "?, " ++ placeholders (suc n)

abbrev pub cond_text : Bytes → Cond → Bytes
cond_text alias at_least = alias ++ codes ".ts_ms >= ?"
cond_text alias at_most = alias ++ codes ".ts_ms <= ?"
cond_text alias (component_in n) = codes "s.component IN (" ++ (placeholders n ++ codes ")")
cond_text alias (category_not_in n) =
    alias ++ (codes ".category NOT IN (" ++ (placeholders n ++ codes ")"))

-- strings.Join(conds, " AND ")
abbrev pub joined : Bytes → List Cond → Bytes
joined alias [] = []
joined alias (c ∷ []) = cond_text alias c
joined alias (c ∷ d ∷ rest) = cond_text alias c ++ (codes " AND " ++ joined alias (d ∷ rest))

-- The text that `where` returns.
unfoldable pub where_text : Bytes → Filter → Bytes
where_text alias f = when (has_any (conds f)) (codes "WHERE " ++ joined alias (conds f))

-- What SQL makes of the conditions on an entry of a component, with the arguments in order.
abbrev pub one_of : Bytes → ℕ → List Arg → Bool × List Arg
one_of c zero given = (false, given)
one_of c (suc n) [] = (false, [])
one_of c (suc n) (num _ ∷ given) = one_of c n given
one_of c (suc n) (str d ∷ given) = let rest = one_of c n given in (equal d c || rest.0, rest.1)

abbrev pub none_of : ℤ → ℕ → List Arg → Bool × List Arg
none_of c zero given = (true, given)
none_of c (suc n) [] = (false, [])
none_of c (suc n) (str _ ∷ given) = none_of c n given
none_of c (suc n) (num d ∷ given) =
    let rest = none_of c n given in (not (eq_ℤ d c) && rest.0, rest.1)

abbrev pub with_num : List Arg → (ℤ → Bool) → Bool × List Arg
with_num (num n ∷ given) test = (test n, given)
with_num given test = (false, given)

abbrev pub cond_holds : Cond → Entry → Bytes → List Arg → Bool × List Arg
cond_holds at_least e c given = with_num given (λ n. leb_ℤ n e.timestamp_ms)
cond_holds at_most e c given = with_num given (λ n. leb_ℤ e.timestamp_ms n)
cond_holds (component_in k) e c given = one_of c k given
cond_holds (category_not_in k) e c given = none_of e.category k given

unfoldable pub all_hold : List Cond → Entry → Bytes → List Arg → Bool
all_hold [] e c given = true
all_hold (cond ∷ rest) e c given =
    let now = cond_holds cond e c given in now.0 && all_hold rest e c now.1

-- A row joined with its source, if it has one.
abbrev pub selected_by : Filter → Row → Option Source → Bool
selected_by f r none = false
selected_by f r (some s) = all_hold (conds f) r.entry s.component (args f)

abbrev pub selected : Filter → List Source → Row → Bool
selected f sources r = selected_by f r (source_of r.entry.source_id sources)

-- ORDER BY e.source_id, e.ts_ms, e.id
abbrev pub in_order : Row → Row → Bool
in_order a b =
    if a.entry.source_id == b.entry.source_id
    then (if eq_ℤ a.entry.timestamp_ms b.entry.timestamp_ms
        then leb a.id b.id
        else ltb_ℤ a.entry.timestamp_ms b.entry.timestamp_ms)
    else leb a.entry.source_id b.entry.source_id

unfoldable pub select_rows : Filter → Db → List Row
select_rows f db = sort in_order (keep_if (selected f db.sources) db.entries)

module _ (g : Engine) where
  abbrev pub upsert : Bytes → Bytes → Bytes → Db → Option Source → ℕ × Db
  upsert c i v db (some s) = (s.id, record db { sources = set_version c i v db.sources })
  upsert c i v db none =
      let id = g.next_id (source_ids db) in
      (
        id,
        record db {
          sources =
              db.sources ++ record { id = id; component = c; instance_name = i; version = v } ∷ [];
        },
      )

  -- `UpsertSource`
  unfoldable pub upsert_source : Bytes → Bytes → Bytes → Sql ℕ
  upsert_source c i v = statement g (λ s. upsert c i v s.db (find c i s.db.sources))

  -- `AllSources`
  unfoldable pub all_sources : Sql (List Source)
  all_sources = query g (λ s. s.db.sources)

  abbrev pub add_row : Entry → Db → Db
  add_row e db = record db {
    entries = db.entries ++ record { id = g.next_id (entry_ids db); entry = e } ∷ [];
  }

  -- The loop of `InsertEntries`.
  unfoldable pub insert_each : List Entry → Sql (Unit {0})
  insert_each [] = pure tt
  insert_each (e ∷ es) = do statement g (λ s. (tt, add_row e s.db)); insert_each es

  -- BEGIN, the preparation of a statement, and COMMIT change no row.
  abbrev pub control : Sql (Unit {0})
  control = query g (λ _. tt)

  abbrev pub insert_body : List Entry → Sql (Unit {0})
  insert_body es = do control; control; insert_each es; control

  -- `InsertEntries`
  unfoldable pub insert_entries : List Entry → Sql (Unit {0})
  insert_entries [] = pure tt
  insert_entries (e ∷ es) = transaction (insert_body (e ∷ es))

  -- `InsertGap`
  unfoldable pub insert_gap : Gap → Sql (Unit {0})
  insert_gap gap = statement g (λ s. (tt, record (s.db) { gaps = s.db.gaps ++ gap ∷ [] }))

  -- The query of `EachEntry`: the rows that it hands to its callback one by one, in this order. Its
  -- loop over them, in which reading a row may fail, stands with its caller, as `take_entries`.
  unfoldable pub each_entry : Filter → Sql (List Entry)
  each_entry f = query g (λ s. map (λ (r : Row). r.entry) (select_rows f s.db))
