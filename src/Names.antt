-- ===== src/Names.antt =====
-- internal/names/names.go: the display names of the satellites. A registry is the map `byID`, here a
-- list of pairs whose first hit counts.
pub mod Laws
use mathlib.Core.Option
use hannah_logcollector.Prelude.{Bool, true, false, List, [], ◌∷◌, if◌then◌else◌}
use hannah_logcollector.Text.{Bytes, equal, is_empty}
use hannah_logcollector.Store.Sql.{Result, ok, failed}

abbrev pub Registry : Type 0
Registry = List (Bytes × Bytes)

-- `New`
abbrev pub new : Registry
new = []

-- `r.byID[id]`, with "" for a key that is not there
unfoldable pub get : Registry → Bytes → Bytes
get [] id = []
get ((key, value) ∷ rest) id = if equal key id then value else get rest id

-- `Registry.Name`
unfoldable pub name : Registry → Bytes → Bytes
name r id = if is_empty (get r id) then id else get r id

-- The variables of `run`, and whether it has to wait for `retry` and not for `refresh`.
pub record Running : Type 0 where
  pub registry : Registry
  pub failing : Bool
  pub loaded : Bool
  pub wait_retry : Bool

-- The start of `run`
abbrev pub started : Registry → Running
started r = record { registry = r; failing = false; loaded = false; wait_retry = false }

-- A round of `run`, by the answer of `list`.
abbrev pub round : Running → Result Registry → Running
round s failed = record s { failing = true; wait_retry = true }
round s (ok names) = record { registry = names; failing = false; loaded = true; wait_retry = false }

-- The rounds of `run`, by the answers in order.
unfoldable pub run : Running → List (Result Registry) → Running
run s [] = s
run s (a ∷ rest) = run (round s a) rest
