-- ===== src/Names/Laws.antt =====
-- What internal/names/names.go promises of a name.
use hannah_logcollector.Prelude.{◌≡◌, ◌≢◌, ◌⊎◌, refl, Bool, true, false, List, [], ◌∷◌, arith}
use hannah_logcollector.Text.{Bytes}
use hannah_logcollector.Store.Sql.{Result, ok, failed}
use hannah_logcollector.Names.{Registry, Running, get, name, round, run}

-- The last good answer, or what there was before.
abbrev pub last_good : Registry → List (Result Registry) → Registry
last_good r [] = r
last_good r (failed ∷ rest) = last_good r rest
last_good r (ok names ∷ rest) = last_good names rest

-- Whether the last answer, if there is one, was an error.
abbrev pub last_failed : Bool → List (Result Registry) → Bool
last_failed b [] = b
last_failed b (failed ∷ rest) = last_failed true rest
last_failed b (ok names ∷ rest) = last_failed false rest

run-registry :
    (s : Running) (answers : List (Result Registry))
    → (run s answers).registry ≡ last_good s.registry answers
unfolding run
run-registry s [] = refl
run-registry s (failed ∷ rest) = run-registry (round s failed) rest
run-registry s (ok names ∷ rest) = run-registry (round s (ok names)) rest

run-wait :
    (s : Running) (answers : List (Result Registry))
    → (run s answers).wait_retry ≡ last_failed s.wait_retry answers
unfolding run
run-wait s [] = refl
run-wait s (failed ∷ rest) = run-wait (round s failed) rest
run-wait s (ok names ∷ rest) = run-wait (round s (ok names)) rest

-- For an id that is not empty, whatever Core answers and however often it fails: if the last good
-- answer (or what was there at first) has no name for the id, it is its own name, otherwise it
-- has the name given there; its name is not empty; and `run` waits for the short time exactly
-- after a failure (or if it did so before and there was no answer).
pub run-name :
    (s : Running) (answers : List (Result Registry)) (id : Bytes)
    → id ≢ []
    → let r = run s answers in
      let given = get (last_good s.registry answers) id in
      ((given ≡ []) × (name r.registry id ≡ id) ⊎ (given ≢ []) × (name r.registry id ≡ given))
      × (name r.registry id ≢ [])
      × (r.wait_retry ≡ last_failed s.wait_retry answers)
unfolding name
run-name s answers id h = rw (run-registry s answers, run-wait s answers) (ground arith)
