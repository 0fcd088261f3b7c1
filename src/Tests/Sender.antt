-- ===== src/Tests/Sender.antt =====
-- The sending half of the forwarder, and the names, on sample inputs.
use hannah_logcollector.Prelude.{
  ◌≡◌, ◌≢◌, ◌⊎◌, inl, refl, true, false, ◌==◌, pos, List, [], ◌∷◌, none, some, ◌<◌, arith,
}
use hannah_logcollector.Text.{Bytes, codes}
use hannah_logcollector.Store.{Source}
use hannah_logcollector.Store.Sql.{Result, ok, failed}
use hannah_logcollector.Store.Queries.{source_of}
use hannah_logcollector.Forward.Queue.{new, offer}
use hannah_logcollector.Forward.Encode.{Settings, line_of, encode}
use hannah_logcollector.Forward.Encode.Lines.{Agrees, Answers, lines_by, encode_lem}
use hannah_logcollector.Forward.Sender.{Network, Sender, run_sender, take_payload, dial_failed}
use hannah_logcollector.Forward.Queue.Inv.{IsValid, new-IsValid, offer-IsValid}
use hannah_logcollector.Forward.Sender.Flush.{flush, Flushed, flush_drains}
use hannah_logcollector.Names.{Registry, started, run, name, get}
use hannah_logcollector.Names.Laws.{last_good, last_failed, run-name}
use hannah_logcollector.Tests.Samples.{proto, satellite, warning}

abbrev settings : Settings
settings = record { is_tcp = true; names = none }

-- Sources that always answer with one table.
abbrev constant : Unit {0} → Result (List Source) × Unit {0}
constant s = (ok (satellite ∷ []), s)

constant-Answers : Answers constant (satellite ∷ [])
constant-Answers s = refl

none_known : Agrees [] (satellite ∷ [])
none_known id = inl (unfold source_of in refl)

encode_lem_example :
    ((encode constant proto settings (warning ∷ []) [] tt).lines
      ≡ lines_by proto settings (satellite ∷ []) (warning ∷ []))
    × Agrees (encode constant proto settings (warning ∷ []) [] tt).known (satellite ∷ [])
encode_lem_example =
    encode_lem constant (satellite ∷ []) proto settings (warning ∷ []) [] tt constant-Answers
      none_known

-- A queue of two; the first write fails.
abbrev at_start : Sender (Unit {0})
at_start = run_sender (offer (offer (new (pos 2)) warning) warning) tt

abbrev payload : Bytes
payload = line_of proto settings warning satellite

abbrev first_fails : Network
first_fails = record { fails = λ k. k == 0; part = λ _. 3 }

abbrev waiting : Sender (Unit {0})
waiting = dial_failed 0 0 (take_payload constant proto settings 0 0 at_start)

abbrev by_datagrams : Settings
by_datagrams = record { is_tcp = false; names = none }

at_start-IsValid : IsValid at_start.ring
unfolding run_sender
at_start-IsValid = offer-IsValid warning (offer-IsValid warning (new-IsValid (pos 2)))

two_waiting : at_start.ring.n < 3
unfolding run_sender offer new
two_waiting = omega arith

at_start-Agrees : Agrees at_start.known (satellite ∷ [])
unfolding run_sender
at_start-Agrees = none_known

flush_drains_example :
    (v : Sender (Unit {0})) × (flush first_fails constant proto by_datagrams 3 at_start ≡ some v)
    × Flushed first_fails constant proto by_datagrams (satellite ∷ []) at_start v
flush_drains_example =
    flush_drains first_fails constant proto by_datagrams (satellite ∷ []) 3 at_start
      at_start-IsValid two_waiting constant-Answers at_start-Agrees

abbrev answers : List (Result Registry)
answers = failed ∷ ok ((codes "a1", codes "Kitchen") ∷ []) ∷ failed ∷ []

run-name_example :
    let r = run (started []) answers in
    let given = get (last_good [] answers) (codes "a1") in
    ((given ≡ []) × (name r.registry (codes "a1") ≡ codes "a1")
      ⊎ (given ≢ []) × (name r.registry (codes "a1") ≡ given))
    × (name r.registry (codes "a1") ≢ [])
    × (r.wait_retry ≡ last_failed false answers)
run-name_example = run-name (started []) answers (codes "a1") (λ e. grind arith)
