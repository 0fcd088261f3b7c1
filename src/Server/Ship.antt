-- ===== src/Server/Ship.antt =====
-- `Ship` of internal/server/server.go: one stream of a component, from its first message to its
-- acknowledgement. The handler is a state machine that the messages drive.
pub mod Steps
pub mod Inv
pub mod Durable
use hannah_logcollector.Prelude.{ℕ, ◌+◌, List, [], ◌∷◌, ◌++◌, if◌then◌else◌, length, ℤ}
use hannah_logcollector.Text.{Bytes, is_empty}
use hannah_logcollector.Store.{Entry, Gap}
use hannah_logcollector.Store.Sql.{Engine, State, Result, ok, failed}
use hannah_logcollector.Store.Queries.{upsert_source, insert_gap}
use hannah_logcollector.Store.Writer.{Writer, add, send_sync}

-- The messages `ShipHello`, `LogEntry` and `LogGap` of the shipping API, as their getters show them.
pub record Hello : Type 0 where
  pub component : Bytes
  pub instance_name : Bytes
  pub version : Bytes

pub record LogEntry : Type 0 where
  pub timestamp_ms : ℤ
  pub level : ℤ
  pub logger : Bytes
  pub message : Bytes
  pub category : ℤ

pub record LogGap : Type 0 where
  pub dropped : ℤ
  pub from_ms : ℤ
  pub to_ms : ℤ

-- The payload of a `ShipMessage`; `unknown` is none of these, or no payload.
pub data Payload : Type 0 where
  hello : Hello → Payload
  entry : LogEntry → Payload
  gap : LogGap → Payload
  unknown : Payload

-- What `stream.Recv` returns: a message, io.EOF, or another error.
pub data Received : Type 0 where
  message : Payload → Received
  end_of_stream : Received
  broken : Received

-- What `Ship` returns: an acknowledgement of so many entries, a status, or the error of the stream
-- or of its context.
pub data Outcome : Type 0 where
  acknowledged : ℕ → Outcome
  invalid_argument : Outcome
  internal : Outcome
  disconnected : Outcome
  cancelled : Outcome

-- Where `Ship` stands: at its first `Recv`; in its loop, with `sourceID` and `accepted`; in `Sync`,
-- which so many entries of the writer came before, with `accepted`; behind its return.
pub data Phase : Type 0 where
  greeting : Phase
  shipping : ℕ → ℕ → Phase
  syncing : ℕ → ℕ → Phase
  finished : Outcome → Phase

-- A call of `Ship`. `shipped` is its history: the entries that it has given to the writer.
pub record Call : Type 0 where
  pub phase : Phase
  pub shipped : List Entry

abbrev pub opened : Call
opened = record { phase = greeting; shipped = [] }

-- The entry of the store for an entry of source `id`, and the gap.
abbrev pub entry_from : ℕ → LogEntry → Entry
entry_from id e = record {
  source_id = id;
  timestamp_ms = e.timestamp_ms;
  level = e.level;
  logger = e.logger;
  message = e.message;
  category = e.category;
}

abbrev pub gap_from : ℕ → LogGap → Gap
gap_from id x = record { source_id = id; dropped = x.dropped; from_ms = x.from_ms; to_ms = x.to_ms }

abbrev pub move_to : Phase → Call → Call
move_to phase c = record c { phase = phase }

-- What comes of `UpsertSource`.
abbrev pub registered : Result ℕ × State → Call → Writer → Call × Writer
registered (failed, s) c w = (move_to (finished internal) c, record w { store = s })
registered (ok id, s) c w = (move_to (shipping id 0) c, record w { store = s })

module _ (g : Engine) where
  -- The hello of a component.
  abbrev pub register : Hello → Call → Writer → Call × Writer
  register h c w =
      if is_empty h.component
      then (move_to (finished invalid_argument) c, w)
      else registered (upsert_source g h.component h.instance_name h.version w.store) c w

  -- The first `Recv`.
  abbrev pub greet : Received → Call → Writer → Call × Writer
  greet end_of_stream c w = (move_to (finished (acknowledged 0)) c, w)
  greet broken c w = (move_to (finished disconnected) c, w)
  greet (message (hello h)) c w = register h c w
  greet (message (entry _)) c w = (move_to (finished invalid_argument) c, w)
  greet (message (gap _)) c w = (move_to (finished invalid_argument) c, w)
  greet (message unknown) c w = (move_to (finished invalid_argument) c, w)

  -- A round of the loop; a gap that cannot be stored is only logged.
  abbrev pub take_in : ℕ → ℕ → Received → Call → Writer → Call × Writer
  take_in id accepted end_of_stream c w =
      (move_to (syncing (length w.accepted) accepted) c, send_sync w)
  take_in id accepted broken c w = (move_to (finished disconnected) c, w)
  take_in id accepted (message (entry e)) c w = (
    record { phase = shipping id (accepted + 1); shipped = c.shipped ++ entry_from id e ∷ [] },
    add (entry_from id e) w,
  )
  take_in id accepted (message (gap x)) c w =
      (c, record w { store = (insert_gap g (gap_from id x) w.store).1 })
  take_in id accepted (message (hello _)) c w = (c, w)
  take_in id accepted (message unknown) c w = (c, w)

  -- What `Ship` does with what `Recv` returns; it does not receive anywhere else.
  abbrev pub receive_in : Phase → Received → Call → Writer → Call × Writer
  receive_in greeting r c w = greet r c w
  receive_in (shipping id accepted) r c w = take_in id accepted r c w
  receive_in (syncing _ _) r c w = (c, w)
  receive_in (finished _) r c w = (c, w)

  unfoldable pub receive : Received → Call → Writer → Call × Writer
  receive r c w = receive_in c.phase r c w

-- What `Ship` does with the answer of `Sync`.
abbrev pub answered : ℕ → Result (Unit {0}) → Call → Call
answered accepted (ok _) c = move_to (finished (acknowledged accepted)) c
answered accepted failed c = move_to (finished internal) c

-- The context of the stream ends while `Add` or `Sync` waits.
abbrev pub cancel_in : Phase → Call → Call
cancel_in greeting c = c
cancel_in (shipping _ _) c = move_to (finished cancelled) c
cancel_in (syncing _ _) c = move_to (finished internal) c
cancel_in (finished _) c = c

unfoldable pub cancel : Call → Call
cancel c = cancel_in c.phase c
