-- ===== src/Forward/Sender.antt =====
-- `Run`, `flush` and `send` of internal/forward/forwarder.go. The connection is up to the network:
-- which writes fail, and how much of such a write goes out, is a parameter, and whether a dial
-- succeeds a part of the step.
pub mod Steps
pub mod Account
pub mod Flush
use hannah_logcollector.Prelude.{
  ℕ, ◌+◌, ◌*◌, min, Bool, true, false, List, [], ◌∷◌, ◌++◌, if◌then◌else◌,
}
use mathlib.Core.List.{flatten}
use hannah_logcollector.Prelude.Lists.{take}
use hannah_logcollector.Text.{Bytes}
use hannah_logcollector.Proto.{Proto}
use hannah_logcollector.Store.{Source, Entry}
use hannah_logcollector.Store.Sql.{Result}
use hannah_logcollector.Forward.Queue.{Ring, take_batch, take_token, report_drops}
use hannah_logcollector.Forward.Encode.{Settings, encode}

abbrev pub max_batch : ℕ
max_batch = 200

abbrev pub min_backoff : ℕ
min_backoff = 1_000_000_000

abbrev pub max_backoff : ℕ
max_backoff = 30 * 1_000_000_000

-- What `send` did: whether all writes succeeded, what was written, and the number of the next write.
pub record Sent : Type 0 where
  pub fine : Bool
  pub written : List Bytes
  pub clock : ℕ

-- Where `Run` stands: in front of `take`, or in the loop over a payload.
pub data Phase : Type 0 where
  taking : Phase
  sending : List Bytes → Phase

-- The writes that fail, by their numbers, and how many bytes go out before such a write fails.
pub record Network : Type 0 where
  pub fails : ℕ → Bool
  pub part : ℕ → ℕ

module _ (net : Network) where
  -- `conn.Write`
  abbrev pub write : Bytes → ℕ → Sent
  write data_out k =
      if net.fails k
      then record { fine = false; written = take (net.part k) data_out ∷ []; clock = k + 1 }
      else record { fine = true; written = data_out ∷ []; clock = k + 1 }

  -- The loop of `send`: a datagram for each line, up to the first that fails.
  unfoldable pub send_each : List Bytes → ℕ → Sent
  send_each [] k = record { fine = true; written = []; clock = k }
  send_each (line ∷ lines) k =
      let rest = send_each lines (k + 1) in
      let sent = write line k in
      if sent.fine
      then record { fine = rest.fine; written = sent.written ++ rest.written; clock = rest.clock }
      else sent

  -- `send`
  unfoldable pub send : Settings → List Bytes → ℕ → Sent
  send f lines k = if f.is_tcp then write (flatten lines) k else send_each lines k

-- The forwarder and the variables of `Run`. `taken`, `encoded`, `delivered` and `wire` are the
-- history: the entries taken, their lines, the lines of the payloads that `send` reported as sent,
-- and all that was written, a byte sequence for each write.
pub record Sender (S : Type 0) : Type 0 where
  pub ring : Ring
  pub known : List Source
  pub sources : S
  pub phase : Phase
  pub connected : Bool
  pub up : Bool
  pub backoff : ℕ
  pub clock : ℕ
  pub taken : List Entry
  pub encoded : List Bytes
  pub delivered : List Bytes
  pub wire : List Bytes

module _ {S : Type 0} where
  -- The start of `Run`.
  unfoldable pub run_sender : Ring → S → Sender S
  run_sender ring s = record {
    ring = ring;
    known = [];
    sources = s;
    phase = taking;
    connected = false;
    up = true;
    backoff = min_backoff;
    clock = 0;
    taken = [];
    encoded = [];
    delivered = [];
    wire = [];
  }

  -- `reportDrops` at the times `since` and `now`.
  abbrev pub report : ℕ → ℕ → Sender S → Sender S
  report since now w = record w { ring = (report_drops since now w.ring).1 }

  -- A dial that fails: the wait doubles.
  unfoldable pub dial_failed : ℕ → ℕ → Sender S → Sender S
  dial_failed since now w = record (report since now w) {
    up = false;
    backoff = min (w.backoff * 2) max_backoff;
  }

  -- A dial that succeeds.
  unfoldable pub dialled : Sender S → Sender S
  dialled w = record w { connected = true; up = true }

  -- `send` on the connection, and what follows: the payload is done, or waits for a new connection.
  abbrev pub after_send : ℕ → ℕ → List Bytes → Sent → Sender S → Sender S
  after_send since now lines out w =
      let sent = record w { wire = w.wire ++ out.written; clock = out.clock } in
      if out.fine
      then report since now (record sent { phase = taking; delivered = w.delivered ++ lines })
      else record sent { connected = false; up = false }

  unfoldable pub send_payload : Network → Settings → ℕ → ℕ → List Bytes → Sender S → Sender S
  send_payload net f since now lines w = after_send since now lines (send net f lines w.clock) w

  -- A payload without lines is done at once.
  abbrev pub begin_payload : ℕ → ℕ → List Bytes → Sender S → Sender S
  begin_payload since now [] w = report since now w
  begin_payload since now (line ∷ lines) w = record w { phase = sending (line ∷ lines) }

  module _ (all_sources : S → Result (List Source) × S) (p : Proto) (f : Settings) where
    -- An empty queue: `Run` waits for a token. Otherwise the batch is encoded.
    abbrev pub payload_of : ℕ → ℕ → List Entry → Ring → Sender S → Sender S
    payload_of since now [] ring w = record w { ring = take_token ring }
    payload_of since now (e ∷ batch) ring w =
        let out = encode all_sources p f (e ∷ batch) w.known w.sources in
        let encoded = record w {
          ring = ring;
          known = out.known;
          sources = out.sources;
          backoff = min_backoff;
          taken = w.taken ++ e ∷ batch;
          encoded = w.encoded ++ out.lines;
        } in
        begin_payload since now out.lines encoded

    -- The head of the loop of `Run`.
    unfoldable pub take_payload : ℕ → ℕ → Sender S → Sender S
    take_payload since now w =
        let (batch, ring) = take_batch w.ring max_batch in payload_of since now batch ring w
