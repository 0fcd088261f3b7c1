-- ===== src/Syslog/Receiver/Run.antt =====
-- `Run` of internal/syslog/receiver.go: one datagram after another.
pub mod Handles
pub mod Account
use hannah_logcollector.Prelude.{ℕ, suc, ◌≡◌, List, [], ◌∷◌, Option, none, some, ℤ, take}
use hannah_logcollector.Text.{Bytes}
use hannah_logcollector.Proto.{Proto}
use hannah_logcollector.Store.{Entry}
use hannah_logcollector.Store.Sql.{failed}
use hannah_logcollector.Syslog.Parse.{Message, parse}
use hannah_logcollector.Syslog.Receiver.{
  Sources, Receiver, Handled, entry_for, component_of, instance_of, handle, host_of,
}

abbrev pub max_datagram : ℕ
max_datagram = 65535

-- What `ReadFrom` gives: an error that is only logged, or a datagram with the address of its sender
-- and the time of its arrival.
pub data Read : Type 0 where
  broken : Read
  datagram : (addr : Bytes) (now : ℤ) (packet : Bytes) → Read

-- The entries handed to the sink, and the receiver and the sources behind them.
pub record Ran (S : Type 0) : Type 0 where
  pub entries : List Entry
  pub receiver : Receiver
  pub sources : S

abbrev pub with_entry : Option Entry → List Entry → List Entry
with_entry none es = es
with_entry (some e) es = e ∷ es

module _ {S : Type 0} (sources : Sources S) (p : Proto) (parse_time : Bytes → Option ℤ)
    (split_host_port : Bytes → Option Bytes) where
  -- What fits into the buffer of `Run`.
  abbrev pub handle_read : Bytes → ℤ → Bytes → Receiver → S → Handled S
  handle_read addr now packet r s =
      handle sources p parse_time split_host_port addr now (take max_datagram packet) r s

  -- `Run`, through the reads up to the one that finds the socket closed.
  unfoldable pub run : List Read → Receiver → S → Ran S
  run [] r s = record { entries = []; receiver = r; sources = s }
  run (broken ∷ rest) r s = run rest r s
  run (datagram addr now packet ∷ rest) r s =
      let h = handle_read addr now packet r s in
      let out = run rest h.receiver h.sources in
      record out { entries = with_entry h.entry out.entries }

  abbrev pub parsed : Bytes → Option Message
  parsed packet = parse parse_time (take max_datagram packet)

  -- What becomes of the reads, with the sources as they are in the end: the entries, and the number
  -- of datagrams that are no message.
  pub data Receives (final : S) : List Read → List Entry → ℕ → Type 0 where
    nothing : Receives final [] [] 0
    skipped :
        {rest : List Read} {es : List Entry} {n : ℕ}
        → Receives final rest es n
        → Receives final (broken ∷ rest) es n
    unread :
        {rest : List Read} {es : List Entry} {n : ℕ} (addr : Bytes) (now : ℤ) (packet : Bytes)
        → parsed packet ≡ none
        → Receives final rest es n
        → Receives final (datagram addr now packet ∷ rest) es (suc n)
    entered :
        {rest : List Read} {es : List Entry} {n : ℕ} (addr : Bytes) (now : ℤ) (packet : Bytes)
        (msg : Message) (id : ℕ)
        → parsed packet ≡ some msg
        → sources.Registered final
            (component_of sources p msg)
            (instance_of sources p (host_of split_host_port addr) msg)
            id
        → Receives final rest es n
        → Receives final (datagram addr now packet ∷ rest) (entry_for sources p now msg id ∷ es) n
    refused :
        {rest : List Read} {es : List Entry} {n : ℕ} (addr : Bytes) (now : ℤ) (packet : Bytes)
        (msg : Message) (s : S)
        → parsed packet ≡ some msg
        → (sources.upsert_source
            (component_of sources p msg)
            (instance_of sources p (host_of split_host_port addr) msg)
            []
            s).0
          ≡ failed
        → Receives final rest es n
        → Receives final (datagram addr now packet ∷ rest) es n
