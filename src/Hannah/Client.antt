-- ===== src/Hannah/Client.antt =====
-- internal/hannah/client.go: the registration at Hannah Core, which is repeated whenever its stream
-- ends. Times are counted in nanoseconds.
pub mod Backoff
use hannah_logcollector.Prelude.{
  ℕ, ◌*◌, min, Bool, true, false, List, [], ◌∷◌, ◌++◌, ◌||◌, if◌then◌else◌, ℤ,
}
use hannah_logcollector.Text.{Bytes}

-- `Registration`
pub record Registration : Type 0 where
  pub instance_name : Bytes
  pub host : Bytes
  pub port : ℤ
  pub version : Bytes
  pub syslog_port : ℤ

-- `LogCollectorRegister` of hannah.v2 and of hannah.v1, with the fields that `register` sets.
pub record V2Register : Type 0 where
  pub instance_name : Bytes
  pub host : Bytes
  pub port : ℤ
  pub version : Bytes
  pub syslog_port : ℤ

pub record V1Register : Type 0 where
  pub instance_name : Bytes
  pub host : Bytes
  pub port : ℤ
  pub version : Bytes

pub data LogCollectorMessage : Type 0 where
  of_v1 : V1Register → LogCollectorMessage
  of_v2 : V2Register → LogCollectorMessage

-- `register` of v1Stream and of v2Stream: the message sent.
abbrev pub register : Bool → Registration → LogCollectorMessage
register true r =
    of_v1 (record {
      instance_name = r.instance_name;
      host = r.host;
      port = r.port;
      version = r.version;
    })
register false r = of_v2 (record {
  instance_name = r.instance_name;
  host = r.host;
  port = r.port;
  version = r.version;
  syslog_port = r.syslog_port;
})

-- What an attempt meets: whether `NewClient` fails, whether Core speaks hannah.v1 only, whether the
-- stream cannot be opened, whether `Send` fails, and the commands that come before the error that
-- ends the stream; of a command, whether it acknowledges the registration.
pub record Core : Type 0 where
  pub client_fails : Bool
  pub is_v1 : Bool
  pub stream_fails : Bool
  pub send_fails : Bool
  pub commands : List Bool

-- How an attempt ended, which is always with an error: whether Core acknowledged the registration,
-- and what was sent.
pub record Attempt : Type 0 where
  pub registered : Bool
  pub sent : List LogCollectorMessage

-- The loop over the commands, by the variable `registered`.
unfoldable pub receive_all : Bool → List Bool → Bool
receive_all registered [] = registered
receive_all registered (ack ∷ rest) = receive_all (if ack then true else registered) rest

-- `connect`
abbrev pub connect : Registration → Core → Attempt
connect reg c =
    if c.client_fails || c.stream_fails || c.send_fails
    then record { registered = false; sent = [] }
    else record { registered = receive_all false c.commands; sent = register c.is_v1 reg ∷ [] }

abbrev pub second : ℕ
second = 1_000_000_000

abbrev pub max_backoff : ℕ
max_backoff = 30 * second

-- The variable of `Run`, with the waits and the registrations so far.
pub record Running : Type 0 where
  pub backoff : ℕ
  pub waits : List ℕ
  pub sent : List LogCollectorMessage

-- The start of `Run`.
abbrev pub at_start : Running
at_start = record { backoff = second; waits = []; sent = [] }

-- The backoff of the wait, and the one behind it.
abbrev pub backoff_before : Bool → ℕ → ℕ
backoff_before registered backoff = if registered then second else backoff

abbrev pub backoff_after : Bool → ℕ → ℕ
backoff_after registered backoff = if registered then backoff else min (backoff * 2) max_backoff

-- A round of the loop, with its wait.
abbrev pub attempt : Attempt → Running → Running
attempt a s =
    let backoff = backoff_before a.registered s.backoff in
    record {
      backoff = backoff_after a.registered backoff;
      waits = s.waits ++ backoff ∷ [];
      sent = s.sent ++ a.sent;
    }

-- `Run`, through the attempts that it makes until its context ends.
unfoldable pub run : Registration → List Core → Running → Running
run reg [] s = s
run reg (c ∷ rest) s = run reg rest (attempt (connect reg c) s)
