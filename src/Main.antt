-- ===== src/Main.antt =====
-- cmd/hannah-logcollector/main.go: what the program makes of its configuration, and the rounds of
-- its retention. The network and the flags are arguments.
pub mod Retention
use hannah_logcollector.Prelude.{
  ℕ, ◌-◌, ◌*◌, ◌^◌, ltb, ◌||◌, Bool, List, [], ◌∷◌, Option, none, some, if◌then◌else◌, ℤ, pos, wrap,
  scale_ℤ, ◌==◌, length,
}
use hannah_logcollector.Text.{Bytes, codes, equal}
use hannah_logcollector.Text.Decimal.{itoa}
use hannah_logcollector.Config.{Config, effective_advertise_port}
use hannah_logcollector.Hannah.Client.{Registration}
use hannah_logcollector.Store.Sql.{Engine, State}
use hannah_logcollector.Store.Prune.{Pruned, prune}

abbrev pub hour : ℕ
hour = 60 * 60 * 1_000_000_000

abbrev pub day : ℕ
day = 24 * hour

abbrev pub megabyte : ℕ
megabyte = 2 ^ 20

-- `maxAge` and `maxBytes`; both products are of 64 bits.
unfoldable pub max_age : Config → ℤ
max_age c = wrap 64 (scale_ℤ (wrap 64 (scale_ℤ c.retention.days 24)) hour)

unfoldable pub max_bytes : Config → ℤ
max_bytes c = wrap 64 (scale_ℤ c.retention.max_size_mb megabyte)

-- `prune` of `runRetention`, at a time.
unfoldable pub retention_round : Engine → Config → ℤ → State → Option Pruned
retention_round g c now s = prune g now (max_age c) (max_bytes c) s

-- The state behind a round; an error is only logged.
abbrev pub then_rounds : (State → Option State) → Option Pruned → Option State
then_rounds rest none = none
then_rounds rest (some p) = rest p.state

-- `runRetention`: a round at the start, and one at each tick.
unfoldable pub run_retention : Engine → Config → List ℤ → State → Option State
run_retention g c [] s = some s
run_retention g c (now ∷ ticks) s =
    then_rounds (run_retention g c ticks) (retention_round g c now s)

-- The levels of `slog`.
pub data Level : Type 0 where
  level_debug level_info level_warn level_error : Level

-- The `switch` of `setupLogging`
unfoldable pub level_of : Bytes → Level
level_of level =
    if equal level (codes "debug")
    then level_debug
    else if equal level (codes "warn")
    then level_warn
    else if equal level (codes "error")
    then level_error
    else level_info

-- The address of the listener: of TCP, or another with its text.
pub data Address : Type 0 where
  tcp : (ip : Bytes) (port : ℕ) → Address
  other : Bytes → Address

-- `IsUnspecified` and `String` of net.IP, and net.JoinHostPort.
module _ (is_unspecified : Bytes → Bool) (print_ip : Bytes → Bytes)
    (join_host_port : Bytes → Bytes → Bytes) where
  -- `net.IPv4(127, 0, 0, 1)`
  abbrev pub loopback : Bytes
  loopback = 0 ∷ 0 ∷ 0 ∷ 0 ∷ 0 ∷ 0 ∷ 0 ∷ 0 ∷ 0 ∷ 0 ∷ 255 ∷ 255 ∷ 127 ∷ 0 ∷ 0 ∷ 1 ∷ []

  abbrev pub self_host : Bytes → Bytes
  self_host ip = if length ip == 0 || is_unspecified ip then loopback else ip

  -- `selfAddress`
  unfoldable pub self_address : Address → Bytes
  self_address (other text) = text
  self_address (tcp ip port) = join_host_port (print_ip (self_host ip)) (itoa port)

-- The port of the syslog receiver, or none if there is no receiver.
abbrev pub announced_syslog_port : Option ℕ → ℤ
announced_syslog_port none = pos 0
announced_syslog_port (some port) = wrap 32 (pos port)

-- What `main` announces at Hannah Core.
unfoldable pub registration :
    (Bytes → Option (Bytes × Bytes)) → Bytes → Option ℕ → Config → Registration
registration split_host_port version receiver c = record {
  instance_name = c.server.instance_name;
  host = c.server.advertise_host;
  port = wrap 32 (effective_advertise_port split_host_port c);
  version = version;
  syslog_port = announced_syslog_port receiver;
}
