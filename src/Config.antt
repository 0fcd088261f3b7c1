-- ===== src/Config.antt =====
-- internal/config/config.go: the configuration, from the defaults, a file and the environment.
-- Reading and decoding the file, the environment and net.SplitHostPort are arguments.
pub mod Valid
pub mod Order
pub mod Overrides
use mathlib.Core.Option
use hannah_logcollector.Prelude.{
  ℕ, ◌+◌, ◌-◌, ◌*◌, ◌^◌, ltb, Bool, true, false, not, ◌||◌, List, [], ◌∷◌, ◌++◌, Option, none, some,
  if◌then◌else◌, ℤ, pos, negsuc, leb_ℤ, eq_ℤ, ◌==◌,
}
use hannah_logcollector.Text.{Bytes, codes, equal, is_empty}
use hannah_logcollector.Text.Decimal.{atoi}

-- `Config`, with the structures that it holds.
pub record HannahConfig : Type 0 where
  pub address : Bytes

pub record ServerConfig : Type 0 where
  pub listen : Bytes
  pub advertise_host : Bytes
  pub advertise_port : ℤ
  pub instance_name : Bytes

pub record SyslogConfig : Type 0 where
  pub listen : Bytes

pub record ForwardConfig : Type 0 where
  pub address : Bytes
  pub protocol : Bytes

pub record DbConfig : Type 0 where
  pub path : Bytes

pub record RetentionConfig : Type 0 where
  pub days : ℤ
  pub max_size_mb : ℤ

pub record LogConfig : Type 0 where
  pub level : Bytes

pub record Config : Type 0 where
  pub hannah : HannahConfig
  pub server : ServerConfig
  pub syslog : SyslogConfig
  pub forward : ForwardConfig
  pub db : DbConfig
  pub retention : RetentionConfig
  pub log : LogConfig

unfoldable pub defaults : Config
defaults = record {
  hannah = record { address = codes "localhost:50051" };
  server = record {
    listen = codes ":50060";
    advertise_host = [];
    advertise_port = pos 0;
    instance_name = codes "default";
  };
  syslog = record { listen = [] };
  forward = record { address = []; protocol = codes "tcp" };
  db = record { path = codes "logs.db" };
  retention = record { days = pos 7; max_size_mb = pos 256 };
  log = record { level = codes "info" };
}

-- The settings that are numbers.
pub data Number : Type 0 where
  advertise_port days max_size_mb : Number

-- The errors of `Load`.
pub data Failure : Type 0 where
  reading_file parsing_file : Failure
  not_a_number : Number → Failure
  server_listen syslog_listen forward_protocol forward_address : Failure
  retention_days retention_max_size_mb : Failure

pub data Loaded (A : Type 0) : Type 0 where
  ok : A → Loaded A
  refused : Failure → Loaded A

-- An error ends the chain.
infixl 5 ◌>>=◌ ◌>>◌
abbrev pub ◌>>=◌ : {A B : Type 0} → Loaded A → (A → Loaded B) → Loaded B
refused e >>= next = refused e
ok a >>= next = next a

abbrev pub ◌>>◌ : {B : Type 0} → Loaded (Unit {0}) → Loaded B → Loaded B
first >> rest = first >>= λ _. rest

-- `return` of an error, if the test fails.
abbrev pub require : Bool → Failure → Loaded (Unit {0})
require test e = if test then ok tt else refused e

abbrev pub splits_as : Option (Bytes × Bytes) → Bool
splits_as none = false
splits_as (some _) = true

abbrev pub is_protocol : Bytes → Bool
is_protocol p = equal p (codes "tcp") || equal p (codes "udp")

-- `n > 0`
abbrev pub above_zero : ℤ → Bool
above_zero n = not (leb_ℤ n (pos 0))

-- `p, _ := strconv.Atoi(port)`: the value beside an error. It is 0 at a byte that is no digit, and
-- the nearest `int` as soon as the digits are out of range, for `ParseUint` stops where 64 bits do
-- not do.
unfoldable pub nearest : ℤ → ℕ → Bytes → ℤ
nearest bound n [] = bound
nearest bound n (c ∷ s) =
    let value = n * 10 + (c - b'0') in
    let rest = nearest bound value s in
    if ltb c b'0' || ltb b'9' c then pos 0 else if ltb value (2 ^ 64) then rest else bound

abbrev pub nearest_of : ℤ → Bytes → ℤ
nearest_of bound [] = pos 0
nearest_of bound (c ∷ s) = nearest bound 0 (c ∷ s)

abbrev pub beside_error : Bytes → ℤ
beside_error [] = pos 0
beside_error (c ∷ s) =
    if c == b'-'
    then nearest_of (negsuc (2 ^ 63 - 1)) s
    else if c == b'+'
    then nearest_of (pos (2 ^ 63 - 1)) s
    else nearest_of (pos (2 ^ 63 - 1)) (c ∷ s)

abbrev pub number_or : ℤ → Option ℤ → ℤ
number_or d none = d
number_or d (some n) = n

abbrev pub port_of : Option (Bytes × Bytes) → ℤ
port_of none = pos 0
port_of (some (host, port)) = number_or (beside_error port) (atoi port)

-- net.SplitHostPort, which gives host and port or an error.
module _ (split_host_port : Bytes → Option (Bytes × Bytes)) where
  abbrev pub splits : Bytes → Bool
  splits addr = splits_as (split_host_port addr)

  unfoldable pub validate : Config → Loaded (Unit {0})
  validate c = do
    require (splits c.server.listen) server_listen
    require (is_empty c.syslog.listen || splits c.syslog.listen) syslog_listen
    require (is_protocol c.forward.protocol) forward_protocol
    require (is_empty c.forward.address || splits c.forward.address) forward_address
    require (above_zero c.retention.days) retention_days
    require (above_zero c.retention.max_size_mb) retention_max_size_mb

  -- `EffectiveAdvertisePort`
  unfoldable pub effective_advertise_port : Config → ℤ
  effective_advertise_port c =
      if eq_ℤ c.server.advertise_port (pos 0)
      then port_of (split_host_port c.server.listen)
      else c.server.advertise_port

abbrev pub key_of : Number → Bytes
key_of advertise_port = codes "SERVER_ADVERTISE_PORT"
key_of days = codes "RETENTION_DAYS"
key_of max_size_mb = codes "RETENTION_MAX_SIZE_MB"

-- `*target = n`
abbrev pub assign : Number → ℤ → Config → Config
assign advertise_port n c = record c { server = record (c.server) { advertise_port = n } }
assign days n c = record c { retention = record (c.retention) { days = n } }
assign max_size_mb n c = record c { retention = record (c.retention) { max_size_mb = n } }

abbrev pub parsed : Number → Option ℤ → Config → Loaded Config
parsed t none c = refused (not_a_number t)
parsed t (some n) c = ok (assign t n c)

-- The variables of the environment, by what follows HANNAH_LOGCOLLECTOR_ in their names.
module _ (getenv : Bytes → Bytes) where
  abbrev pub env : Bytes → Bytes
  env key = getenv (codes "HANNAH_LOGCOLLECTOR_" ++ key)

  -- A variable that is set and not empty.
  abbrev pub override : Bytes → Bytes → Bytes
  override key old = if is_empty (env key) then old else env key

  -- The texts of `applyEnv`.
  unfoldable pub apply_texts : Config → Config
  apply_texts c = record c {
    hannah = record { address = override (codes "HANNAH_ADDRESS") c.hannah.address };
    server = record (c.server) {
      listen = override (codes "SERVER_LISTEN") c.server.listen;
      advertise_host = override (codes "SERVER_ADVERTISE_HOST") c.server.advertise_host;
      instance_name = override (codes "SERVER_INSTANCE") c.server.instance_name;
    };
    syslog = record { listen = override (codes "SYSLOG_LISTEN") c.syslog.listen };
    forward = record {
      address = override (codes "FORWARD_ADDRESS") c.forward.address;
      protocol = override (codes "FORWARD_PROTOCOL") c.forward.protocol;
    };
    db = record { path = override (codes "DB_PATH") c.db.path };
    log = record { level = override (codes "LOG_LEVEL") c.log.level };
  }

  -- One round of the loop over the map of numbers.
  abbrev pub apply_number : Number → Config → Loaded Config
  apply_number t c = if is_empty (env (key_of t)) then ok c else parsed t (atoi (env (key_of t))) c

  -- The loop, in the order in which the map happens to give its keys.
  unfoldable pub apply_numbers : List Number → Config → Loaded Config
  apply_numbers [] c = ok c
  apply_numbers (t ∷ rest) c = apply_number t c >>= apply_numbers rest

  unfoldable pub apply_env : List Number → Config → Loaded Config
  apply_env order c = apply_numbers order (apply_texts c)

abbrev pub all_numbers : List Number
all_numbers = advertise_port ∷ days ∷ max_size_mb ∷ []

abbrev pub or_refuse : {A : Type 0} → Failure → Option A → Loaded A
or_refuse e none = refused e
or_refuse e (some a) = ok a

module _ {File : Type 0} (read_file : Bytes → Option File)
    (unmarshal : File → Config → Option Config) (getenv : Bytes → Bytes)
    (split_host_port : Bytes → Option (Bytes × Bytes)) where
  -- The configuration after the file.
  abbrev pub from_file : Bytes → Loaded Config
  from_file [] = ok defaults
  from_file (c ∷ path) = do
    file ← or_refuse reading_file (read_file (c ∷ path))
    or_refuse parsing_file (unmarshal file defaults)

  -- `Load`
  unfoldable pub load : List Number → Bytes → Loaded Config
  load order path = do
    c ← from_file path
    c' ← apply_env getenv order c
    validate split_host_port c'
    ok c'
