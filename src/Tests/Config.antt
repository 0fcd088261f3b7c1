-- ===== src/Tests/Config.antt =====
-- The configuration on a sample file and environment.
use mathlib.Core.List.{Permᴰ}
use hannah_logcollector.Prelude.{
  ◌≡◌, ◌↔◌, refl, List, [], ◌∷◌, Option, none, some, pos, if◌then◌else◌,
}
use hannah_logcollector.Text.{Bytes, codes, equal, cut}
use hannah_logcollector.Text.Decimal.{atoi}
use hannah_logcollector.Config.{
  Config, Number, advertise_port, days, max_size_mb, ok, defaults, validate, from_file, load,
  apply_texts, apply_numbers, apply_env, all_numbers,
}
use hannah_logcollector.Config.Order.{settled, apply_numbers-perm}
use hannah_logcollector.Config.Valid.{IsValid, validate-IsValid_iff}
use hannah_logcollector.Config.Overrides.{Overrides, load-Overrides}

-- A file system with one file, whose only setting is the host to announce.
abbrev read_file : Bytes → Option Bytes
read_file path = if equal path (codes "a.yaml") then some (codes "hall") else none

abbrev unmarshal : Bytes → Config → Option Config
unmarshal text c = some (record c { server = record (c.server) { advertise_host = text } })

-- An environment that sets two variables.
abbrev getenv : Bytes → Bytes
getenv key =
    if equal key (codes "HANNAH_LOGCOLLECTOR_RETENTION_DAYS")
    then codes "30"
    else if equal key (codes "HANNAH_LOGCOLLECTOR_SYSLOG_LISTEN")
    then codes ":5514"
    else []

-- Host and port of an address without brackets.
abbrev split_host_port : Bytes → Option (Bytes × Bytes)
split_host_port addr = cut addr b':'

abbrev order : List Number
order = days ∷ advertise_port ∷ max_size_mb ∷ []

abbrev expected : Config
unfolding defaults
expected = record {
  hannah = defaults.hannah;
  server = record (defaults.server) { advertise_host = codes "hall" };
  syslog = record { listen = codes ":5514" };
  forward = defaults.forward;
  db = defaults.db;
  retention = record { days = pos 30; max_size_mb = pos 256 };
  log = defaults.log;
}

loaded : load read_file unmarshal getenv split_host_port order (codes "a.yaml") ≡ ok expected
unfolding load apply_env apply_texts apply_numbers validate atoi equal cut defaults expected
loaded = refl

load-Overrides_example :
    IsValid split_host_port expected
    × ((base : Config) × (from_file read_file unmarshal getenv split_host_port (codes "a.yaml")
          ≡ ok base)
        × Overrides getenv base expected)
load-Overrides_example =
    load-Overrides read_file unmarshal getenv split_host_port order (codes "a.yaml") expected
      (Permᴰ.swap refl refl) loaded

apply_numbers-perm_example :
    settled (apply_numbers getenv all_numbers defaults)
    ≡ settled (apply_numbers getenv order defaults)
apply_numbers-perm_example = apply_numbers-perm getenv defaults (Permᴰ.swap refl refl)

validate-IsValid_iff_example :
    (validate split_host_port expected ≡ ok tt) ↔ IsValid split_host_port expected
validate-IsValid_iff_example = validate-IsValid_iff split_host_port expected
