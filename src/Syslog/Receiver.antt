-- ===== src/Syslog/Receiver.antt =====
-- internal/syslog/receiver.go: from a datagram to an entry of the writer. The socket and its loop
-- are not modelled; the time and the sender's address are arguments.
pub mod Cache
pub mod Levels
pub mod Handle
pub mod Registry
pub mod Run
use mathlib.Core.Option
use hannah_logcollector.Prelude.{
  ℕ, ◌+◌, ◌%◌, ◌^◌, Bool, not, ◌&&◌, List, [], ◌∷◌, Option, none, some, ◌==◌, leb, if◌then◌else◌, ℤ,
  eq_ℤ, length, keep_if, ◌≡◌,
}
use hannah_logcollector.Text.{Bytes, codes, equal, is_empty}
use hannah_logcollector.Proto.{Proto}
use hannah_logcollector.Time.{unix_milli}
use hannah_logcollector.Store.{Entry}
use hannah_logcollector.Store.Sql.{Result, ok, failed}
use hannah_logcollector.Syslog.Parse.{Message, parse, zero_time}

abbrev pub max_sources : ℕ
max_sources = 1024

abbrev pub fallback_component : Bytes
fallback_component = codes "syslog"

-- The interface `Sources`, on a state `S` of whoever implements it. An id that it returns stands for
-- (component, instance), and later calls do not take it away.
pub record Sources (S : Type 0) : Type 1 where
  pub upsert_source : Bytes → Bytes → Bytes → S → Result ℕ × S
  pub Registered : S → Bytes → Bytes → ℕ → Type 0
  pub upsert_source-registers :
      (c i v : Bytes) (s : S) (id : ℕ)
      → (upsert_source c i v s).0 ≡ ok id
      → Registered (upsert_source c i v s).1 c i id
  pub upsert_source-keeps :
      (c i v c' i' : Bytes) (s : S) (id : ℕ)
      → Registered s c' i' id
      → Registered (upsert_source c i v s).1 c' i' id

-- `sourceKey` with its id in the map
pub record Known : Type 0 where
  pub component : Bytes
  pub instance_name : Bytes
  pub id : ℕ

-- `Receiver`; the map `ids` is a list with one item for each key.
pub record Receiver : Type 0 where
  pub ids : List Known
  pub malformed : ℕ

-- `Listen`
unfoldable pub listen : Receiver
listen = record { ids = []; malformed = 0 }

abbrev pub has_key : Bytes → Bytes → Known → Bool
has_key c i k = equal k.component c && equal k.instance_name i

-- `r.ids[key]`
unfoldable pub cached : Bytes → Bytes → List Known → Option ℕ
cached c i [] = none
cached c i (k ∷ ids) = if has_key c i k then some k.id else cached c i ids

-- `r.ids[key] = id`
abbrev pub remember : Bytes → Bytes → ℕ → List Known → List Known
remember c i id ids =
    record { component = c; instance_name = i; id = id } ∷ keep_if (λ k. not (has_key c i k)) ids

-- `clear` for a map that is full
abbrev pub make_space : List Known → List Known
make_space ids = if leb max_sources (length ids) then [] else ids

-- `levelFor`
unfoldable pub level_for : Proto → ℕ → ℤ
level_for p severity =
    if leb severity 2
    then p.level_critical
    else if severity == 3
    then p.level_error
    else if severity == 4
    then p.level_warning
    else if leb severity 6
    then p.level_info
    else p.level_debug

-- `hostOf`; net.SplitHostPort is an argument, which gives the host.
abbrev pub host_of : (Bytes → Option Bytes) → Bytes → Bytes
host_of split_host_port addr = elim (split_host_port addr) [ none ↦ addr | some host ↦ host ]

-- The two tests `component == ""` and `instance == ""`.
abbrev pub or_else : Bytes → Bytes → Bytes
or_else s other = if is_empty s then other else s

-- What `handle` does: the entry it hands to the sink, the receiver and the sources behind it.
pub record Handled (S : Type 0) : Type 0 where
  pub entry : Option Entry
  pub receiver : Receiver
  pub sources : S

module _ {S : Type 0} (sources : Sources S) where
  -- `sourceID` once the source is registered, or is not.
  abbrev pub learn : Bytes → Bytes → Receiver → Result ℕ → S → Result ℕ × Receiver × S
  learn c i r failed s = (failed, r, s)
  learn c i r (ok id) s = (ok id, record r { ids = remember c i id (make_space r.ids) }, s)

  -- `sourceID` with what the cache has.
  abbrev pub known_or_new : Option ℕ → Bytes → Bytes → Receiver → S → Result ℕ × Receiver × S
  known_or_new (some id) c i r s = (ok id, r, s)
  known_or_new none c i r s =
      let (result, s') = sources.upsert_source c i [] s in learn c i r result s'

  -- `sourceID`
  unfoldable pub source_id : Bytes → Bytes → Receiver → S → Result ℕ × Receiver × S
  source_id c i r s = known_or_new (cached c i r.ids) c i r s

  module _ (p : Proto) where
    -- The entry of a message.
    abbrev pub entry_for : ℤ → Message → ℕ → Entry
    entry_for now msg id = record {
      source_id = id;
      timestamp_ms = unix_milli (if eq_ℤ msg.time zero_time then now else msg.time);
      level = level_for p msg.severity;
      logger = [];
      message = msg.text;
      category = p.category_general;
    }

    -- `handle` once the source has its id, or has none.
    abbrev pub hand_over : ℤ → Message → Result ℕ × Receiver × S → Handled S
    hand_over now msg (failed, r, s) = record { entry = none; receiver = r; sources = s }
    hand_over now msg (ok id, r, s) = record {
      entry = some (entry_for now msg id);
      receiver = r;
      sources = s;
    }

    -- The component and the instance that a message counts for, from a sender at `host`.
    abbrev pub component_of : Message → Bytes
    component_of msg = or_else msg.app_name fallback_component

    abbrev pub instance_of : Bytes → Message → Bytes
    instance_of host msg = or_else msg.hostname host

    -- `handle` from the error check of `Parse` on.
    abbrev pub handle_message : Bytes → ℤ → Option Message → Receiver → S → Handled S
    handle_message host now none r s = record {
      entry = none;
      receiver = record r { malformed = (r.malformed + 1) % 2 ^ 64 };
      sources = s;
    }
    handle_message host now (some msg) r s =
        hand_over now msg (source_id (component_of msg) (instance_of host msg) r s)

    -- `handle`
    unfoldable pub handle :
        (Bytes → Option ℤ) → (Bytes → Option Bytes) → Bytes → ℤ → Bytes → Receiver → S → Handled S
    handle parse_time split_host_port addr now packet r s =
        handle_message (host_of split_host_port addr) now (parse parse_time packet) r s
