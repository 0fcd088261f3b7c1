-- ===== src/Syslog/Receiver/Handle.antt =====
-- What `handle` of internal/syslog/receiver.go makes of a datagram.
use mathlib.Core.Path.{subst}
use hannah_logcollector.Prelude.{
  ℕ, ◌+◌, ◌%◌, ◌^◌, ◌≡◌, refl, sym, ap, ◌⊎◌, inl, inr, [], Option, none, some, if◌then◌else◌, ℤ,
  eq_ℤ, neg_part, ◌<◌,
}
use hannah_logcollector.Text.{Bytes, trim_prefix, trim_breaks}
use hannah_logcollector.Proto.{Proto}
use hannah_logcollector.Time.{
  format_ms, unix_milli, instant, epoch_ms, unix_milli-instant, instant_later, format_ms_long,
}
use hannah_logcollector.Text.Laws.{equal_long}
use hannah_logcollector.Store.{Source, Entry}
use hannah_logcollector.Store.Sql.{Result, ok, failed}
use hannah_logcollector.Forward.Format.{
  format, severity, name_field, text, max_hostname, max_app_name,
}
use hannah_logcollector.Syslog.Parse.{
  Message, parse, nil_value, message_time, byte_order_mark, zero_time,
}
use hannah_logcollector.Syslog.Parse.RoundTrip.{parse-format}
use hannah_logcollector.Syslog.Receiver.{
  Sources, Receiver, Handled, source_id, entry_for, hand_over, component_of, instance_of,
  handle_message, handle, or_else, fallback_component, host_of,
}
use hannah_logcollector.Syslog.Receiver.Cache.{IsValid, Leaves, source_id-Leaves}
use hannah_logcollector.Syslog.Receiver.Levels.{is_level, level_for-severity}

module _ {S : Type 0} (sources : Sources S) (p : Proto) where
  -- What becomes of a datagram that was read as a message, or was not.
  abbrev pub Received : Bytes → ℤ → Receiver → S → Option Message → Handled S → Type 0
  Received host now r s none h =
      (h.entry ≡ none)
      × (h.receiver ≡ record r { malformed = (r.malformed + 1) % 2 ^ 64 })
      × (h.sources ≡ s)
  Received host now r s (some msg) h =
      ((h.entry ≡ none)
        × ((source_id sources (component_of sources p msg) (instance_of sources p host msg) r s).0
            ≡ failed))
      ⊎ ((id : ℕ) × (h.entry ≡ some (entry_for sources p now msg id))
          × sources.Registered h.sources (component_of sources p msg)
              (instance_of sources p host msg) id)

  hand_over-Received :
      (host : Bytes) (now : ℤ) (msg : Message) (r : Receiver) (s : S)
      (found : Result ℕ × Receiver × S)
      → source_id sources (component_of sources p msg) (instance_of sources p host msg) r s ≡ found
      → Leaves sources (component_of sources p msg) (instance_of sources p host msg) found
      → Received host now r s (some msg) (hand_over sources p now msg found)
        × IsValid sources
            (hand_over sources p now msg found).sources
            (hand_over sources p now msg found).receiver.ids
  hand_over-Received host now msg r s (ok id, r', s') e (named, valid) =
      (inr (id, refl, named), valid)
  hand_over-Received host now msg r s (failed, r', s') e valid =
      (inl (refl, ap (λ f. f.0) e), valid)

  handle_message-Received :
      (host : Bytes) (now : ℤ) (msg : Option Message) (r : Receiver) (s : S)
      → IsValid sources s r.ids
      → let h = handle_message sources p host now msg r s in
        Received host now r s msg h × IsValid sources h.sources h.receiver.ids
  handle_message-Received host now none r s v = ((refl, refl, refl), v)
  handle_message-Received host now (some msg) r s v =
      hand_over-Received host now msg r s _ refl (
        source_id-Leaves sources (component_of sources p msg) (instance_of sources p host msg) r s
          v)

  module _ (parse_time : Bytes → Option ℤ) (split_host_port : Bytes → Option Bytes) where
    -- If the cache of ids is valid (a map within its bound, every id in it standing for its
    -- key), it is valid after a datagram. A datagram that is no message is counted and
    -- changes nothing else. A message becomes one entry, with its text, its level, and its
    -- time or the time of arrival, under an id that the sources have for its app name (or
    -- "syslog") and its hostname (or the sender's address); or no entry, only if the sources
    -- refuse to register these.
    pub handle-Received :
        (addr : Bytes) (now : ℤ) (packet : Bytes) (r : Receiver) (s : S)
        → IsValid sources s r.ids
        → let h = handle sources p parse_time split_host_port addr now packet r s in
          Received (host_of split_host_port addr) now r s (parse parse_time packet) h
          × IsValid sources h.sources h.receiver.ids
    unfolding handle
    handle-Received addr now packet r s v =
        handle_message-Received (host_of split_host_port addr) now (parse parse_time packet) r s v

    -- The message that a forwarded entry is read as.
    abbrev forwarded : Entry → Source → Message
    forwarded e src = record {
      severity = severity p e.level;
      time = message_time parse_time (format_ms e.timestamp_ms);
      hostname = nil_value (name_field src.instance_name max_hostname);
      app_name = nil_value (name_field src.component max_app_name);
      text = trim_breaks (trim_prefix (text e.message) byte_order_mark);
    }

    -- The time that the receiver gives a forwarded entry.
    abbrev arrival : ℤ → Entry → ℤ
    arrival now e =
        let t = message_time parse_time (format_ms e.timestamp_ms) in
        unix_milli (if eq_ℤ t zero_time then now else t)

    -- `time.Parse` reads the print of an entry's time as that time.
    abbrev pub ReadsTime : Entry → Type 0
    ReadsTime e = parse_time (format_ms e.timestamp_ms) ≡ some (instant e.timestamp_ms)

    arrival_lem :
        (now : ℤ) (e : Entry)
        → neg_part e.timestamp_ms < epoch_ms
        → ReadsTime e
        → arrival now e ≡ e.timestamp_ms
    unfolding message_time
    arrival_lem now e late reads =
        rw
          (
            equal_long (format_ms e.timestamp_ms) b'-' (format_ms_long e.timestamp_ms),
            reads,
            instant_later e.timestamp_ms late,
          )
          (unix_milli-instant e.timestamp_ms late)

    -- The names that it counts for.
    abbrev pub component_read : Source → Bytes
    component_read src =
        or_else (nil_value (name_field src.component max_app_name)) fallback_component

    abbrev pub instance_read : Bytes → Source → Bytes
    instance_read addr src =
        or_else (nil_value (name_field src.instance_name max_hostname))
          (host_of split_host_port addr)

    -- What becomes of a forwarded entry with the timestamp that it is given.
    abbrev pub Arrives : ℤ → Bytes → Entry → Source → Receiver → S → Handled S → Type 0
    Arrives timestamp_ms addr e src r s h =
        ((h.entry ≡ none)
          × ((source_id sources (component_read src) (instance_read addr src) r s).0 ≡ failed))
        ⊎ ((id : ℕ) × (h.entry
              ≡ some (record {
                source_id = id;
                timestamp_ms = timestamp_ms;
                level = if is_level p e.level then e.level else p.level_info;
                logger = [];
                message = trim_breaks (trim_prefix (text e.message) byte_order_mark);
                category = p.category_general;
              }))
            × sources.Registered h.sources (component_read src) (instance_read addr src) id)

    arrives :
        (addr : Bytes) (now : ℤ) (e : Entry) (src : Source) (name : Bytes) (r : Receiver) (s : S)
        → IsValid sources s r.ids
        → Arrives
            (arrival now e)
            addr
            e
            src
            r
            s
            (handle sources p parse_time split_host_port addr now (format p e src name) r s)
    unfolding handle
    arrives addr now e src name r s v =
        rw (parse-format parse_time p e src name, sym (level_for-severity p e.level))
          (handle_message-Received (host_of split_host_port addr) now (some (forwarded e src)) r s
            v).0

    -- An entry from after the zero time (1 January of year 1) whose printed timestamp
    -- `time.Parse` reads as the instant of the entry, forwarded to a collector whose cache of ids
    -- is valid, arrives there as an entry with the timestamp it had to the millisecond, the level
    -- it had (info, if it had no level of the API), the text as it was formatted (without a byte
    -- order mark in front), and an id that stands for its component and instance as they were
    -- printed, that is cut to the length of their fields, with other bytes for those that are not
    -- printable, and the receiver's fallback for one that is printed as "-". It only gets lost if
    -- the sources refuse to register these.
    pub handle-format :
        (addr : Bytes) (now : ℤ) (e : Entry) (src : Source) (name : Bytes) (r : Receiver) (s : S)
        → IsValid sources s r.ids
        → neg_part e.timestamp_ms < epoch_ms
        → ReadsTime e
        → Arrives e.timestamp_ms addr e src r s
            (handle sources p parse_time split_host_port addr now (format p e src name) r s)
    handle-format addr now e src name r s v late reads =
        subst
          (λ ms.
            Arrives ms addr e src r s
              (handle sources p parse_time split_host_port addr now (format p e src name) r s))
          (arrival_lem now e late reads) (arrives addr now e src name r s v)
