-- ===== src/Tests/Syslog.antt =====
-- The receiver on sample datagrams.
use hannah_logcollector.Prelude.{
  ℕ, List, ◌∷◌, ◌%◌, ◌^◌, if◌then◌else◌, [], ◌≡◌, refl, Option, some, none, ℤ, pos, div_ℤ, mod_ℤ,
  arith, ◌*◌, ◌+◌,
}
use hannah_logcollector.Text.{
  Bytes, codes, equal, cut, index_byte, has_prefix, trim_prefix, trim_breaks,
}
use hannah_logcollector.Text.Decimal.{atoi, itoa}
use hannah_logcollector.Time.{format_ms, print_year, date_of}
use hannah_logcollector.Forward.Format.{format, name_field, text, severity}
use hannah_logcollector.Syslog.Parse.{
  parse, priority, fields, skip_structured_data, message_time, nil_value, byte_order_mark,
}
use hannah_logcollector.Syslog.Parse.RoundTrip.{parse-format}
use hannah_logcollector.Store.Sql.{State}
use hannah_logcollector.Syslog.Receiver.{Handled, listen, handle, host_of}
use hannah_logcollector.Syslog.Receiver.Cache.{IsValid, listen-IsValid}
use hannah_logcollector.Syslog.Receiver.Handle.{
  Received, ReadsTime, Arrives, handle-Received, handle-format,
}
use hannah_logcollector.Syslog.Receiver.Run.{broken, datagram, Read, run, Receives}
use hannah_logcollector.Syslog.Receiver.Run.Account.{run-Receives}
use hannah_logcollector.Syslog.Receiver.Registry.{store_sources}
use hannah_logcollector.Tests.Store.{engine, start}
use hannah_logcollector.Tests.Samples.{proto, satellite, warning}

abbrev no_time : Bytes → Option ℤ
no_time s = none

parse-format_example :
    parse no_time (format proto warning satellite (codes "Test01"))
    ≡ some (record {
      severity = severity proto (pos 3);
      time = message_time no_time (format_ms (pos 1_709_210_096_789));
      hostname = nil_value (name_field (codes "esp 1") 255);
      app_name = nil_value (name_field (codes "hannah-esp") 48);
      text = trim_breaks (trim_prefix (text (codes "low battery\n")) byte_order_mark);
    })
parse-format_example = parse-format no_time proto warning satellite (codes "Test01")

-- A sign is accepted in front of the priority, which RFC 5424 does not allow.
signed_priority :
    parse no_time (codes "<+14>1 - host app - - - hello\r\n")
    ≡ some (record {
      severity = 6;
      time = pos 0;
      hostname = codes "host";
      app_name = codes "app";
      text = codes "hello";
    })
unfolding parse priority fields skip_structured_data atoi index_byte has_prefix cut equal nil_value
    message_time trim_prefix trim_breaks
signed_priority = refl

abbrev no_port : Bytes → Option Bytes
no_port addr = none

abbrev arrived : Bytes → Handled State
arrived packet =
    handle (store_sources engine) proto no_time no_port (codes "10.0.0.7") (pos 1_000_000) packet
      listen start

handle-Received_example :
    Received
      (store_sources engine)
      proto
      (host_of no_port (codes "10.0.0.7"))
      (pos 1_000_000)
      listen
      start
      (parse no_time (codes "<14>1 - host app - - - hello"))
      (arrived (codes "<14>1 - host app - - - hello"))
    × IsValid
        (store_sources engine)
        (arrived (codes "<14>1 - host app - - - hello")).sources
        (arrived (codes "<14>1 - host app - - - hello")).receiver.ids
handle-Received_example =
    handle-Received (store_sources engine) proto no_time no_port (codes "10.0.0.7") (pos 1_000_000)
      (codes "<14>1 - host app - - - hello") listen start
      (listen-IsValid (store_sources engine) start)

-- A time that `time.Parse` reads.
abbrev sample_time : Bytes → Option ℤ
sample_time s =
    if equal s (codes "2024-02-29T12:34:56.789Z")
    then some (pos (63_844_806_896 * 1_000_000_000 + 789_000_000))
    else none

abbrev forwarded : Handled State
forwarded =
    handle (store_sources engine) proto sample_time no_port (codes "10.0.0.7") (pos 1_000_000)
      (format proto warning satellite (codes "Test01")) listen start

sample_time-ReadsTime : ReadsTime (store_sources engine) proto sample_time no_port warning
unfolding format_ms print_year date_of div_ℤ mod_ℤ itoa equal
sample_time-ReadsTime = refl

handle-format_example :
    Arrives
      (store_sources engine)
      proto
      sample_time
      no_port
      (pos 1_709_210_096_789)
      (codes "10.0.0.7")
      warning
      satellite
      listen
      start
      forwarded
handle-format_example =
    handle-format (store_sources engine) proto sample_time no_port (codes "10.0.0.7")
      (pos 1_000_000) warning satellite (codes "Test01") listen start
      (listen-IsValid (store_sources engine) start) (omega arith) sample_time-ReadsTime

abbrev reads : List Read
reads =
    datagram (codes "10.0.0.7") (pos 1_000_000) (codes "<14>1 - host app - - - hello")
    ∷ broken
    ∷ datagram (codes "10.0.0.8") (pos 2_000_000) (codes "hello")
    ∷ []

run-Receives_example :
    let o = run (store_sources engine) proto no_time no_port reads listen start in
    (n : ℕ) × Receives (store_sources engine) proto no_time no_port o.sources reads o.entries n
    × (o.receiver.malformed ≡ n % 2 ^ 64)
    × IsValid (store_sources engine) o.sources o.receiver.ids
run-Receives_example = run-Receives (store_sources engine) proto no_time no_port reads start
