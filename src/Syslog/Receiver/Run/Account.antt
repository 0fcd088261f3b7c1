-- ===== src/Syslog/Receiver/Run/Account.antt =====
-- What becomes of everything that `Run` of internal/syslog/receiver.go reads.
use native.Mathlib.Nat.{mod-add-mod, mod-eq_of_lt, add-zero}
use hannah_logcollector.Prelude.{
  ℕ, suc, ◌+◌, ◌%◌, ◌^◌, ◌<◌, ◌≡◌, refl, sym, ap, ◌∙◌, inl, inr, List, [], ◌∷◌, Option, none, some,
  ℤ, arith,
}
use hannah_logcollector.Text.{Bytes}
use hannah_logcollector.Proto.{Proto}
use hannah_logcollector.Syslog.Parse.{Message}
use hannah_logcollector.Syslog.Receiver.{Sources, Receiver, Handled, listen, host_of}
use hannah_logcollector.Syslog.Receiver.Cache.{IsValid, listen-IsValid}
use hannah_logcollector.Syslog.Receiver.Run.{
  Read, broken, datagram, Ran, with_entry, handle_read, run, parsed, Receives, nothing, skipped,
  unread, entered, refused,
}
use hannah_logcollector.Syslog.Receiver.Run.Handles.{
  Met, Met-small, read-Handles, read-IsValid, run_keeps,
}

module _ {S : Type 0} (sources : Sources S) (p : Proto) (parse_time : Bytes → Option ℤ)
    (split_host_port : Bytes → Option Bytes) where
  -- The counter after `n` datagrams that are no message.
  record Reached (reads : List Read) (r : Receiver) (o : Ran S) : Type 0 where
    unreadable : ℕ
    receives : Receives sources p parse_time split_host_port o.sources reads o.entries unreadable
    counts : o.receiver.malformed ≡ (r.malformed + unreadable) % 2 ^ 64
    valid : IsValid sources o.sources o.receiver.ids

  -- A datagram in front of others.
  front :
      (addr : Bytes) (now : ℤ) (packet : Bytes) (rest : List Read) (r : Receiver) (h : Handled S)
      (o : Ran S) (m : Option Message)
      → parsed sources p parse_time split_host_port packet ≡ m
      → Met sources p parse_time split_host_port (host_of split_host_port addr) now m r h
      → ((c i : Bytes) (id : ℕ)
          → sources.Registered h.sources c i id
          → sources.Registered o.sources c i id)
      → Reached rest h.receiver o
      → Reached
          (datagram addr now packet ∷ rest)
          r
          (record o { entries = with_entry h.entry o.entries })
  front addr now packet rest r h o none e (lost, counted) keeps k = rw lost (record {
    unreadable = suc k.unreadable;
    receives = unread addr now packet e k.receives;
    counts = k.counts ∙ rw (counted, mod-add-mod) (ap (λ t. t % 2 ^ 64) (omega arith));
    valid = k.valid;
  })
  front addr now packet rest r h o (some msg) e (same, inl (lost, (t, failing))) keeps k =
      rw lost (record {
        unreadable = k.unreadable;
        receives = refused addr now packet msg t e failing k.receives;
        counts = k.counts ∙ rw same refl;
        valid = k.valid;
      })
  front addr now packet rest r h o (some msg) e (same, inr (id, given, named)) keeps k =
      rw given (record {
        unreadable = k.unreadable;
        receives = entered addr now packet msg id e (keeps _ _ id named) k.receives;
        counts = k.counts ∙ rw same refl;
        valid = k.valid;
      })

  run_lem :
      (reads : List Read) (r : Receiver) (s : S)
      → IsValid sources s r.ids
      → r.malformed < 2 ^ 64
      → Reached reads r (run sources p parse_time split_host_port reads r s)
  unfolding run
  run_lem [] r s v small = record {
    unreadable = 0;
    receives = nothing;
    counts = sym (rw add-zero (mod-eq_of_lt small));
    valid = v;
  }
  run_lem (broken ∷ rest) r s v small =
      let k = run_lem rest r s v small in
      record {
        unreadable = k.unreadable;
        receives = skipped k.receives;
        counts = k.counts;
        valid = k.valid;
      }
  run_lem (datagram addr now packet ∷ rest) r s v small =
      let h = handle_read sources p parse_time split_host_port addr now packet r s in
      let later = read-IsValid sources p parse_time split_host_port addr now packet r s v in
      let does = read-Handles sources p parse_time split_host_port addr now packet r s v in
      front addr now packet rest r h
        (run sources p parse_time split_host_port rest h.receiver h.sources)
        (parsed sources p parse_time split_host_port packet) refl does.met
        (λ c i id.
          run_keeps sources p parse_time split_host_port rest h.receiver h.sources c i id later)
        (run_lem rest h.receiver h.sources later (
          Met-small sources p parse_time split_host_port addr now
            (parsed sources p parse_time split_host_port packet) r h does.met small))

  -- A new receiver, whatever it reads: a read that fails does nothing; a datagram that is no
  -- message is counted, modulo 2^64, and does nothing else; each other datagram becomes one entry,
  -- in the order of their arrival, with an id that the sources have in the end for its component
  -- and instance, unless the sources refuse to register these at some time. The cache of ids stays
  -- valid, so within its bound. (Of a datagram, what fits into 65535 bytes counts.)
  pub run-Receives :
      (reads : List Read) (s : S)
      → let o = run sources p parse_time split_host_port reads listen s in
        (n : ℕ) × Receives sources p parse_time split_host_port o.sources reads o.entries n
        × (o.receiver.malformed ≡ n % 2 ^ 64)
        × IsValid sources o.sources o.receiver.ids
  unfolding listen
  run-Receives reads s =
      let k = run_lem reads listen s (listen-IsValid sources s) (omega arith) in
      (k.unreadable, k.receives, k.counts ∙ ap (λ t. t % 2 ^ 64) (omega arith), k.valid)
