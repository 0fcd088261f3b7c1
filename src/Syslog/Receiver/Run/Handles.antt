-- ===== src/Syslog/Receiver/Run/Handles.antt =====
-- What a datagram does to the receiver and to the sources.
use hannah_logcollector.Prelude.{
  ℕ, ◌+◌, ◌%◌, ◌^◌, ◌<◌, ◌≡◌, refl, sym, ap, ◌∙◌, ◌⊎◌, inl, inr, List, [], ◌∷◌, Option, none, some,
  ℤ, take, arith,
}
use hannah_logcollector.Text.{Bytes}
use hannah_logcollector.Proto.{Proto}
use hannah_logcollector.Store.Sql.{Result, ok, failed}
use hannah_logcollector.Syslog.Parse.{Message}
use hannah_logcollector.Syslog.Receiver.{
  Sources, Receiver, Handled, learn, known_or_new, source_id, entry_for, hand_over, component_of,
  instance_of, handle_message, handle, host_of, cached,
}
use hannah_logcollector.Syslog.Receiver.Cache.{IsValid}
use hannah_logcollector.Syslog.Receiver.Handle.{Received, handle-Received}
use hannah_logcollector.Syslog.Receiver.Run.{
  max_datagram, Read, broken, datagram, handle_read, run, parsed,
}

module _ {S : Type 0} (sources : Sources S) (p : Proto) (parse_time : Bytes → Option ℤ)
    (split_host_port : Bytes → Option Bytes) where
  learn_same :
      (c i : Bytes) (r : Receiver) (result : Result ℕ) (s : S)
      → ((learn sources c i r result s).2 ≡ s)
        × ((learn sources c i r result s).0 ≡ result)
        × ((learn sources c i r result s).1.malformed ≡ r.malformed)
  learn_same c i r failed s = (refl, refl, refl)
  learn_same c i r (ok id) s = (refl, refl, refl)

  -- `sourceID` counts nothing, takes no id away, and fails only with the registration.
  record Asked (c i : Bytes) (r : Receiver) (s : S) (found : Result ℕ × Receiver × S) : Type 0 where
    counts : found.1.malformed ≡ r.malformed
    keeps :
        (c' i' : Bytes) (id : ℕ)
        → sources.Registered s c' i' id
        → sources.Registered found.2 c' i' id
    fails : found.0 ≡ failed → (sources.upsert_source c i [] s).0 ≡ failed

  source_id-Asked : (c i : Bytes) (r : Receiver) (s : S) → Asked c i r s (source_id sources c i r s)
  unfolding source_id
  source_id-Asked c i r s = ask (cached c i r.ids)
    where
      ask : (found : Option ℕ) → Asked c i r s (known_or_new sources found c i r s)
      ask (some id) = record { counts = refl; keeps = λ _ _ _ h. h; fails = λ h. ground arith }
      ask none =
          let (result, s') = sources.upsert_source c i [] s in
          let (same, answer, counts) = learn_same c i r result s' in
          record {
            counts = counts;
            keeps = λ c' i' id h. rw same (sources.upsert_source-keeps c i [] c' i' s id h);
            fails = λ h. sym answer ∙ h;
          }

  -- What a datagram leaves.
  abbrev pub Met : Bytes → ℤ → Option Message → Receiver → Handled S → Type 0
  Met host now none r h = (h.entry ≡ none) × (h.receiver.malformed ≡ (r.malformed + 1) % 2 ^ 64)
  Met host now (some msg) r h =
      (h.receiver.malformed ≡ r.malformed)
      × (((h.entry ≡ none)
            × ((t : S) × ((sources.upsert_source (component_of sources p msg)
                    (instance_of sources p host msg) [] t).0
                  ≡ failed)))
          ⊎ ((id : ℕ) × (h.entry ≡ some (entry_for sources p now msg id))
              × sources.Registered h.sources (component_of sources p msg)
                  (instance_of sources p host msg) id))

  pub record Handles (host : Bytes) (now : ℤ) (m : Option Message) (r : Receiver) (s : S)
      (h : Handled S) : Type 0 where
    pub met : Met host now m r h
    pub keeps :
        (c i : Bytes) (id : ℕ) → sources.Registered s c i id → sources.Registered h.sources c i id

  hand_over_same :
      (now : ℤ) (msg : Message) (found : Result ℕ × Receiver × S)
      → ((hand_over sources p now msg found).receiver ≡ found.1)
        × ((hand_over sources p now msg found).sources ≡ found.2)
  hand_over_same now msg (failed, r, s) = (refl, refl)
  hand_over_same now msg (ok id, r, s) = (refl, refl)

  message-Handles :
      (host : Bytes) (now : ℤ) (m : Option Message) (r : Receiver) (s : S)
      → Received sources p host now r s m (handle_message sources p host now m r s)
      → Handles host now m r s (handle_message sources p host now m r s)
  message-Handles host now none r s (none_out, counted, same) = record {
    met = (none_out, ap (λ (t : Receiver). t.malformed) counted);
    keeps = λ c i id h. h;
  }
  message-Handles host now (some msg) r s how =
      let c = component_of sources p msg in
      let i = instance_of sources p host msg in
      let found = source_id sources c i r s in
      let asked = source_id-Asked c i r s in
      let (receiver, behind) = hand_over_same now msg found in
      record {
        met = (
          ap (λ (t : Receiver). t.malformed) receiver ∙ asked.counts,
          elim how [
            | inl (lost, e) ↦ inl (lost, (s, asked.fails e))
            | inr entered_as ↦ inr entered_as
          ],
        );
        keeps = λ c' i' id h. rw behind (asked.keeps c' i' id h);
      }

  pub read-Handles :
      (addr : Bytes) (now : ℤ) (packet : Bytes) (r : Receiver) (s : S)
      → IsValid sources s r.ids
      → Handles
          (host_of split_host_port addr)
          now
          (parsed sources p parse_time split_host_port packet)
          r
          s
          (handle_read sources p parse_time split_host_port addr now packet r s)
  unfolding handle
  read-Handles addr now packet r s v =
      message-Handles (host_of split_host_port addr) now
        (parsed sources p parse_time split_host_port packet) r s
        (handle-Received sources p parse_time split_host_port addr now (take max_datagram packet) r
          s v).0

  pub read-IsValid :
      (addr : Bytes) (now : ℤ) (packet : Bytes) (r : Receiver) (s : S)
      → IsValid sources s r.ids
      → let h = handle_read sources p parse_time split_host_port addr now packet r s in
        IsValid sources h.sources h.receiver.ids
  read-IsValid addr now packet r s v =
      (handle-Received sources p parse_time split_host_port addr now (take max_datagram packet) r s
        v).1

  pub run_keeps :
      (reads : List Read) (r : Receiver) (s : S) (c i : Bytes) (id : ℕ)
      → IsValid sources s r.ids
      → sources.Registered s c i id
      → sources.Registered (run sources p parse_time split_host_port reads r s).sources c i id
  unfolding run
  run_keeps [] r s c i id v h = h
  run_keeps (broken ∷ rest) r s c i id v h = run_keeps rest r s c i id v h
  run_keeps (datagram addr now packet ∷ rest) r s c i id v h =
      let out = handle_read sources p parse_time split_host_port addr now packet r s in
      run_keeps rest out.receiver out.sources c i id (read-IsValid addr now packet r s v)
        ((read-Handles addr now packet r s v).keeps c i id h)

  pub Met-small :
      (addr : Bytes) (now : ℤ) (m : Option Message) (r : Receiver) (h : Handled S)
      → Met (host_of split_host_port addr) now m r h
      → r.malformed < 2 ^ 64
      → h.receiver.malformed < 2 ^ 64
  Met-small addr now none r h (lost, counted) small = omega arith
  Met-small addr now (some msg) r h (same, how) small = omega arith
