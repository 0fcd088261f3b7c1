-- ===== src/Forward/Sender/Steps.antt =====
-- `Run` of internal/forward/forwarder.go, with the calls of `Offer` between.
use hannah_logcollector.Prelude.{ℕ, ◌≡◌, true, false, List}
use hannah_logcollector.Text.{Bytes}
use hannah_logcollector.Proto.{Proto}
use hannah_logcollector.Store.{Source, Entry}
use hannah_logcollector.Store.Sql.{Result}
use hannah_logcollector.Forward.Queue.{offer}
use hannah_logcollector.Forward.Encode.{Settings}
use hannah_logcollector.Forward.Sender.{
  Network, Sender, taking, sending, take_payload, dial_failed, dialled, send_payload,
}

module _ {S : Type 0} (net : Network) (all_sources : S → Result (List Source) × S) (p : Proto)
    (f : Settings) where
  pub data Step (w : Sender S) : Sender S → Type 0 where
    offering : (e : Entry) → Step w (record w { ring = offer w.ring e })
    takes : (since now : ℕ) → w.phase ≡ taking → Step w (take_payload all_sources p f since now w)
    dial_fails :
        (since now : ℕ) (lines : List Bytes)
        → w.phase ≡ sending lines
        → w.connected ≡ false
        → Step w (dial_failed since now w)
    dials :
        (lines : List Bytes) → w.phase ≡ sending lines → w.connected ≡ false → Step w (dialled w)
    sends :
        (since now : ℕ) (lines : List Bytes)
        → w.phase ≡ sending lines
        → w.connected ≡ true
        → Step w (send_payload net f since now lines w)

  pub data Reach (w : Sender S) : Sender S → Type 0 where
    here : Reach w w
    next : {u v : Sender S} → Reach w u → Step u v → Reach w v
