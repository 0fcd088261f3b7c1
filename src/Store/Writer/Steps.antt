-- ===== src/Store/Writer/Steps.antt =====
-- What can happen to a running writer: calls from any goroutine, and the cases of its `select`.
use hannah_logcollector.Prelude.{◌<◌, ◌≡◌, List, ◌∷◌, length}
use hannah_logcollector.Store.{Entry}
use hannah_logcollector.Store.Sql.{Engine}
use hannah_logcollector.Store.Writer.{Request, Writer, add, send_sync, flush, handle_request}

pub data Step (g : Engine) (w : Writer) : Writer → Type 0 where
  adding : (e : Entry) → length w.requests < w.batch_size → Step g w (add e w)
  syncing : length w.requests < w.batch_size → Step g w (send_sync w)
  receiving :
      (req : Request) (rest : List Request)
      → w.requests ≡ req ∷ rest
      → Step g w (handle_request g req (record w { requests = rest }))
  ticking : Step g w (flush g w).1

pub data Reach (g : Engine) (w : Writer) : Writer → Type 0 where
  here : Reach g w w
  next : {u v : Writer} → Reach g w u → Step g u v → Reach g w v
