-- ===== src/Server/Ship/Steps.antt =====
-- A call of `Ship` beside the writer and whatever else runs: other calls add entries and wait for
-- `Sync`, and statements on the other tables come between. The retention does not run.
use hannah_logcollector.Prelude.{ℕ, ◌<◌, ◌≡◌, List, ◌∷◌, ◌++◌, length}
use hannah_logcollector.Store.Sql.{Engine, State, Result}
use hannah_logcollector.Store.Writer.{Writer, Answer}
use hannah_logcollector.Store.Writer.Steps
use hannah_logcollector.Store.Writer.Stored.{table}
use hannah_logcollector.Server.Ship.{
  Received, message, end_of_stream, entry, Phase, shipping, syncing, Call, receive, answered,
  cancel,
}

-- `Add` and `Sync` wait until the queue has room; what calls neither does not wait.
abbrev pub HasRoomFor : Received → Writer → Type 0
HasRoomFor end_of_stream w = length w.requests < w.batch_size
HasRoomFor (message (entry _)) w = length w.requests < w.batch_size
HasRoomFor _ w = Unit

abbrev pub MayGoOn : Phase → Received → Writer → Type 0
MayGoOn (shipping _ _) r w = HasRoomFor r w
MayGoOn _ r w = Unit

-- An answer of the writer counts for the call if it
-- has the call's position; two calls of `Sync` at one position may get either's answer.
pub data Step (g : Engine) (c : Call) (w : Writer) : Call → Writer → Type 0 where
  receives :
      (r : Received) → MayGoOn c.phase r w → Step g c w (receive g r c w).0 (receive g r c w).1
  gets_answer :
      (before accepted : ℕ) (result : Result (Unit {0})) (earlier later : List Answer)
      → c.phase ≡ syncing before accepted
      → w.answers ≡ earlier ++ record { before = before; result = result } ∷ later
      → Step g c w (answered accepted result c) w
  cancels : Step g c w (cancel c) w
  writes : (v : Writer) → Steps.Step g w v → Step g c w c v
  elsewhere : (s : State) → table s ≡ table w.store → Step g c w c (record w { store = s })

pub data Reach (g : Engine) (c : Call) (w : Writer) : Call → Writer → Type 0 where
  here : Reach g c w c w
  next : {d e : Call} {v u : Writer} → Reach g c w d v → Step g d v e u → Reach g c w e u
