-- ===== src/Forward/Queue.antt =====
-- The bounded queue of internal/forward/forwarder.go: a ring that drops its oldest entry when it is
-- full. Each function is a critical section under the forwarder's mutex, so calls from several
-- goroutines are a sequence of calls. The clock counts nanoseconds since Go's zero time.
pub mod Inv
pub mod Refine
pub mod History
use hannah_logcollector.Prelude.{
  ℕ, zero, suc, ◌+◌, ◌-◌, ◌*◌, ◌%◌, ◌^◌, min, Bool, true, false, ◌||◌, List, [], ◌∷◌, Option, none,
  some, ◌==◌, ltb, if◌then◌else◌, length, get_or, set, replicate, ℤ, pos,
}
use hannah_logcollector.Store.{Entry}

-- The fields of `Forwarder` under `mu`; `notify` says whether its channel holds a token.
pub record Ring : Type 0 where
  pub ring : List Entry
  pub head : ℕ
  pub n : ℕ
  pub dropped : ℕ
  pub notify : Bool
  pub last_drop : ℕ

abbrev pub default_queue_size : ℕ
default_queue_size = 10000

abbrev pub drop_log_period : ℕ
drop_log_period = 60 * 1_000_000_000

-- `cfg.QueueSize` after `New` has put the default in
unfoldable pub queue_size : ℤ → ℕ
queue_size (pos (suc n)) = suc n
queue_size _ = default_queue_size

-- The zero value of `store.Entry`, which `make` fills the ring with.
abbrev pub zero_entry : Entry
zero_entry = record {
  source_id = 0;
  timestamp_ms = pos 0;
  level = pos 0;
  logger = [];
  message = [];
  category = pos 0;
}

unfoldable pub new : ℤ → Ring
unfolding queue_size
new size = record {
  ring = replicate (queue_size size) zero_entry;
  head = 0;
  n = 0;
  dropped = 0;
  notify = false;
  last_drop = 0;
}

-- The `if` of `Offer`: a full ring lets its oldest entry go. `dropped` is a uint64.
abbrev pub make_room : Ring → Ring
make_room f =
    if f.n == length f.ring
    then record f {
      head = (f.head + 1) % length f.ring;
      n = f.n - 1;
      dropped = (f.dropped + 1) % 2 ^ 64;
    }
    else f

abbrev pub put : Ring → Entry → Ring
put f e = record f {
  ring = set f.ring ((f.head + f.n) % length f.ring) e;
  n = f.n + 1;
  notify = true;
}

-- `Offer`
unfoldable pub offer : Ring → Entry → Ring
offer f e = put (make_room f) e

-- The loop of `take`: the entries read, and the head behind them.
abbrev pub read_from : List Entry → ℕ → ℕ → List Entry × ℕ
read_from ring h zero = ([], h)
read_from ring h (suc k) =
    let rest = read_from ring ((h + 1) % length ring) k in
    (get_or ring h zero_entry ∷ rest.0, rest.1)

-- `take`
unfoldable pub take_batch : Ring → ℕ → List Entry × Ring
take_batch f limit =
    let count = min limit f.n in
    let (out, h) = read_from f.ring f.head count in (out, record f { head = h; n = f.n - count })

-- `reportDrops`: what it logs, if it does. `since` and `now` are its two readings of the clock.
unfoldable pub report_drops : ℕ → ℕ → Ring → Option ℕ × Ring
report_drops since now f =
    if f.dropped == 0 || ltb (since - f.last_drop) drop_log_period
    then (none, f)
    else (some f.dropped, record f { dropped = 0; last_drop = now })

-- `<-f.notify` takes the token.
abbrev pub take_token : Ring → Ring
take_token f = record f { notify = false }
