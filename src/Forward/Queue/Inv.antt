-- ===== src/Forward/Queue/Inv.antt =====
-- The ring's representation invariant.
use hannah_logcollector.Prelude.{
  ℕ, suc, ◌+◌, ◌%◌, ◌^◌, ◌≤◌, ◌<◌, ◌-◌, min, List, ◌≡◌, ℤ, pos, negsuc, zero, arith, length,
  length-set, length-replicate,
}
use hannah_logcollector.Store.{Entry}
use hannah_logcollector.Forward.Queue.{
  Ring, new, queue_size, offer, take_batch, report_drops, read_from, zero_entry,
}

-- The head lies in the ring, and the ring holds no more than its size. The size is that of a slice,
-- so the indices stay far below the range of `int`.
pub record IsValid (f : Ring) : Type 0 where
  pub head_in : f.head < length f.ring
  pub n_in : f.n ≤ length f.ring
  pub dropped_in : f.dropped < 2 ^ 64

pub queue_size_pos : (size : ℤ) → 0 < queue_size size
unfolding queue_size
queue_size_pos (pos zero) = omega arith
queue_size_pos (pos (suc n)) = omega arith
queue_size_pos (negsuc n) = omega arith

-- A new forwarder's queue is valid, whatever size is configured.
pub new-IsValid : (size : ℤ) → IsValid (new size)
unfolding new
new-IsValid size =
    ground (arith, length-replicate (queue_size size) zero_entry, queue_size_pos size)

pub length-offer : (f : Ring) (e : Entry) → length (offer f e).ring ≡ length f.ring
unfolding offer
length-offer f e = ground (
  arith,
  length-set f.ring ((f.head + f.n) % length f.ring) e,
  length-set f.ring (((f.head + 1) % length f.ring + (f.n - 1)) % length f.ring) e,
)

-- `Offer` keeps the invariant.
pub offer-IsValid : {f : Ring} (e : Entry) → IsValid f → IsValid (offer f e)
unfolding offer
offer-IsValid {f} e v = ground (
  arith,
  length-set f.ring ((f.head + f.n) % length f.ring) e,
  length-set f.ring (((f.head + 1) % length f.ring + (f.n - 1)) % length f.ring) e,
)

read_from_in :
    (ring : List Entry) (h k : ℕ) → h < length ring → (read_from ring h k).1 < length ring
read_from_in ring h zero p = p
read_from_in ring h (suc k) p = read_from_in ring ((h + 1) % length ring) k (omega arith)

-- `take` keeps the invariant.
pub take_batch-IsValid : {f : Ring} (limit : ℕ) → IsValid f → IsValid (take_batch f limit).1
unfolding take_batch
take_batch-IsValid {f} limit v =
    ground (arith, read_from_in f.ring f.head (min limit f.n) v.head_in)

-- `reportDrops` keeps the invariant.
pub report_drops-IsValid :
    {f : Ring} (since now : ℕ) → IsValid f → IsValid (report_drops since now f).1
unfolding report_drops
report_drops-IsValid since now v = ground arith
