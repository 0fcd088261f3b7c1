-- ===== src/Forward/Queue/Refine.antt =====
-- A valid ring behaves as a list of at most its size, oldest entry first.
use mathlib.Core.Path.{ap₂}
use native.Mathlib.Nat.{mod-add-mod, mod-eq_of_lt, mod-eq-sub-mod, add-zero, zero-add}
use native.Mathlib.Numerals.{add-one}
use Prim.Native.Nat.add
use native.Mathlib.Decide.{dec_lt}
use hannah_logcollector.Prelude.{
  ℕ, zero, suc, ◌+◌, ◌-◌, ◌%◌, ◌^◌, ◌≤◌, ◌<◌, min, ◌≡◌, ◌≢◌, refl, ap, ◌∙◌, List, [], ◌∷◌, ◌++◌,
  ◌==◌, if◌then◌else◌, true, Bool-cases, length-set, inl, inr, arith, length, get_or, set, drop,
  get_or-set_self, get_or-set_ne,
}
use hannah_logcollector.Store.{Entry}
use hannah_logcollector.Forward.Queue.{
  Ring, offer, take_batch, read_from, make_room, put, zero_entry,
}
use hannah_logcollector.Forward.Queue.Inv.{IsValid}

-- The `k` entries from index `h` on, going round at the end of the ring.
abbrev pub window : List Entry → ℕ → ℕ → ℕ → List Entry
window ring size h zero = []
window ring size h (suc k) = get_or ring h zero_entry ∷ window ring size ((h + 1) % size) k

abbrev pub contents : Ring → List Entry
contents f = window f.ring (length f.ring) f.head f.n

pub length-window : (ring : List Entry) (size h k : ℕ) → length (window ring size h k) ≡ k
length-window ring size h zero = refl
length-window ring size h (suc k) = ap suc (length-window ring size ((h + 1) % size) k)

-- The queue as a list: a full one loses its first entry to the new one.
unfoldable pub offer_to : ℕ → List Entry → Entry → List Entry
offer_to size q e = if length q == size then drop 1 q ++ e ∷ [] else q ++ e ∷ []

-- Fewer than `size` steps round the ring do not come back to the start.
step-ne : {size h k : ℕ} → h < size → suc k < size → (h + suc k) % size ≢ h
step-ne {size} {h} {k} hh hk = elim (dec_lt (h + suc k) size) [
  | yes p ↦ omega (arith, mod-eq_of_lt p)
  | no p ↦ omega (
    arith,
    mod-eq-sub-mod {n = h + suc k} {m = size} (omega arith),
    mod-eq_of_lt {n = h + suc k - size} {m = size} (omega arith),
  )
]

-- Writing just behind a window extends it.
window-set :
    (ring : List Entry) (size : ℕ) (e : Entry) (k h i : ℕ)
    → size ≤ length ring
    → h < size
    → k < size
    → i ≡ (h + k) % size
    → window (set ring i e) size h (suc k) ≡ window ring size h k ++ e ∷ []
window-set ring size e zero h i fits hh hk at =
    rw (at, add-zero, mod-eq_of_lt hh, get_or-set_self ring h e zero_entry (omega arith))
window-set ring size e (suc k) h i fits hh hk at =
    ap₂ ◌∷◌ (get_or-set_ne ring e zero_entry (rw at (step-ne hh hk))) (
      window-set ring size e k ((h + 1) % size) i fits (omega arith) (omega arith)
        (at ∙ rw mod-add-mod (ap (λ t. t % size) (omega arith))))

window-drop :
    (ring : List Entry) (size h k : ℕ)
    → window ring size ((h + 1) % size) (k - 1) ≡ drop 1 (window ring size h k)
window-drop ring size h zero = refl
window-drop ring size h (suc k) = ap (window ring size ((h + 1) % size)) (omega arith)

contents-put :
    (f : Ring) (e : Entry)
    → f.head < length f.ring
    → f.n < length f.ring
    → contents (put f e) ≡ contents f ++ e ∷ []
contents-put f e hh hk =
    rw (length-set f.ring ((f.head + f.n) % length f.ring) e, add-one)
      (window-set f.ring (length f.ring) e f.n f.head _ (omega arith) hh hk refl)

-- `window` matches on `suc`; the code tests the count.
contents-make_room :
    (f : Ring)
    → IsValid f
    → contents (make_room f) ≡ (if f.n == length f.ring then drop 1 (contents f) else contents f)
contents-make_room f v = elim (Bool-cases (f.n == length f.ring)) [
  | inl full ↦ rw full (window-drop f.ring (length f.ring) f.head f.n)
  | inr room ↦ rw room
]

make_room-IsValid :
    (f : Ring)
    → IsValid f
    → ((make_room f).head < length (make_room f).ring)
      × ((make_room f).n < length (make_room f).ring)
      × (length (make_room f).ring ≡ length f.ring)
make_room-IsValid f v = ground arith

-- On a valid queue, `Offer` appends the entry, and lets the oldest one go exactly when the queue
-- is full; that is counted. Whoever waits is woken.
pub offer_refines :
    (f : Ring) (e : Entry)
    → IsValid f
    → (contents (offer f e) ≡ offer_to (length f.ring) (contents f) e)
      × ((offer f e).dropped
          ≡ (if f.n == length f.ring then (f.dropped + 1) % 2 ^ 64 else f.dropped))
      × ((offer f e).notify ≡ true)
unfolding offer offer_to
offer_refines f e v =
    let (hh, hk, same) = make_room-IsValid f v in
    (
      contents-put (make_room f) e hh hk
          ∙ rw (contents-make_room f v, length-window f.ring (length f.ring) f.head f.n)
              (ground arith),
      ground arith,
      refl,
    )

window-append :
    (ring : List Entry) (size h j k : ℕ)
    → h < size
    → window ring size h (j + k) ≡ window ring size h j ++ window ring size ((h + j) % size) k
window-append ring size h zero k hh = rw (add-zero, mod-eq_of_lt hh, zero-add)
window-append ring size h (suc j) k hh = rw add.suc (
    ap (◌∷◌ (get_or ring h zero_entry)) (
      window-append ring size ((h + 1) % size) j k (omega arith)
      ∙ ap (λ t. window ring size ((h + 1) % size) j ++ window ring size t k)
          (rw mod-add-mod (ap (λ t. t % size) (omega arith)))))

read_from-window :
    (ring : List Entry) (h k : ℕ)
    → h < length ring
    → read_from ring h k ≡ (window ring (length ring) h k, (h + k) % length ring)
read_from-window ring h zero hh = rw (add-zero, mod-eq_of_lt hh)
read_from-window ring h (suc k) hh =
    rw (read_from-window ring ((h + 1) % length ring) k (omega arith)) (
      ap (λ t. (get_or ring h zero_entry ∷ window ring (length ring) ((h + 1) % length ring) k, t))
        (rw mod-add-mod (ap (λ t. t % length ring) (omega arith))))

-- On a valid queue, `take` removes the oldest entries, `limit` of them or all there are, and
-- leaves the others in order and the drop counter as it was.
pub take_batch_refines :
    (f : Ring) (limit : ℕ)
    → IsValid f
    → (contents f ≡ (take_batch f limit).0 ++ contents (take_batch f limit).1)
      × (length (take_batch f limit).0 ≡ min limit f.n)
      × ((take_batch f limit).1.dropped ≡ f.dropped)
unfolding take_batch
take_batch_refines f limit v = rw (read_from-window f.ring f.head (min limit f.n) v.head_in) (
  ap (window f.ring (length f.ring) f.head) (omega arith)
      ∙ window-append f.ring (length f.ring) f.head (min limit f.n) (f.n - min limit f.n) v.head_in,
  length-window f.ring (length f.ring) f.head (min limit f.n),
  refl,
)
