-- ===== src/Hannah/Client/Backoff.antt =====
-- How long `Run` waits between its attempts.
use native.Mathlib.Nat.{pow-suc}
use hannah_logcollector.Prelude.{
  ℕ, zero, suc, ◌*◌, ◌^◌, ◌≤◌, min, ◌≡◌, refl, sym, ap, ◌∙◌, Bool, true, false, not, ◌&&◌, ◌||◌,
  List, [], ◌∷◌, ◌++◌, map, append_assoc, append-nil, if◌then◌else◌, All, arith,
}
use hannah_logcollector.Hannah.Client.{
  Registration, LogCollectorMessage, register, Core, receive_all, connect, second, max_backoff,
  Running, at_start, backoff_before, backoff_after, attempt, run,
}

-- Core acknowledges the registration: the stream could be opened, and one of the commands says so.
abbrev pub any : List Bool → Bool
any [] = false
any (b ∷ bs) = b || any bs

abbrev pub announced : Core → Bool
announced c = not c.client_fails && not c.stream_fails && not c.send_fails

abbrev pub acknowledges : Core → Bool
acknowledges c = announced c && any c.commands

-- For each attempt, how many attempts in a row just before it were not acknowledged; `k` of them lie
-- before the list. An attempt that is acknowledged has none.
abbrev pub failures : ℕ → List Core → List ℕ
failures k [] = []
failures k (c ∷ rest) =
    let after_failure = failures (suc k) rest in
    let after_success = failures 0 rest in
    if acknowledges c then 0 ∷ after_success else k ∷ after_failure

-- The wait doubles from one second to thirty.
abbrev pub delay : ℕ → ℕ
delay k = min (2 ^ k * second) max_backoff

-- A registration for each attempt in which it could be sent, in the messages that Core understands.
abbrev pub announcements : Registration → List Core → List LogCollectorMessage
announcements reg [] = []
announcements reg (c ∷ rest) =
    let later = announcements reg rest in
    if announced c then register c.is_v1 reg ∷ later else later

delay-suc : (k : ℕ) → min (delay k * 2) max_backoff ≡ delay (suc k)
delay-suc k = omega (arith, pow-suc 2 k)

receive_all_lem : (b : Bool) (acks : List Bool) → receive_all b acks ≡ (b || any acks)
unfolding receive_all
receive_all_lem true [] = refl
receive_all_lem false [] = refl
receive_all_lem b (true ∷ rest) = ground (arith, receive_all_lem true rest)
receive_all_lem b (false ∷ rest) = receive_all_lem b rest

connect_lem :
    (reg : Registration) (c : Core)
    → ((connect reg c).registered ≡ acknowledges c)
      × ((connect reg c).sent ≡ (if announced c then register c.is_v1 reg ∷ [] else []))
connect_lem reg c = ground (arith, receive_all_lem false c.commands)

-- What a round makes of the backoff, of the waits and of the messages.
backoff_lem :
    (registered : Bool) (k backoff : ℕ)
    → backoff ≡ delay k
    → (backoff_before registered backoff ≡ delay (if registered then 0 else k))
      × (backoff_after registered (backoff_before registered backoff)
          ≡ delay (if registered then 0 else suc k))
backoff_lem true k backoff e = (omega arith, omega arith)
backoff_lem false k backoff e = (e, rw e (delay-suc k))

failures_lem :
    (k : ℕ) (c : Core) (rest : List Core)
    → failures k (c ∷ rest)
      ≡ (if acknowledges c then 0 else k) ∷ failures (if acknowledges c then 0 else suc k) rest
failures_lem k c rest = ground arith

announcements_lem :
    (reg : Registration) (c : Core) (rest : List Core)
    → announcements reg (c ∷ rest)
      ≡ (if announced c then register c.is_v1 reg ∷ [] else []) ++ announcements reg rest
announcements_lem reg c rest = ground arith

run_lem :
    (reg : Registration) (cores : List Core) (k : ℕ) (s : Running)
    → s.backoff ≡ delay k
    → ((run reg cores s).waits ≡ s.waits ++ map delay (failures k cores))
      × ((run reg cores s).sent ≡ s.sent ++ announcements reg cores)
unfolding run
run_lem reg [] k s e = (sym (append-nil s.waits), sym (append-nil s.sent))
run_lem reg (c ∷ rest) k s e =
    let (acked, sent) = connect_lem reg c in
    let (wait, next) = backoff_lem (connect reg c).registered k s.backoff e in
    let (waits, all_sent) =
      run_lem reg rest (if acknowledges c then 0 else suc k) (attempt (connect reg c) s)
        (next ∙ ap (λ b. delay (if b then 0 else suc k)) acked) in
    (
      waits
          ∙ append_assoc s.waits _ _
          ∙ ap (λ t. s.waits ++ t)
              (ap (λ t. t ∷ map delay (failures (if acknowledges c then 0 else suc k) rest))
                  (wait ∙ ap (λ b. delay (if b then 0 else k)) acked)
                ∙ ap (map delay) (sym (failures_lem k c rest))),
      all_sent
          ∙ append_assoc s.sent _ _
          ∙ ap (λ t. s.sent ++ t)
              (ap (λ t. t ++ announcements reg rest) sent ∙ sym (announcements_lem reg c rest)),
    )

pow_pos : (k : ℕ) → 1 ≤ 2 ^ k
pow_pos zero = omega arith
pow_pos (suc k) = omega (arith, pow-suc 2 k, pow_pos k)

delays_bounded : (ks : List ℕ) → All (λ d. (second ≤ d) × (d ≤ max_backoff)) (map delay ks)
delays_bounded [] = tt
delays_bounded (k ∷ ks) = ((omega (arith, pow_pos k), omega arith), delays_bounded ks)

-- However the attempts turn out: `Run` waits a second after an attempt that Core acknowledged and
-- after the first that it did not, twice as long after each further one in a row, and no more than
-- thirty seconds, so always between one and thirty; and it sends a registration in each attempt in
-- which the stream could be opened and written to, and none in the others.
pub run_backs_off :
    (reg : Registration) (cores : List Core)
    → let s = run reg cores at_start in
      (s.waits ≡ map delay (failures 0 cores))
      × All (λ d. (second ≤ d) × (d ≤ max_backoff)) s.waits
      × (s.sent ≡ announcements reg cores)
run_backs_off reg cores =
    let (waits, sent) = run_lem reg cores 0 at_start (omega arith) in
    (waits, rw waits (delays_bounded (failures 0 cores)), sent)
