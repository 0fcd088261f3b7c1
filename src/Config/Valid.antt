-- ===== src/Config/Valid.antt =====
-- What `validate` accepts.
use hannah_logcollector.Prelude.{
  ◌≡◌, ◌↔◌, ◌⊎◌, inl, inr, refl, Bool, true, false, ◌||◌, [], ◌∷◌, Option, arith, ℤ, pos, ◌≤ℤ◌,
}
use hannah_logcollector.Text.{Bytes, codes, is_empty}
use hannah_logcollector.Text.Laws.{equal_iff}
use hannah_logcollector.Config.{
  Config, Failure, Loaded, ok, ◌>>◌, require, splits, is_protocol, above_zero, validate,
}

-- What `validate` is there for.
pub record IsValid (split_host_port : Bytes → Option (Bytes × Bytes)) (c : Config) : Type 0 where
  pub can_listen : splits split_host_port c.server.listen ≡ true
  pub can_receive : (c.syslog.listen ≡ []) ⊎ (splits split_host_port c.syslog.listen ≡ true)
  pub known_protocol : (c.forward.protocol ≡ codes "tcp") ⊎ (c.forward.protocol ≡ codes "udp")
  pub can_forward : (c.forward.address ≡ []) ⊎ (splits split_host_port c.forward.address ≡ true)
  pub keeps_a_day : pos 1 ≤ℤ c.retention.days
  pub keeps_a_megabyte : pos 1 ≤ℤ c.retention.max_size_mb

require_lem :
    (b : Bool) (e : Failure) (rest : Loaded (Unit {0}))
    → (require b e >> rest) ≡ ok tt
    → (b ≡ true) × (rest ≡ ok tt)
require_lem true e rest h = (refl, h)
require_lem false e rest h = ground arith

empty_or : (s : Bytes) (b : Bool) → (is_empty s || b) ≡ true → (s ≡ []) ⊎ (b ≡ true)
empty_or [] b h = inl refl
empty_or (x ∷ s) b h = inr h

protocol_lem : (s : Bytes) → is_protocol s ≡ true → (s ≡ codes "tcp") ⊎ (s ≡ codes "udp")
protocol_lem s h = grind (arith, equal_iff s (codes "tcp"), equal_iff s (codes "udp"))

above_zero_lem : (n : ℤ) → above_zero n ≡ true → pos 1 ≤ℤ n
above_zero_lem n h = ground arith

or_empty : (s : Bytes) (b : Bool) → (s ≡ []) ⊎ (b ≡ true) → (is_empty s || b) ≡ true
or_empty [] b h = refl
or_empty (x ∷ s) b h = ground arith

lem_protocol : (s : Bytes) → (s ≡ codes "tcp") ⊎ (s ≡ codes "udp") → is_protocol s ≡ true
lem_protocol s h = grind (arith, equal_iff s (codes "tcp"), equal_iff s (codes "udp"))

lem_above_zero : (n : ℤ) → pos 1 ≤ℤ n → above_zero n ≡ true
lem_above_zero n h = ground arith

module _ (split_host_port : Bytes → Option (Bytes × Bytes)) where
  pub validate-IsValid :
      (c : Config) → validate split_host_port c ≡ ok tt → IsValid split_host_port c
  unfolding validate
  validate-IsValid c h =
      let (h1, r1) = require_lem (splits split_host_port c.server.listen) _ _ h in
      let (h2, r2) =
        require_lem (is_empty c.syslog.listen || splits split_host_port c.syslog.listen) _ _ r1 in
      let (h3, r3) = require_lem (is_protocol c.forward.protocol) _ _ r2 in
      let (h4, r4) =
        require_lem (is_empty c.forward.address || splits split_host_port c.forward.address) _ _
          r3 in
      let (h5, r5) = require_lem (above_zero c.retention.days) _ _ r4 in
      record {
        can_listen = h1;
        can_receive = empty_or c.syslog.listen _ h2;
        known_protocol = protocol_lem c.forward.protocol h3;
        can_forward = empty_or c.forward.address _ h4;
        keeps_a_day = above_zero_lem c.retention.days h5;
        keeps_a_megabyte = above_zero_lem c.retention.max_size_mb (ground arith);
      }

  -- And it refuses nothing else.
  IsValid-validate : (c : Config) → IsValid split_host_port c → validate split_host_port c ≡ ok tt
  unfolding validate
  IsValid-validate c v =
      rw
        (
          v.can_listen,
          or_empty c.syslog.listen (splits split_host_port c.syslog.listen) v.can_receive,
          lem_protocol c.forward.protocol v.known_protocol,
          or_empty c.forward.address (splits split_host_port c.forward.address) v.can_forward,
          lem_above_zero c.retention.days v.keeps_a_day,
          lem_above_zero c.retention.max_size_mb v.keeps_a_megabyte,
        )
        refl

  -- `validate` accepts a configuration exactly if its addresses can be split into host and port
  -- (those of the syslog receiver and of the forwarding may be empty), the protocol is tcp or udp,
  -- and the retention keeps at least one day and one megabyte.
  pub validate-IsValid_iff :
      (c : Config) → (validate split_host_port c ≡ ok tt) ↔ IsValid split_host_port c
  validate-IsValid_iff c = (validate-IsValid c, IsValid-validate c)
