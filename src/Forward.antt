-- ===== src/Forward.antt =====
-- internal/forward: every accepted entry goes on to a syslog receiver.
pub mod Queue
pub mod Encode
pub mod Format
pub mod Sender
