-- ===== src/Syslog.antt =====
-- internal/syslog: RFC 5424 over UDP, the format of the ESP satellites.
pub mod Parse
pub mod Receiver
