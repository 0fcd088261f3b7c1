-- ===== src/Server.antt =====
-- internal/server: the service that takes the logs of the components and hands them out.
pub mod Ship
pub mod Chunks
pub mod Legacy
pub mod Export
