-- ===== src/Hannah.antt =====
-- internal/hannah: the registration at Hannah Core (`Client`), and the names of its satellites
-- (`Satellites`). Each call of Core is up to the network, so it is given by how it turns out.
pub mod Client
pub mod Satellites
