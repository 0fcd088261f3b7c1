-- ===== src/Export.antt =====
-- internal/export/export.go: the archive of the logs, with a text file for each source and a
-- manifest.
pub mod Line
pub mod Manifest
pub mod Table
pub mod Build
