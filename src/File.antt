-- ===== src/File.antt =====
-- The package file: the registry of the files that are edited together.
pub mod Registry
pub mod Poller
mod Tests
