-- ===== src/Lake.antt =====
-- The data lake: the names of its files, their contents, and the queue of files to load.
pub mod Names
pub mod Envelope
pub mod Manifest
pub mod Loaders
mod Tests
