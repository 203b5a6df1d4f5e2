-- ===== src/Ksp.antt =====
-- The connector to the KSP warehouse gateway: its journal, its client and its worker.
pub mod Journal
pub mod Worker
mod Tests
