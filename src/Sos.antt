-- ===== src/Sos.antt =====
-- The loading of SOS Inventory records into the database.
pub mod Load
pub mod Files
mod Tests
