-- ===== src/Downloads.antt =====
-- The download jobs (src/worker/jobs/get_data): Acenda's pages and cursors (get_acenda_data.py), and
-- the job that lands what a source returns in the data lake (base_get.py).
pub mod Acenda
pub mod Sync
mod Tests
