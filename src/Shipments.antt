-- ===== src/Shipments.antt =====
-- The shipment synchronisation with SOS: the queue, its workers, and the documents that they post.
pub mod Queue
pub mod Response
pub mod Template
pub mod Worker
mod Tests
