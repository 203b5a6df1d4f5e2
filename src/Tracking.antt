-- ===== src/Tracking.antt =====
-- Terminal49 tracking (src/integrations/terminal49_client): the reference that a user enters, the
-- provider's documents, and the operation that finds or creates a tracking request.
pub mod Reference
pub mod Documents
pub mod Store
pub mod Choices
pub mod Initiation
pub mod Worker
mod Tests
