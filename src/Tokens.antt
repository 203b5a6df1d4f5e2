-- ===== src/Tokens.antt =====
-- The OAuth tokens: the providers' endpoints, and the store that caches them.
pub mod Provider
pub mod Store
mod Tests
