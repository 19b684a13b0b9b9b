-- ===== src/Pipeline.antt =====
-- internal/services: the services that move evidence from files to the stores.
pub mod Ingest
pub mod Normalize
pub mod Sessions
pub mod Access
pub mod Index
mod Tests
