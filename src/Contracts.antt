-- ===== src/Contracts.antt =====
-- internal/contracts/unified: the normalised events and the retrieval documents.
pub mod Sessions
pub mod Access
pub mod Retrieval
pub mod Evidence
