-- ===== src/RunStore.antt =====
-- internal/storage/metadata/agents/store.go: agent run records.
-- The memory store is the map; the file store is the file of JSON lines, and keeps the latest
-- version of a record. Deep copies are the identity, but for the sort that cloneEvidence makes.
pub mod Records
pub mod Backends
pub mod Normal
pub mod Replay
pub mod Refinement
pub mod Limits
mod Tests
