-- ===== src/Harness.antt =====
-- internal/agents/harness/investigation.go: the deterministic investigation harness.
pub mod Goals
pub mod Plan
pub mod Formats
pub mod Requests
pub mod Windows
pub mod Queries
pub mod Evidence
pub mod Timeline
pub mod Summaries
pub mod Steps
pub mod Phases
pub mod Finish
pub mod Run
pub mod Gate
pub mod Coordinator
mod Tests
