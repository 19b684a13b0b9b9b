-- ===== src/Storage.antt =====
-- What the file stores under internal/storage/metadata share: contexts, JSON lines and their
-- scanning, and the reading of "the latest version of a key" out of a log.
pub mod JsonLines
pub mod Latest
pub mod Search
pub mod Filters
pub mod Replay
pub mod EventLog
pub mod TableCodec
