-- ===== src/Adapters.antt =====
-- internal/adapters: how payloads of the sources become raw evidence, and raw evidence unified
-- events.
pub mod Shared
pub mod Routing
pub mod Radius
pub mod Access
pub mod Tests
