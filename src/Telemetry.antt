-- ===== src/Telemetry.antt =====
-- ctask_lib/telemetry: the storage of interaction times and the queries over it.
pub mod Types
pub mod Events
pub mod Storage
pub mod Mean
pub mod Concurrency
pub mod Api
pub mod Tests
