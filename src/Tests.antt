-- ===== src/Tests.antt =====
-- The service run on small inputs.
pub mod Fixtures
pub mod Options
pub mod Texts
pub mod Ingest
pub mod Streams
pub mod Lifecycle
pub mod Parallel
pub mod Workers
pub mod Adapters
pub mod Api
pub mod Schema
pub mod Keys
