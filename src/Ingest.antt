-- ===== src/Ingest.antt =====
-- application/use_cases/ingestion/: submitting a job, and processing it in the worker.
pub mod Mime
pub mod Fields
pub mod Ports
pub mod Submit
pub mod Segments
pub mod Process
pub mod Lifecycle
pub mod Status
pub mod Results
pub mod Parallel
