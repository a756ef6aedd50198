-- ===== src/Options.antt =====
-- core/ingest_embedding_options.py: the overrides of one job and the settings of the deployment
-- become the options that the job runs with.
pub mod Choices
pub mod Names
pub mod Coerce
pub mod Resolve
