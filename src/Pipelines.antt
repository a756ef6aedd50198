-- ===== src/Pipelines.antt =====
-- infrastructure/pipelines/embedding_pipelines.py and core/pipeline_factory.py: how the text of one
-- document becomes embedded chunks.
pub mod Stream
pub mod Factory
pub mod Late
pub mod Plain
