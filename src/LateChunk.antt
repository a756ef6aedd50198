-- ===== src/LateChunk.antt =====
-- infrastructure/pipelines/late_chunk_enhancer.py: the chunks of a macro splitter are brought to
-- the token bounds and packed into requests. The token counter is a parameter throughout, as it is
-- in the source.
pub mod Sentences
pub mod Merge
pub mod Enhance
pub mod Batch
