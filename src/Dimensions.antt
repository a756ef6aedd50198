-- ===== src/Dimensions.antt =====
-- core/embedding_dimensions.py: which output sizes an embedding model takes.
pub mod Rules
pub mod Validate
pub mod Laws
