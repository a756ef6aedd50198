-- ===== src/Extraction.antt =====
-- infrastructure/extraction/: the fetcher of URLs and the extractors of text.
pub mod Fetch
pub mod Documents
