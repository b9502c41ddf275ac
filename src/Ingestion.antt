-- ===== src/Ingestion.antt =====
-- src/ingestion: the parsers, the chunker and the indexer.
pub mod Parsers
pub mod Chunker
pub mod Indexer
