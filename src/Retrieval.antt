-- ===== src/Retrieval.antt =====
-- src/retrieval: the vector search, the rerankers and the pipeline.
pub mod Scores
pub mod Search
pub mod Rerank
pub mod Pipeline
