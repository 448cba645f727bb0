-- ===== src/Domain.antt =====
-- knowledge_search/domain: documents, ingestion jobs, chunks and citations.
pub mod Checks
pub mod Locator
pub mod Document
pub mod Job
pub mod Chunk
