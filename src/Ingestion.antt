-- ===== src/Ingestion.antt =====
-- knowledge_search/ingestion: from the text of a document to its chunks.
pub mod Models
pub mod Tokens
pub mod Windows
pub mod Normalize
pub mod Chunking
pub mod Pipeline
pub mod Extraction
