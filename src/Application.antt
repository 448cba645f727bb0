-- ===== src/Application.antt =====
-- knowledge_search/application: the services.
pub mod Ingestion
pub mod Search
pub mod Answers
pub mod Cache
pub mod Documents
