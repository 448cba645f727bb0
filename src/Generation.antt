-- ===== src/Generation.antt =====
-- knowledge_search/generation: the generator of answers behind a chat endpoint.
pub mod Evidence
pub mod HttpChat
