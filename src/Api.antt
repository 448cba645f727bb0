-- ===== src/Api.antt =====
-- knowledge_search/api: the problem responses of its errors.
pub mod Problems
