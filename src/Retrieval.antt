-- ===== src/Retrieval.antt =====
-- knowledge_search/retrieval: its values and the fusion of two rankings.
pub mod Models
pub mod Candidates
pub mod Ranking
