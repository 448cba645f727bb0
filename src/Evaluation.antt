-- ===== src/Evaluation.antt =====
-- knowledge_search/evaluation: the measures of a ranking.
pub mod Metrics
