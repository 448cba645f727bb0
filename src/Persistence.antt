-- ===== src/Persistence.antt =====
-- knowledge_search/persistence: rows, conversions, sessions and repositories.
pub mod Records
pub mod Session
pub mod Repositories
pub mod Search
pub mod Schema
pub mod Memory
