-- ===== src/Providers.antt =====
-- knowledge_search/providers: the adapters behind the ports of the application.
pub mod LocalFiles
pub mod RedisCache
pub mod RedisQueue
pub mod Embeddings
pub mod Qdrant
