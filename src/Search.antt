-- ===== src/Search.antt =====
-- libs/search/src: Elasticsearch behind the search port, and its index and aliases.
pub mod EsMessageSearch
pub mod IndexManager
