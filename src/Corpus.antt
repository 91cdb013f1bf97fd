-- ===== src/Corpus.antt =====
-- The search for law articles: legal_core/src/legal_core, legal_infra/src/legal_infra and the
-- pipelines of db-admin/src/db_admin.
pub mod Windows
pub mod Retrieval
pub mod Merging
pub mod Lawgo
pub mod Hierarchy
pub mod Ids
pub mod Ingest
pub mod Vector
pub mod Pipeline
pub mod Demotion
pub mod Current
pub mod Fuseki
pub mod Reading
pub mod Injection
pub mod Embedding
pub mod Local
pub mod Select
pub mod Batches
pub mod Delegation
pub mod Digits
pub mod Keys
