-- ===== src/Read.antt =====
-- adapters/source: what the read adapters ask of Spark.
pub mod Sql
pub mod Frames
pub mod NoSql
pub mod File
pub mod Kafka
pub mod Factory
pub mod Sample
