-- ===== src/Config.antt =====
-- adapters/factory and the config classes of adapters/source and adapters/write.
pub mod Kinds
pub mod Source
pub mod Sink
