-- ===== src/Write.antt =====
-- adapters/write: the path that a run writes to, the check of a frame's schema, and the two sinks.
pub mod Path
pub mod Hadoop
pub mod Schema
pub mod Sink
