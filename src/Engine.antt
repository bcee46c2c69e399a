-- ===== src/Engine.antt =====
-- src/engine.rs: the table engine. The children follow the file's sections.
pub mod Error
pub mod Options
pub mod Schema
pub mod Ingest
pub mod Decode
pub mod Encode
pub mod Exec
pub mod Tables
pub mod Limiter
pub mod Locks
