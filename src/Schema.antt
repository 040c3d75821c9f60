-- ===== src/Schema.antt =====
-- The Schema Registry (src/schema.rs).
pub mod Registry
pub mod Load
pub mod Keywords
pub mod Validate
pub mod Records
