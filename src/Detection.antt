-- ===== src/Detection.antt =====
-- Detection of signal candidates (src/detection.rs, src/signal_catalog.rs).
pub mod Types
