-- ===== src/Json.antt =====
-- JSON values, and the canonical text from which every identity of the program is derived.
pub mod Value
pub mod Canonical
pub mod Total
pub mod KeyOrder
pub mod Lookup
