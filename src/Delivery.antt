-- ===== src/Delivery.antt =====
-- Releases of the Framework, and whether one can be trusted (src/delivery.rs).
pub mod Hex
pub mod Fields
pub mod Trust
pub mod Inventory
pub mod Manifest
pub mod Release
