-- ===== src/Dlc.antt =====
-- The package registry of the device layer configuration: bmt_ai_os/dlc.
pub mod Registry
mod Tests
