-- ===== src/Fleet.antt =====
-- The fleet server: bmt_ai_os/fleet.
pub mod Data
pub mod Database
pub mod Registration
pub mod Registry
pub mod Agent
mod Tests
