-- ===== src/Update.antt =====
-- Full system updates: bmt_ai_os/update.
pub mod Orchestrator
mod Tests
