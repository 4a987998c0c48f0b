-- ===== src/Ota.antt =====
-- Over-the-air updates: bmt_ai_os/ota.
pub mod State
pub mod Verify
pub mod Engine
pub mod Version
mod Tests
