-- ===== src/Memory.antt =====
-- The memory of conversations: bmt_ai_os/memory.
pub mod Split
pub mod Context
mod Tests
