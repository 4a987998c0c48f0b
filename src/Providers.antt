-- ===== src/Providers.antt =====
-- The provider layer: bmt_ai_os/providers.
pub mod CircuitBreaker
pub mod Metrics
pub mod Registry
pub mod Config
pub mod Router
mod Tests
