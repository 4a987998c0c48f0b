-- ===== src/Controller.antt =====
-- The controller: bmt_ai_os/controller.
pub mod RateLimit
pub mod Health
pub mod Auth
pub mod ProviderKeys
mod Tests
