-- ===== src/Controller/Auth.antt =====
-- bmt_ai_os/controller/auth.py: accounts, tokens and the middleware in front of the routes.
pub mod Users
pub mod Tokens
pub mod Middleware
mod Tests
