-- ===== src/Auth.antt =====
-- internal/auth: tokens, the cache of their users in Redis, and the checks of requests.
pub mod Tokens
pub mod Middleware
pub mod Remembered
