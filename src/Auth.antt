-- ===== src/Auth.antt =====
-- internal/auth: how often a sign-in may fail, and one-time codes.
pub mod Throttle
pub mod Totp
mod Tests
