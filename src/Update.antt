-- ===== src/Update.antt =====
-- internal/update: which version of the panel is newer.
pub mod Version
mod Tests
