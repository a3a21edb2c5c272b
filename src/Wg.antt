-- ===== src/Wg.antt =====
-- internal/wg: the model of servers and devices, their addresses, limits and configs.
pub mod Net
pub mod Model
pub mod Limits
pub mod Key
pub mod Stats
pub mod Address
pub mod Validate
pub mod Config
pub mod Samples
mod Tests
