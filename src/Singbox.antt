-- ===== src/Singbox.antt =====
-- backend/singbox: a core that takes the whole user list of an inbound in one call.
pub mod Config
pub mod Users
pub mod Slots
pub mod Counters
pub mod Supervisor
pub mod Lifecycle
mod Examples
