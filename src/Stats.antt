-- ===== src/Stats.antt =====
-- pkg/stats: the traffic statistics that every backend with kernel counters shares.
pub mod Stat
pub mod Tracker
pub mod Counters
mod Examples
