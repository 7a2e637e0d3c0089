-- ===== src/WireGuard.antt =====
-- backend/wireguard: the peers of one WireGuard interface and their synchronisation with the panel.
pub mod Types
pub mod PeerStore
pub mod Users
pub mod Desired
pub mod Diff
pub mod Manager
pub mod Interface
pub mod SyncParts
pub mod Sync
pub mod Start
mod TestData
mod Examples
