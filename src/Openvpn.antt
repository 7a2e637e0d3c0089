-- ===== src/Openvpn.antt =====
-- backend/openvpn: the users of one OpenVPN core and their sessions.
pub mod Config
pub mod Listeners
pub mod Group
pub mod UserStore
pub mod Poll
pub mod Management
mod Examples
