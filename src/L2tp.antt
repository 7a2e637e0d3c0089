-- ===== src/L2tp.antt =====
-- backend/l2tp: a PPP server whose users log in with a username and a password.
pub mod UserStore
pub mod Poll
pub mod ChapSecrets
pub mod SharedFile
pub mod Pool
pub mod PoolBounds
mod Examples
mod FileExamples
