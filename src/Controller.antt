-- ===== src/Controller.antt =====
-- controller: the cores of a node, and the user updates that arrive in pieces.
pub mod Cores
pub mod UsersChunk
mod Examples
