-- ===== src/Xray.antt =====
-- backend/xray: the Xray core's accounts, inbounds and users.
pub mod Accounts
pub mod Passwords
pub mod Inbounds
pub mod Users
pub mod Settled
pub mod Updated
pub mod Standing
pub mod Running
pub mod Agreement
pub mod InStep
pub mod OneUser
pub mod Restart
pub mod Fallback
pub mod Routing
pub mod Api
pub mod ApplyApi
pub mod Rules
pub mod RulesKept
pub mod Stripped
pub mod Reapplied
mod Examples
mod ApiExamples
pub mod Loading
pub mod History
