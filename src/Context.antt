-- ===== src/Context.antt =====
-- src/policy/context.rs: reduction of tool results in a request.
pub mod Json
pub mod Text
pub mod Trim
pub mod Slim
pub mod Laws
pub mod Accounts
mod Samples
