-- ===== src/Auth.antt =====
-- src/auth/mod.rs: who a request is, and which model it may use.
pub mod Identity
pub mod Models
pub mod Grants
mod Samples
