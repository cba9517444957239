-- ===== src/Accounts.antt =====
-- src/saas/auth.rs: the accounts of the console, their registration and their logins.
pub mod Checks
pub mod Database
pub mod Register
pub mod Login
pub mod Attempts
pub mod Verified
mod Samples
