-- ===== src/FreePool.antt =====
-- src/free_token/mod.rs: free API keys for anyone, limited by the hour and the client's address.
pub mod Window
pub mod Claim
pub mod Covers
pub mod Hourly
pub mod Answers
pub mod Check
pub mod Usable
mod Samples
