-- ===== src/Quota.antt =====
-- src/quota/mod.rs: hard limits per project and API key on requests per minute and concurrency.
pub mod Window
pub mod Counters
pub mod Interleaving
pub mod Limiter
pub mod Admission
pub mod Pruning
pub mod System
pub mod Flight
pub mod Rates
pub mod Accounts
pub mod Sliding
pub mod Verdicts
mod Samples
