-- ===== src/Warm.antt =====
-- src/warm/mod.rs: the warm store of session prefixes.
pub mod Decimal
pub mod Keys
pub mod Counts
pub mod Script
pub mod Binding
pub mod Sessions
pub mod Errors
pub mod Store
pub mod Operations
pub mod Reads
pub mod Delta
pub mod RoundTrip
pub mod Request
pub mod Gateway
mod Samples
