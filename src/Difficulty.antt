-- ===== src/Difficulty.antt =====
-- src/policy/tokens.rs: the size of a prompt and the difficulty of a request.
pub mod Words
pub mod Focus
pub mod Estimate
pub mod Loop
pub mod Signals
mod Samples
