-- ===== src/Routing.antt =====
-- src/routing: scores of endpoints, and the evaluation of a pool.
pub mod Cost
pub mod Strategy
pub mod Rank
pub mod Candidate
pub mod Evaluate
pub mod Explain
pub mod Reasons
pub mod Exclusion
pub mod Affinity
mod Samples
