-- ===== src/Proxy.antt =====
-- src/api/proxy.rs, judge.rs, shadow.rs and warm.rs: the handlers that put the components together.
pub mod Response
pub mod HostErrors
pub mod State
pub mod Stage
pub mod Stages
pub mod QuotaStage
pub mod Finished
pub mod Judge
pub mod Borderline
pub mod Affinity
pub mod Decision
pub mod Metadata
pub mod Preview
pub mod Shadow
pub mod Dispatch
pub mod Chat
pub mod Serve
pub mod Responses
pub mod WarmApi
pub mod PublishCounts
pub mod Idle
pub mod Slots
pub mod Entry
pub mod Gates
pub mod Carried
pub mod Restores
pub mod Release
pub mod Mirror
pub mod ResponsesRelease
mod Samples
