-- ===== src/Session.antt =====
-- src/policy/session.rs: session ids, prefix hashes, sticky endpoints and turn numbers.
pub mod Store
pub mod Ids
pub mod Hash
pub mod HexPrint
pub mod IdLaws
pub mod Laws
pub mod History
mod RequestSamples
mod Samples
