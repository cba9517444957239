-- ===== src/Usage.antt =====
-- src/usage/mod.rs: what the data plane's hooks do when a request ends.
pub mod Report
pub mod Numbers
pub mod Finish
pub mod Row
pub mod Prints
