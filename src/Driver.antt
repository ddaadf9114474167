-- ===== src/Driver.antt =====
-- drivers/github_write.py: how a command becomes one POST to GitHub, and what its answer is taken for.
pub mod Response
pub mod Dispatch
pub mod Honest
pub mod Evidence
pub mod Created
pub mod Trusted
