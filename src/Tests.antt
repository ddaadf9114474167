-- ===== src/Tests.antt =====
-- Runs of the modelled code at concrete inputs.
mod Fixtures
mod Transitions
mod WriteOperations
mod Runs
mod Store
mod Status
mod Audit
mod Generic
mod Endpoints
mod Apply
mod Applier
mod Auditor
mod Driver
