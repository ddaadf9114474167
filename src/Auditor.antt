-- ===== src/Auditor.antt =====
-- auditor.py: what an audit must hold before it is committed.
pub mod Children
pub mod Committed
pub mod Lists
pub mod Applicable
pub mod Rules
pub mod Outcome
pub mod Verdict
pub mod Coverage
