-- ===== src/Applier.antt =====
-- applier.py and the commands and observations of drivers/write_contract.py: the loop that carries an
-- approved application out, one claimed operation after the other.
pub mod Commands
pub mod Render
pub mod Evidence
pub mod References
pub mod Materialize
pub mod Round
pub mod Loop
pub mod Start
pub mod Sealed
pub mod Settlement
pub mod Trace
pub mod Refinement
pub mod Run
pub mod Promises
pub mod Creation
pub mod Behaviour
