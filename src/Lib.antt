-- ===== src/Lib.antt =====
-- The delivery system writes a reviewed plan to GitHub: an approved preview's operations are applied one
-- at a time, each under a durable claim, and every step leaves a record that a later process can read.
-- This library models the core of that: which operation sets are eligible, the durable records, the
-- two state machines, the tables that hold a run together, the loop that applies the operations, the
-- driver that sends them, and the audit that comes before.
--
-- The parts, with the code each is about:
--   Base            equality tests, Boolean tests, lists over the native numbers
--   Errors          the codes that `ValueError` carries, and results
--   Value           the JSON-like values that the write-operation contract reads
--   WriteOperations delivery_system/write_operations.py: `normalize_write_operations`;
--                   WriteOperations/Evaluate: `evaluate_write_operations`; WriteOperations/Endpoints: the
--                   V2 contract
--   Identity        delivery_system/application_identity.py, and `AuthorityProvenance` of receipts.py
--   Execution       delivery_system/execution_state.py: the records and their constructors' checks;
--                   Execution/Transitions: `validate_attempt_transition` and
--                   `validate_application_transition`
--   Receipts        delivery_system/receipts.py
--   Table           a SQLite table by its primary key, a row that loads or fails to
--   Context         delivery_system/runtime.py, `RuntimeApplicationExecutionContext`: the only maker of
--                   new records
--   Store           delivery_system/execution_store.py: Store/Claim has `create_execution_if_absent` and
--                   `claim_next_operation`, Store/Outcome has `complete_operation_success` and
--                   `settle_operation`, Store/Finalize has `finalize_application`, Store/Read the
--                   reading methods and Store/Generic the methods for unmanaged applications
--   Status          delivery_system/runtime.py, `_validate_execution_state_invariants`
--   Audit           delivery_system/audit_state.py: `AuditRecord` and `ApprovalRecord`
--   Applier         delivery_system/applier.py and delivery_system/drivers/write_contract.py:
--                   Applier/Commands has the commands and observations, Applier/Render the body of an
--                   issue, Applier/References and Applier/Materialize `_materialize`, Applier/Evidence
--                   what a success must show, Applier/Loop and Applier/Start `_apply`; Applier/Trace is
--                   the abstract account that Applier/Run shows `_apply` to keep to, and
--                   Applier/Settlement says how it settles what failed
--   Rules           delivery_system/rules.py: the first registry
--   Auditor         delivery_system/auditor.py: `_validate_audit_children` and
--                   `validate_committed_audit`
--   Driver          delivery_system/drivers/github_write.py: Driver/Response takes an answer for an
--                   observation, Driver/Dispatch makes the POST of a command
--   Tests           runs at concrete inputs
--
-- How they fit: the Store's methods ask the Context for new records, which checks them by Execution and
-- Receipts, write them to the tables, and read the Context's expected operations, which are those that
-- WriteOperations found eligible. The Applier claims an operation from the Store, hands its command to
-- the Driver, and completes or settles it in the Store by the answer. Status reads the records back.
--
-- A method of the store is one SQLite transaction: in the model a function from the tables to a result
-- with new tables, so that an error leaves the tables as they were, and an interleaving of callers is a
-- sequence of such functions (Store/Run). The Applier calls these methods one after the other; what
-- others make of the tables in between is a parameter of each of its rounds, as are the answers of the
-- executor. The tables hold the rows of one workspace.
--
-- Parameters stand for what is not in the repository or not modelled: the digests of canonical.py
-- (`Digests`, any functions to strings), the reading and writing of instants (`Clock`), whether the
-- caller's authority is current at each check that a call makes (`Currentness`), what the code uses of
-- Python's text methods (`TextLibrary`), and the reading of JSON and the digest of a result by the driver
-- (`HttpLibrary`). A live record comes with whether the service's registry holds it (`Live`).
--
-- A dispatch of the Driver returns the POSTs that it made with its result, so that their number can be
-- stated; the transport itself, which answers a POST, is the parameter `Connection`.
--
-- Only the loop of `_apply` needs fuel: its other callers may change the tables, so that only the digest
-- tells how far it has come. One round more than there are operations is enough. All other loops are
-- structural recursion on lists. Numbers are natural: an index is
-- never negative in a record that a constructor accepts, and the signed difference of two indices in
-- `validate_application_transition` is compared without subtraction.
--
-- Not modelled: SQL, paths and JSON; the store's methods that compare serialized payloads,
-- `save_execution`, `save_attempt` and the two that record receipts; the assembly of an audit in
-- `RuntimeAuditor`, attestation,
-- the reading drivers, the HTTPS transport and host composition.
pub mod Base
pub mod Errors
pub mod Value
pub mod WriteOperations
pub mod Identity
pub mod Execution
pub mod Receipts
pub mod Table
pub mod Context
pub mod Store
pub mod Status
pub mod Audit
pub mod Applier
pub mod Rules
pub mod Auditor
pub mod Driver
pub mod Tests
