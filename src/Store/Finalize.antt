-- ===== src/Store/Finalize.antt =====
-- `finalize_application` of execution_store.py: the application is applied when every operation has
-- its receipt.
pub mod Facts
use delivery_system.Base.{
  ℕ, ◌+◌, ℕ_eq, String, String_eq, List_eq, Option_eq, List, [], ◌∷◌, not, ◌||◌, some, ◌!=◌, length,
  map,
}
use delivery_system.Errors.{
  Result, ok, ◌>>=◌, ◌>>◌, raise_if, or_raise, application_orchestration_policy_mismatch,
  application_not_found, application_finalization_invalid, application_receipt_incomplete,
  application_receipt_integrity_invalid,
}
use delivery_system.WriteOperations.{WriteOperation}
use delivery_system.Identity.{
  ApplicationIdentity_eq, CredentialContinuityAnchor_eq, operation_identity,
}
use delivery_system.Execution.{
  partially_applied, applied, Status_eq, ApplicationExecution, is_none, with_state_digest,
  verify_execution,
}
use delivery_system.Receipts.{Digests, OperationReceipt, ReceiptRef, verify_receipt}
use delivery_system.Context.{
  ExecutionContext, Currentness, unchanged, continue_execution_state, new_application_receipt,
}
use delivery_system.Table.{OperationKey_eq, read_row, lookup, update, insert}
use delivery_system.Store.Claim.{is_managed}
use delivery_system.Store.{
  Database, Caller, require_orchestration, Clock, execution_timestamp, require_clock_not_before,
}

unfoldable pub receipt_ref : OperationReceipt → ReceiptRef
receipt_ref r = record {
  operation_receipt_id = r.operation_receipt_id;
  operation_receipt_digest = r.receipt_digest;
}

module _ (digests : Digests) (clock : Clock) (caller : Caller) (context : ExecutionContext) where
  -- One round of the loop over the expected operations.
  unfoldable pub collect_receipt :
      String → String → ℕ → WriteOperation → Database → Result OperationReceipt
  collect_receipt application_id now index operation db = do
    let id = operation_identity digests.states.identities application_id index operation
    row ←
        or_raise
          (lookup (record { application = application_id; operation = id }) db.operation_receipts)
          application_receipt_incomplete
    receipt ← read_row row
    raise_if (not (verify_receipt digests receipt) || receipt.operation_index != index)
        application_receipt_integrity_invalid
    started ← execution_timestamp clock receipt.started_at
    completed ← execution_timestamp clock receipt.completed_at
    require_clock_not_before clock now (receipt.completed_at ∷ [])
    ok receipt

  unfoldable pub collect_receipts :
      String → String → ℕ → List WriteOperation → Database → Result (List OperationReceipt)
  unfolding collect_receipt
  collect_receipts application_id now index [] db = ok []
  collect_receipts application_id now index (operation ∷ operations) db = do
    receipt ← collect_receipt application_id now index operation db
    receipts ← collect_receipts application_id now (index + 1) operations db
    ok (receipt ∷ receipts)

  unfoldable pub finalize_application :
      Currentness → String → String → String → Database → Result (ApplicationExecution × Database)
  finalize_application current application_id state_digest now db = do
    require_orchestration caller
    current 0
    row ← or_raise (lookup application_id db.application_execution) application_not_found
    previous ← read_row row
    raise_if (not (is_managed previous)) application_orchestration_policy_mismatch
    raise_if
        (not (verify_execution digests.states previous)
          || (previous.state_digest != state_digest
              || (previous.state != partially_applied
                  || (previous.next_operation_index != length context.expected_operations
                      || (not (is_none previous.owner_id)
                          || not (is_none previous.current_attempt_id))))))
        application_finalization_invalid
    started ← execution_timestamp clock previous.started_at
    updated ← execution_timestamp clock previous.updated_at
    receipts ← collect_receipts application_id now 0 context.expected_operations db
    require_clock_not_before clock now (previous.started_at ∷ previous.updated_at ∷ [])
    app_receipt ← new_application_receipt digests context (current 1) (map receipt_ref receipts) now
    current 2
    next_state ←
        continue_execution_state digests context (current 3) previous (record (unchanged previous) {
          state = applied;
          completed_at = some now;
          updated_at = now;
        })
    current 4
    let stored_state = with_state_digest digests.states next_state
    application_receipts ← insert application_id app_receipt db.application_receipts
    ok (
      stored_state,
      record db {
        application_execution = update application_id stored_state db.application_execution;
        application_receipts = application_receipts;
      },
    )
