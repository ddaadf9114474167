-- ===== src/Store/Outcome.antt =====
-- How execution_store.py ends a claimed operation, with success or without.
pub mod Facts
use delivery_system.Base.{
  ◌+◌, ℕ_eq, String, String_eq, List_eq, Option_eq, [], ◌∷◌, ◌++◌, Bool, true, false, not, ◌||◌,
  none, some, ◌!=◌,
}
use delivery_system.Errors.{
  Code, Result, ok, ◌>>=◌, ◌>>◌, raise_if, or_raise, runtime_authority_required,
  application_orchestration_policy_mismatch, application_claim_stale, receipt_binding_conflict,
  application_state_transition_invalid,
}
use delivery_system.Identity.{ApplicationIdentity_eq, CredentialContinuityAnchor_eq}
use delivery_system.Execution.{
  Status, applying, partially_applied, failed, blocked, outcome_unknown, applied, Status_eq,
  ApplicationExecution, OperationAttempt, with_state_digest, verify_execution, with_attempt_digest,
  verify_attempt,
}
use delivery_system.Receipts.{Digests, OperationReceipt, with_receipt_digest}
use delivery_system.Context.{
  ExecutionContext, Currentness, unchanged, continue_execution_state, continue_attempt,
}
use delivery_system.Table.{OperationKey_eq, read_row, lookup, update, insert}
use delivery_system.Store.Claim.{is_managed}
use delivery_system.Store.{
  Database, Caller, require_orchestration, Clock, require_clock_not_before, Live,
}

-- `state_name not in {"Failed", "Blocked", "OutcomeUnknown"}` is refused.
unfoldable pub is_settlement : Status → Bool
is_settlement failed = true
is_settlement blocked = true
is_settlement outcome_unknown = true
is_settlement _ = false

module _ (digests : Digests) (clock : Clock) (caller : Caller) (context : ExecutionContext) where
  -- The rows of an application and of its current attempt, as `complete_operation_success` and
  -- `settle_operation` load and check them.
  unfoldable pub load_claim :
      String
      → String
      → String
      → String
      → String
      → Database
      → Result (ApplicationExecution × OperationAttempt)
  load_claim application_id state_digest attempt_id attempt_digest owner_id db = do
    app_row ← or_raise (lookup application_id db.application_execution) application_claim_stale
    attempt_row ←
        or_raise
          (lookup (record { application = application_id; operation = attempt_id })
            db.operation_attempts)
          application_claim_stale
    previous ← read_row app_row
    attempt ← read_row attempt_row
    raise_if (not (is_managed previous)) application_orchestration_policy_mismatch
    raise_if
        (not (verify_execution digests.states previous)
          || (previous.state_digest != state_digest
              || (previous.state != applying
                  || (previous.owner_id != some owner_id
                      || (previous.current_attempt_id != some attempt_id
                          || (not (verify_attempt digests.states attempt)
                              || (attempt.attempt_digest != attempt_digest
                                  || attempt.state != applying)))))))
        application_claim_stale
    ok (previous, attempt)

  unfoldable pub complete_operation_success :
      Currentness
      → String
      → String
      → String
      → String
      → String
      → Live OperationReceipt
      → String
      → Database
      → Result (ApplicationExecution × Database)
  complete_operation_success current application_id state_digest attempt_id attempt_digest owner_id
        live now db =
      do
        require_orchestration caller
        current 0
        (previous, attempt) ←
            load_claim application_id state_digest attempt_id attempt_digest owner_id db
        let receipt = live.artifact
        raise_if
            (not live.owned
              || (receipt.application_id != application_id
                  || (receipt.operation_index != attempt.operation_index
                      || receipt.operation_identity != attempt.operation_identity)))
            receipt_binding_conflict
        require_clock_not_before clock now (
            previous.started_at ∷ previous.updated_at ∷ attempt.started_at ∷ attempt.updated_at
            ∷ [])
        require_clock_not_before clock now (receipt.started_at ∷ receipt.completed_at ∷ [])
        current 1
        raise_if (not live.registered) runtime_authority_required
        let stored_receipt = with_receipt_digest digests receipt
        next_attempt ←
            continue_attempt digests context (current 2) attempt applied now attempt.failure_code
        next_state ←
            continue_execution_state digests context (current 3) previous
              (record (unchanged previous) {
                state = partially_applied;
                next_operation_index = previous.next_operation_index + 1;
                operation_receipt_refs =
                    previous.operation_receipt_refs ++ stored_receipt.operation_receipt_id ∷ [];
                owner_id = none;
                current_attempt_id = none;
                updated_at = now;
              })
        current 4
        current 5
        receipts ←
            insert
              (record {
                application = application_id;
                operation = stored_receipt.operation_identity;
              })
              stored_receipt db.operation_receipts
        let stored_state = with_state_digest digests.states next_state
        ok (
          stored_state,
          record db {
            application_execution = update application_id stored_state db.application_execution;
            operation_attempts =
                update (record { application = application_id; operation = attempt_id })
                  (with_attempt_digest digests.states next_attempt) db.operation_attempts;
            operation_receipts = receipts;
          },
        )

  unfoldable pub settle_operation :
      Currentness
      → String
      → String
      → String
      → String
      → String
      → Status
      → Code
      → String
      → Database
      → Result (ApplicationExecution × Database)
  settle_operation current application_id state_digest attempt_id attempt_digest owner_id state_name
        code now db =
      do
        require_orchestration caller
        raise_if (not (is_settlement state_name)) application_state_transition_invalid
        current 0
        (previous, attempt) ←
            load_claim application_id state_digest attempt_id attempt_digest owner_id db
        next_attempt ←
            continue_attempt digests context (current 1) attempt state_name now (some code)
        next_state ←
            continue_execution_state digests context (current 2) previous
              (record (unchanged previous) {
                state = state_name;
                owner_id = none;
                recovery_code = some code;
                updated_at = now;
              })
        current 3
        current 4
        let stored_state = with_state_digest digests.states next_state
        ok (
          stored_state,
          record db {
            application_execution = update application_id stored_state db.application_execution;
            operation_attempts =
                update (record { application = application_id; operation = attempt_id })
                  (with_attempt_digest digests.states next_attempt) db.operation_attempts;
          },
        )
