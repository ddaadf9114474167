-- ===== src/Store/Claim.antt =====
-- How execution_store.py creates an application and claims its next operation, for the Applier. A
-- method is one transaction: an exception rolls it back, so there are new tables only where it returns.
pub mod Facts
use delivery_system.Base.{
  ℕ_eq, String, String_eq, List_eq, Option_eq, [], ◌∷◌, Bool, not, ◌&&◌, ◌||◌, none, some, ◌==◌,
  ◌!=◌, leb, length,
}
use delivery_system.Errors.{
  Result, ok, ◌>>=◌, ◌>>◌, raise_if, or_raise, application_initial_state_invalid,
  runtime_authority_required, application_binding_conflict,
  application_orchestration_policy_mismatch, application_coordination_invalid,
  application_not_found, application_state_stale, application_claim_unavailable,
  application_already_complete,
}
use delivery_system.Identity.{ApplicationIdentity_eq, CredentialContinuityAnchor_eq}
use delivery_system.Execution.{
  pending, applying, Status_eq, ApplicationExecution, OperationAttempt, is_none, is_claimable,
  applier_orchestration_policy, with_state_digest, verify_execution, with_attempt_digest,
}
use delivery_system.Receipts.{Digests}
use delivery_system.Context.{
  ExecutionContext, Currentness, unchanged, context_application_id, continue_execution_state,
  new_attempt,
}
use delivery_system.Table.{OperationKey_eq, Row, read_row, lookup, update, insert}
use delivery_system.Store.{
  Database, Caller, require_orchestration, Clock, require_clock_not_before, is_owner_id, Live,
}

unfoldable pub is_managed : ApplicationExecution → Bool
is_managed s = s.orchestration_policy == some applier_orchestration_policy

-- The starting point that `create_execution_if_absent` accepts.
unfoldable pub is_initial : ApplicationExecution → Bool
unfolding is_none
is_initial s =
    s.state == pending
    && (s.next_operation_index == 0
        && (is_none s.owner_id
            && (is_none s.current_attempt_id
                && (is_none s.recovery_code
                    && (s.operation_receipt_refs == [] && is_none s.completed_at)))))

module _ (digests : Digests) (clock : Clock) (caller : Caller) (context : ExecutionContext) where
  -- `row is None`: the record is inserted.
  unfoldable pub insert_execution :
      ApplicationExecution → Database → Result (ApplicationExecution × Database)
  insert_execution state db = do
    let candidate = with_state_digest digests.states state
    table ← insert state.application_id candidate db.application_execution
    ok (candidate, record db { application_execution = table })

  -- The row found: it is returned as it is, where it is the same application's.
  unfoldable pub accept_existing :
      ApplicationExecution
      → Row ApplicationExecution
      → Database
      → Result (ApplicationExecution × Database)
  accept_existing state row db = do
    existing ← read_row row
    raise_if
        (not (verify_execution digests.states existing)
          || (existing.identity != state.identity
              || existing.continuity_anchor != state.continuity_anchor))
        application_binding_conflict
    raise_if (not (is_managed existing)) application_orchestration_policy_mismatch
    ok (existing, db)

  unfoldable pub create_execution_if_absent :
      Currentness → Live ApplicationExecution → Database → Result (ApplicationExecution × Database)
  create_execution_if_absent current live db = do
    let state = live.artifact
    require_orchestration caller
    raise_if (not (is_initial state)) application_initial_state_invalid
    raise_if (not live.owned) runtime_authority_required
    current 0
    raise_if (not live.registered) runtime_authority_required
    elim (lookup state.application_id db.application_execution) [
      | none ↦ insert_execution state db
      | some row ↦ accept_existing state row db
    ]

  unfoldable pub claim_next_operation :
      Currentness
      → String
      → String
      → String
      → String
      → Database
      → Result (ApplicationExecution × OperationAttempt × Database)
  claim_next_operation current application_id expected_digest owner_id now db = do
    require_orchestration caller
    raise_if (not (is_owner_id owner_id)) application_coordination_invalid
    current 0
    raise_if (application_id != context_application_id digests context) application_binding_conflict
    row ← or_raise (lookup application_id db.application_execution) application_not_found
    previous ← read_row row
    raise_if (not (is_managed previous)) application_orchestration_policy_mismatch
    raise_if
        (not (verify_execution digests.states previous) || previous.state_digest != expected_digest)
        application_state_stale
    raise_if
        (not (is_claimable previous.state)
          || (not (is_none previous.owner_id) || not (is_none previous.current_attempt_id)))
        application_claim_unavailable
    raise_if (leb (length context.expected_operations) previous.next_operation_index)
        application_already_complete
    require_clock_not_before clock now (previous.started_at ∷ previous.updated_at ∷ [])
    attempt ← new_attempt digests context (current 1) previous.next_operation_index now
    require_clock_not_before clock attempt.updated_at (attempt.started_at ∷ [])
    candidate ←
        continue_execution_state digests context (current 2) previous (record (unchanged previous) {
          state = applying;
          owner_id = some owner_id;
          current_attempt_id = some attempt.operation_identity;
          updated_at = now;
        })
    current 3
    current 4
    let claimed = with_state_digest digests.states candidate
    let claim = with_attempt_digest digests.states attempt
    attempts ←
        insert
          (record { application = attempt.application_id; operation = attempt.operation_identity })
          claim db.operation_attempts
    ok (
      claimed,
      claim,
      record db {
        application_execution = update application_id claimed db.application_execution;
        operation_attempts = attempts;
      },
    )
