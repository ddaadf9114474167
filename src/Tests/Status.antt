-- ===== src/Tests/Status.antt =====
-- What a status read accepts, on a concrete application.
use delivery_system.Base.{
  sym, ◌∙◌, String-discrete, Option-discrete, List-discrete, ℕ_eq, String_eq, Option_eq, List_eq,
  refl, ◌≡◌, some, false, [], ◌∷◌,
}
use delivery_system.Identity.{
  ApplicationIdentity-discrete, ContinuityMode-discrete, CredentialContinuityAnchor-discrete,
  ApplicationIdentity_eq, CredentialContinuityAnchor_eq, anchor_of, application_id,
  operation_identity, request_identity, operation_receipt_id, application_receipt_id,
}
use delivery_system.Execution.{
  failed, Status-discrete, Status_eq, is_attempt_state, is_none, is_claimable, check_execution,
  execution_payload, with_state_digest, verify_execution, check_attempt, attempt_payload,
  with_attempt_digest, verify_attempt, ApplicationExecution,
}
use delivery_system.Receipts.{
  ReceiptRef-discrete, ReceiptRef_eq, receipt_payload, with_receipt_digest, verify_receipt,
  check_application_receipt, application_receipt_payload, with_application_receipt_digest,
}
use delivery_system.Context.{
  unchanged, context_application_id, continued, continue_execution_state, first_attempt,
  operation_at, new_attempt, continued_attempt, continue_attempt, new_application_receipt,
}
use delivery_system.Table.{
  loads, read_row, OperationKey-discrete, OperationKey_eq, lookup, update, insert,
}
use delivery_system.Store.{
  Database, require_orchestration, execution_timestamp, not_before_each, require_clock_not_before,
  is_owner_id,
}
use delivery_system.Store.Claim.{
  is_managed, is_initial, insert_execution, accept_existing, create_execution_if_absent,
  claim_next_operation,
}
use delivery_system.Store.Outcome.{
  is_settlement, load_claim, complete_operation_success, settle_operation,
}
use delivery_system.Store.Finalize.{
  receipt_ref, collect_receipt, collect_receipts, finalize_application,
}
use delivery_system.WriteOperations.{
  OperationKind-discrete, WriteOperation-discrete, OperationKind_eq, WriteOperation_eq,
}
use delivery_system.Errors.{other, raise, state_integrity_invalid, ok}
use delivery_system.Execution.Transitions.{is_missing}
use delivery_system.Status.{
  is_code_missing, fields_valid, recast, check_completed_at, check_state,
  validate_execution_state_invariants,
}
use delivery_system.Status.Kept.{IsValid}
use delivery_system.Status.Written.{
  ValidRow, claim-ValidRow, complete-ValidRow, finalize-ValidRow, settle-ValidRow,
}
use delivery_system.Tests.Fixtures.{
  initial_state, empty, result_or, digests, clock, caller, context, always, owner, receipt_of,
}
use delivery_system.Tests.Runs.{
  application, created, claimed_first, completed_first, completed_second, settle_of, settled_first,
  finalized_run, first_claim, first_completion_returns, finalization_returns, settlement_returns,
}

row_of :
    (db : Database) (s : ApplicationExecution)
    → lookup application db.application_execution ≡ some (loads s)
    → IsValid clock context.expected_operations s
    → ValidRow digests clock caller context application db
row_of db s found valid t found' =
    let same : some (loads s) ≡ some (loads t) = sym found ∙ found' in
    let equal : s ≡ t = cc in rw (sym equal) valid

-- What the runs store.
computed_rows :
    (ValidRow digests clock caller context application created.1)
    × (ValidRow digests clock caller context application claimed_first.2)
    × (ValidRow digests clock caller context application completed_second.1)
    × (lookup application claimed_first.2.application_execution ≡ some (loads claimed_first.0))
    × (lookup application completed_first.1.application_execution ≡ some (loads completed_first.0))
    × (lookup application finalized_run.1.application_execution ≡ some (loads finalized_run.0))
    × (lookup application settled_first.1.application_execution ≡ some (loads settled_first.0))
    × (is_code_missing (some (other "rejected")) ≡ false)
    × ((s : ApplicationExecution)
        → lookup application claimed_first.2.application_execution ≡ some (loads s)
        → require_clock_not_before clock "10:01Z" (s.started_at ∷ s.updated_at ∷ []) ≡ ok tt)
unfolding String-discrete Option-discrete List-discrete ℕ_eq String_eq Option_eq List_eq
    ApplicationIdentity-discrete ContinuityMode-discrete CredentialContinuityAnchor-discrete
    ApplicationIdentity_eq CredentialContinuityAnchor_eq anchor_of application_id operation_identity
    request_identity operation_receipt_id application_receipt_id Status-discrete Status_eq
    is_attempt_state is_none is_claimable check_execution execution_payload with_state_digest
    verify_execution check_attempt attempt_payload with_attempt_digest verify_attempt
    ReceiptRef-discrete ReceiptRef_eq receipt_payload with_receipt_digest verify_receipt
    check_application_receipt application_receipt_payload with_application_receipt_digest unchanged
    context_application_id continued continue_execution_state first_attempt operation_at new_attempt
    continued_attempt continue_attempt new_application_receipt read_row OperationKey-discrete
    OperationKey_eq lookup update insert require_orchestration execution_timestamp not_before_each
    require_clock_not_before is_owner_id is_managed is_initial insert_execution accept_existing
    create_execution_if_absent claim_next_operation is_settlement load_claim
    complete_operation_success settle_operation receipt_ref collect_receipt collect_receipts
    finalize_application OperationKind-discrete WriteOperation-discrete OperationKind_eq
    WriteOperation_eq is_code_missing fields_valid recast check_completed_at check_state
    validate_execution_state_invariants is_missing
computed_rows = (
  (row_of created.1 created.0 refl refl),
  (row_of claimed_first.2 claimed_first.0 refl refl),
  (row_of completed_second.1 completed_second.0 refl refl),
  (refl),
  (refl),
  (refl),
  (refl),
  (refl),
  (λ s found.
      let same : some (loads claimed_first.0) ≡ some (loads s) = found in
      let equal : claimed_first.0 ≡ s = cc in rw (sym equal) refl),
)

created_valid : ValidRow digests clock caller context application created.1
created_valid = computed_rows.0

claimed_valid : ValidRow digests clock caller context application claimed_first.2
claimed_valid = computed_rows.1

completed_valid : ValidRow digests clock caller context application completed_second.1
completed_valid = computed_rows.2

claim_row : lookup application claimed_first.2.application_execution ≡ some (loads claimed_first.0)
claim_row = computed_rows.3

complete_row :
    lookup application completed_first.1.application_execution ≡ some (loads completed_first.0)
complete_row = computed_rows.4

finalize_row :
    lookup application finalized_run.1.application_execution ≡ some (loads finalized_run.0)
finalize_row = computed_rows.5

settle_row : lookup application settled_first.1.application_execution ≡ some (loads settled_first.0)
settle_row = computed_rows.6

code_named : is_code_missing (some (other "rejected")) ≡ false
code_named = computed_rows.7

time_ok :
    (s : ApplicationExecution)
    → lookup application claimed_first.2.application_execution ≡ some (loads s)
    → require_clock_not_before clock "10:01Z" (s.started_at ∷ s.updated_at ∷ []) ≡ ok tt
time_ok = computed_rows.8

claim-ValidRow_example : IsValid clock context.expected_operations claimed_first.0
claim-ValidRow_example =
    claim-ValidRow digests clock caller context application created.1 claimed_first.2 created_valid
      first_claim claimed_first.0 claim_row

complete-ValidRow_example : IsValid clock context.expected_operations completed_first.0
complete-ValidRow_example =
    complete-ValidRow digests clock caller context always application "state at 10:01Z"
      "operation-first" "attempt at 10:01Z" owner (receipt_of "operation-first" 0 "a") "10:01Z"
      claimed_first.2 completed_first.0 completed_first.1 claimed_valid first_completion_returns
      completed_first.0 complete_row

finalize-ValidRow_example : IsValid clock context.expected_operations finalized_run.0
finalize-ValidRow_example =
    finalize-ValidRow digests clock caller context always application "state at 10:01Z" "10:02Z"
      completed_second.1 finalized_run.0 finalized_run.1 completed_valid finalization_returns
      finalized_run.0 finalize_row

settle-ValidRow_example : IsValid clock context.expected_operations settled_first.0
settle-ValidRow_example =
    settle-ValidRow digests clock caller context always application "state at 10:01Z"
      "operation-first" "attempt at 10:01Z" owner failed (other "rejected") "10:01Z" claimed_first.2
      settled_first.0 settled_first.1 claimed_valid code_named time_ok settlement_returns
      settled_first.0 settle_row

-- A settlement at a time before the start returns, and a status read refuses the record that it stores.
abbrev settled_back_in_time : ApplicationExecution × Database
settled_back_in_time = result_or (initial_state, empty) (settle_of "09:59Z" claimed_first.2)

-- What that settlement and the read compute.
computed_back_in_time :
    (settle_of "09:59Z" claimed_first.2 ≡ ok settled_back_in_time)
    × (validate_execution_state_invariants clock settled_back_in_time.0 context.expected_operations
        ≡ raise state_integrity_invalid)
unfolding String-discrete Option-discrete List-discrete ℕ_eq String_eq Option_eq List_eq
    ApplicationIdentity-discrete ContinuityMode-discrete CredentialContinuityAnchor-discrete
    ApplicationIdentity_eq CredentialContinuityAnchor_eq anchor_of application_id operation_identity
    request_identity operation_receipt_id application_receipt_id Status-discrete Status_eq
    is_attempt_state is_none is_claimable check_execution execution_payload with_state_digest
    verify_execution check_attempt attempt_payload with_attempt_digest verify_attempt
    ReceiptRef-discrete ReceiptRef_eq receipt_payload with_receipt_digest verify_receipt
    check_application_receipt application_receipt_payload with_application_receipt_digest unchanged
    context_application_id continued continue_execution_state first_attempt operation_at new_attempt
    continued_attempt continue_attempt new_application_receipt read_row OperationKey-discrete
    OperationKey_eq lookup update insert require_orchestration execution_timestamp not_before_each
    require_clock_not_before is_owner_id is_managed is_initial insert_execution accept_existing
    create_execution_if_absent claim_next_operation is_settlement load_claim
    complete_operation_success settle_operation receipt_ref collect_receipt collect_receipts
    finalize_application OperationKind-discrete WriteOperation-discrete OperationKind_eq
    WriteOperation_eq is_code_missing fields_valid recast check_completed_at check_state
    validate_execution_state_invariants is_missing
computed_back_in_time = ((refl), (refl))

back_in_time_returns : settle_of "09:59Z" claimed_first.2 ≡ ok settled_back_in_time
back_in_time_returns = computed_back_in_time.0

back_in_time_refused :
    validate_execution_state_invariants clock settled_back_in_time.0 context.expected_operations
    ≡ raise state_integrity_invalid
back_in_time_refused = computed_back_in_time.1
