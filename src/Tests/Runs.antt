-- ===== src/Tests/Runs.antt =====
-- The runs of a concrete application of two operations.
use delivery_system.Base.{
  String-discrete, Option-discrete, List-discrete, ℕ_eq, String_eq, Option_eq, List_eq, refl, ◌≡◌,
  String, true, [],
}
use delivery_system.Identity.{
  ApplicationIdentity-discrete, ContinuityMode-discrete, CredentialContinuityAnchor-discrete,
  ApplicationIdentity_eq, CredentialContinuityAnchor_eq, anchor_of, application_id,
  operation_identity, request_identity, operation_receipt_id, application_receipt_id,
}
use delivery_system.Execution.{
  failed, Status-discrete, Status_eq, is_attempt_state, is_none, is_claimable, check_execution,
  execution_payload, with_state_digest, verify_execution, check_attempt, attempt_payload,
  with_attempt_digest, verify_attempt, ApplicationExecution, OperationAttempt,
}
use delivery_system.Receipts.{
  ReceiptRef-discrete, ReceiptRef_eq, receipt_payload, with_receipt_digest, verify_receipt,
  check_application_receipt, application_receipt_payload, with_application_receipt_digest,
}
use delivery_system.Context.{
  unchanged, context_application_id, continued, continue_execution_state, first_attempt,
  operation_at, new_attempt, continued_attempt, continue_attempt, new_application_receipt,
}
use delivery_system.Table.{read_row, OperationKey-discrete, OperationKey_eq, lookup, update, insert}
use delivery_system.Store.{
  Database, Live, require_orchestration, execution_timestamp, not_before_each,
  require_clock_not_before, is_owner_id,
}
use delivery_system.Store.Claim.{
  is_managed, is_initial, insert_execution, accept_existing, create_execution_if_absent,
  claim_next_operation,
}
use delivery_system.Store.Outcome.{
  is_settlement, load_claim, complete_operation_success, settle_operation,
}
use delivery_system.Store.Finalize.{
  receipt_ref, collect_receipt, collect_receipts, finalize_application,
}
use delivery_system.WriteOperations.{
  create_issue, OperationKind-discrete, WriteOperation-discrete, OperationKind_eq,
  WriteOperation_eq,
}
use delivery_system.Errors.{other, Result, ok}
use delivery_system.Store.Exclusion.{Claims, Ends, completed}
use delivery_system.Receipts.{OperationReceipt}
use delivery_system.Tests.Fixtures.{
  digests, clock, caller, context, always, initial_state, empty, owner, result_or, receipt_of,
}

abbrev pub application : String
application = "application-preview"

abbrev pub created : ApplicationExecution × Database
created =
    result_or (initial_state, empty)
      (create_execution_if_absent digests clock caller context always
        (record { artifact = initial_state; owned = true; registered = true }) empty)

abbrev pub claim_of :
    String → String → Database → Result (ApplicationExecution × OperationAttempt × Database)
claim_of digest now db =
    claim_next_operation digests clock caller context always application digest owner now db

abbrev pub no_attempt : OperationAttempt
no_attempt =
    first_attempt digests context 0
      (record { operation_kind = create_issue; client_refs = []; depends_on = [] }) "10:00Z"

abbrev pub claimed_first : ApplicationExecution × OperationAttempt × Database
claimed_first =
    result_or (initial_state, no_attempt, empty) (claim_of "state at 10:00Z" "10:01Z" created.1)

abbrev pub complete_of :
    String → String → Live OperationReceipt → Database → Result (ApplicationExecution × Database)
complete_of attempt attempt_digest live db =
    complete_operation_success digests clock caller context always application "state at 10:01Z"
      attempt attempt_digest owner live "10:01Z" db

abbrev pub completed_first : ApplicationExecution × Database
completed_first =
    result_or (initial_state, empty)
      (complete_of "operation-first" "attempt at 10:01Z" (receipt_of "operation-first" 0 "a")
        claimed_first.2)

abbrev pub claimed_second : ApplicationExecution × OperationAttempt × Database
claimed_second =
    result_or (initial_state, no_attempt, empty)
      (claim_of "state at 10:01Z" "10:01Z" completed_first.1)

abbrev pub completed_second : ApplicationExecution × Database
completed_second =
    result_or (initial_state, empty)
      (complete_of "operation-second" "attempt at 10:01Z" (receipt_of "operation-second" 1 "b")
        claimed_second.2)

abbrev pub settle_of : String → Database → Result (ApplicationExecution × Database)
settle_of now db =
    settle_operation digests clock caller context always application "state at 10:01Z"
      "operation-first" "attempt at 10:01Z" owner failed (other "rejected") now db

abbrev pub settled_first : ApplicationExecution × Database
settled_first = result_or (initial_state, empty) (settle_of "10:01Z" claimed_first.2)

abbrev pub finalize_of : String → Database → Result (ApplicationExecution × Database)
finalize_of now db =
    finalize_application digests clock caller context always application "state at 10:01Z" now db

abbrev pub finalized_run : ApplicationExecution × Database
finalized_run = result_or (initial_state, empty) (finalize_of "10:02Z" completed_second.1)

pub first_claim : Claims digests clock caller context application created.1 claimed_first.2
unfolding String-discrete Option-discrete List-discrete ℕ_eq String_eq Option_eq List_eq
    ApplicationIdentity-discrete ContinuityMode-discrete CredentialContinuityAnchor-discrete
    ApplicationIdentity_eq CredentialContinuityAnchor_eq anchor_of application_id operation_identity
    request_identity operation_receipt_id application_receipt_id Status-discrete Status_eq
    is_attempt_state is_none is_claimable check_execution execution_payload with_state_digest
    verify_execution check_attempt attempt_payload with_attempt_digest verify_attempt
    ReceiptRef-discrete ReceiptRef_eq receipt_payload with_receipt_digest verify_receipt
    check_application_receipt application_receipt_payload with_application_receipt_digest unchanged
    context_application_id continued continue_execution_state first_attempt operation_at new_attempt
    continued_attempt continue_attempt new_application_receipt read_row OperationKey-discrete
    OperationKey_eq lookup update insert require_orchestration execution_timestamp not_before_each
    require_clock_not_before is_owner_id is_managed is_initial insert_execution accept_existing
    create_execution_if_absent claim_next_operation is_settlement load_claim
    complete_operation_success settle_operation receipt_ref collect_receipt collect_receipts
    finalize_application OperationKind-discrete WriteOperation-discrete OperationKind_eq
    WriteOperation_eq
first_claim = record {
  current = always;
  digest = "state at 10:00Z";
  owner_id = owner;
  now = "10:01Z";
  state = claimed_first.0;
  attempt = claimed_first.1;
  returns = refl;
}

pub first_completion_returns :
    complete_of "operation-first" "attempt at 10:01Z"
      (receipt_of "operation-first" 0 "a")
      claimed_first.2
    ≡ ok completed_first
unfolding String-discrete Option-discrete List-discrete ℕ_eq String_eq Option_eq List_eq
    ApplicationIdentity-discrete ContinuityMode-discrete CredentialContinuityAnchor-discrete
    ApplicationIdentity_eq CredentialContinuityAnchor_eq anchor_of application_id operation_identity
    request_identity operation_receipt_id application_receipt_id Status-discrete Status_eq
    is_attempt_state is_none is_claimable check_execution execution_payload with_state_digest
    verify_execution check_attempt attempt_payload with_attempt_digest verify_attempt
    ReceiptRef-discrete ReceiptRef_eq receipt_payload with_receipt_digest verify_receipt
    check_application_receipt application_receipt_payload with_application_receipt_digest unchanged
    context_application_id continued continue_execution_state first_attempt operation_at new_attempt
    continued_attempt continue_attempt new_application_receipt read_row OperationKey-discrete
    OperationKey_eq lookup update insert require_orchestration execution_timestamp not_before_each
    require_clock_not_before is_owner_id is_managed is_initial insert_execution accept_existing
    create_execution_if_absent claim_next_operation is_settlement load_claim
    complete_operation_success settle_operation receipt_ref collect_receipt collect_receipts
    finalize_application OperationKind-discrete WriteOperation-discrete OperationKind_eq
    WriteOperation_eq
first_completion_returns = refl

pub first_end : Ends digests clock caller context application claimed_first.2 completed_first.1
first_end =
    completed always "state at 10:01Z" "operation-first" "attempt at 10:01Z" owner
      (receipt_of "operation-first" 0 "a") "10:01Z" completed_first.0 first_completion_returns

pub second_claim :
    Claims digests clock caller context application completed_first.1 claimed_second.2
unfolding String-discrete Option-discrete List-discrete ℕ_eq String_eq Option_eq List_eq
    ApplicationIdentity-discrete ContinuityMode-discrete CredentialContinuityAnchor-discrete
    ApplicationIdentity_eq CredentialContinuityAnchor_eq anchor_of application_id operation_identity
    request_identity operation_receipt_id application_receipt_id Status-discrete Status_eq
    is_attempt_state is_none is_claimable check_execution execution_payload with_state_digest
    verify_execution check_attempt attempt_payload with_attempt_digest verify_attempt
    ReceiptRef-discrete ReceiptRef_eq receipt_payload with_receipt_digest verify_receipt
    check_application_receipt application_receipt_payload with_application_receipt_digest unchanged
    context_application_id continued continue_execution_state first_attempt operation_at new_attempt
    continued_attempt continue_attempt new_application_receipt read_row OperationKey-discrete
    OperationKey_eq lookup update insert require_orchestration execution_timestamp not_before_each
    require_clock_not_before is_owner_id is_managed is_initial insert_execution accept_existing
    create_execution_if_absent claim_next_operation is_settlement load_claim
    complete_operation_success settle_operation receipt_ref collect_receipt collect_receipts
    finalize_application OperationKind-discrete WriteOperation-discrete OperationKind_eq
    WriteOperation_eq
second_claim = record {
  current = always;
  digest = "state at 10:01Z";
  owner_id = owner;
  now = "10:01Z";
  state = claimed_second.0;
  attempt = claimed_second.1;
  returns = refl;
}

pub finalization_returns : finalize_of "10:02Z" completed_second.1 ≡ ok finalized_run
unfolding String-discrete Option-discrete List-discrete ℕ_eq String_eq Option_eq List_eq
    ApplicationIdentity-discrete ContinuityMode-discrete CredentialContinuityAnchor-discrete
    ApplicationIdentity_eq CredentialContinuityAnchor_eq anchor_of application_id operation_identity
    request_identity operation_receipt_id application_receipt_id Status-discrete Status_eq
    is_attempt_state is_none is_claimable check_execution execution_payload with_state_digest
    verify_execution check_attempt attempt_payload with_attempt_digest verify_attempt
    ReceiptRef-discrete ReceiptRef_eq receipt_payload with_receipt_digest verify_receipt
    check_application_receipt application_receipt_payload with_application_receipt_digest unchanged
    context_application_id continued continue_execution_state first_attempt operation_at new_attempt
    continued_attempt continue_attempt new_application_receipt read_row OperationKey-discrete
    OperationKey_eq lookup update insert require_orchestration execution_timestamp not_before_each
    require_clock_not_before is_owner_id is_managed is_initial insert_execution accept_existing
    create_execution_if_absent claim_next_operation is_settlement load_claim
    complete_operation_success settle_operation receipt_ref collect_receipt collect_receipts
    finalize_application OperationKind-discrete WriteOperation-discrete OperationKind_eq
    WriteOperation_eq
finalization_returns = refl

pub settlement_returns : settle_of "10:01Z" claimed_first.2 ≡ ok settled_first
unfolding String-discrete Option-discrete List-discrete ℕ_eq String_eq Option_eq List_eq
    ApplicationIdentity-discrete ContinuityMode-discrete CredentialContinuityAnchor-discrete
    ApplicationIdentity_eq CredentialContinuityAnchor_eq anchor_of application_id operation_identity
    request_identity operation_receipt_id application_receipt_id Status-discrete Status_eq
    is_attempt_state is_none is_claimable check_execution execution_payload with_state_digest
    verify_execution check_attempt attempt_payload with_attempt_digest verify_attempt
    ReceiptRef-discrete ReceiptRef_eq receipt_payload with_receipt_digest verify_receipt
    check_application_receipt application_receipt_payload with_application_receipt_digest unchanged
    context_application_id continued continue_execution_state first_attempt operation_at new_attempt
    continued_attempt continue_attempt new_application_receipt read_row OperationKey-discrete
    OperationKey_eq lookup update insert require_orchestration execution_timestamp not_before_each
    require_clock_not_before is_owner_id is_managed is_initial insert_execution accept_existing
    create_execution_if_absent claim_next_operation is_settlement load_claim
    complete_operation_success settle_operation receipt_ref collect_receipt collect_receipts
    finalize_application OperationKind-discrete WriteOperation-discrete OperationKind_eq
    WriteOperation_eq
settlement_returns = refl
