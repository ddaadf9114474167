-- ===== src/Tests/Generic.antt =====
-- Reads of what a completion stored, and the generic methods, at concrete inputs.
use delivery_system.Base.{
  ◌≢◌, String-discrete, Option-discrete, List-discrete, ℕ_eq, String_eq, Option_eq, List_eq, refl,
  ◌≡◌, some, none, true, false, [], ◌∷◌,
}
use delivery_system.Identity.{
  ApplicationIdentity-discrete, ContinuityMode-discrete, CredentialContinuityAnchor-discrete,
  AuthorityProvenance-discrete, AuthorityProvenance_eq, ApplicationIdentity_eq,
  CredentialContinuityAnchor_eq, anchor_of, application_id, operation_identity, request_identity,
  operation_receipt_id, application_receipt_id,
}
use delivery_system.Execution.{
  Status-discrete, Status_eq, is_attempt_state, is_none, is_claimable, check_execution,
  execution_payload, with_state_digest, verify_execution, check_attempt, attempt_payload,
  with_attempt_digest, verify_attempt, ApplicationExecution, applying,
}
use delivery_system.Receipts.{
  ReceiptRef-discrete, ReceiptRef_eq, receipt_payload, with_receipt_digest, verify_receipt,
  check_application_receipt, application_receipt_payload, with_application_receipt_digest,
}
use delivery_system.Context.{
  unchanged, context_application_id, continued, continue_execution_state, first_attempt,
  operation_at, new_attempt, continued_attempt, continue_attempt, new_application_receipt,
}
use delivery_system.Table.{
  loads, read_row, OperationKey-discrete, OperationKey_eq, lookup, update, insert,
}
use delivery_system.Store.{
  Database, Caller, Live, require_orchestration, execution_timestamp, not_before_each,
  require_clock_not_before, is_owner_id,
}
use delivery_system.Store.Claim.{
  is_managed, is_initial, insert_execution, accept_existing, create_execution_if_absent,
  claim_next_operation,
}
use delivery_system.Store.Outcome.{
  is_settlement, load_claim, complete_operation_success, settle_operation,
}
use delivery_system.Store.Finalize.{
  receipt_ref, collect_receipt, collect_receipts, finalize_application,
}
use delivery_system.WriteOperations.{
  OperationKind-discrete, WriteOperation-discrete, OperationKind_eq, WriteOperation_eq,
}
use delivery_system.Errors.{ok}
use delivery_system.Execution.Transitions.{
  attempt_transition, application_transition, validate_attempt_transition, all_but_last, is_missing,
  validate_coordination, validate_application_transition,
}
use delivery_system.Store.Read.{
  recode, load_execution_state, get_attempt, get_operation_receipt, get_application_receipt,
  recode_receipt, replay_receipts, are_indexed, validate_replay, replayed, get_execution,
  validate_claim,
}
use delivery_system.Store.Read.Stored.{complete-get_operation_receipt}
use delivery_system.Store.Generic.{
  reject_generic_when_orchestrated, validate_live, find_receipt, last_ref, reject_durable_managed,
  create_attempt_if_absent, transition_attempt, check_appended, transition_execution,
}
use delivery_system.Store.Generic.Unmanaged.{
  IsTransition, transition_execution-IsTransition, generic_spares_managed,
}
use delivery_system.Tests.Fixtures.{
  digests, clock, caller, context, always, owner, receipt_of, initial_state, empty, result_or,
}
use delivery_system.Tests.Runs.{
  application, claimed_first, completed_first, first_completion_returns,
}

digest_nonempty :
    digests.receipt_payload_digest
      (receipt_payload digests (receipt_of "operation-first" 0 "a").artifact)
    ≢ ""
unfolding receipt_payload
digest_nonempty e = cc

complete-get_operation_receipt_example :
    get_operation_receipt digests "workspace" application "operation-first" completed_first.1
    ≡ ok (with_receipt_digest digests (receipt_of "operation-first" 0 "a").artifact)
complete-get_operation_receipt_example =
    complete-get_operation_receipt digests clock caller context "workspace" always application
      "state at 10:01Z" "operation-first" "attempt at 10:01Z" owner
      (receipt_of "operation-first" 0 "a") "10:01Z" claimed_first.2 completed_first.0
      completed_first.1 refl digest_nonempty first_completion_returns

abbrev live_of {ℓ} : {A : Type ℓ} → A → Live A
live_of a = record { artifact = a; owned = true; registered = true }

abbrev plain_caller : Caller
plain_caller = record { orchestration_enabled = false; capability_valid = false }

-- What the first claim stores.
computed_claim :
    (lookup application claimed_first.2.application_execution ≡ some (loads claimed_first.0))
    × (is_managed claimed_first.0 ≡ true)
    × (claimed_first.1.application_id ≡ claimed_first.0.application_id)
    × (lookup claimed_first.0.application_id claimed_first.2.application_execution
        ≡ some (loads claimed_first.0))
unfolding String-discrete Option-discrete List-discrete ℕ_eq String_eq Option_eq List_eq
    ApplicationIdentity-discrete ContinuityMode-discrete CredentialContinuityAnchor-discrete
    AuthorityProvenance-discrete AuthorityProvenance_eq ApplicationIdentity_eq
    CredentialContinuityAnchor_eq anchor_of application_id operation_identity request_identity
    operation_receipt_id application_receipt_id Status-discrete Status_eq is_attempt_state is_none
    is_claimable check_execution execution_payload with_state_digest verify_execution check_attempt
    attempt_payload with_attempt_digest verify_attempt ReceiptRef-discrete ReceiptRef_eq
    receipt_payload with_receipt_digest verify_receipt check_application_receipt
    application_receipt_payload with_application_receipt_digest unchanged context_application_id
    continued continue_execution_state first_attempt operation_at new_attempt continued_attempt
    continue_attempt new_application_receipt read_row OperationKey-discrete OperationKey_eq lookup
    update insert require_orchestration execution_timestamp not_before_each require_clock_not_before
    is_owner_id is_managed is_initial insert_execution accept_existing create_execution_if_absent
    claim_next_operation is_settlement load_claim complete_operation_success settle_operation
    receipt_ref collect_receipt collect_receipts finalize_application OperationKind-discrete
    WriteOperation-discrete OperationKind_eq WriteOperation_eq
computed_claim = ((refl), (refl), (refl), (refl))

managed_row :
    lookup application claimed_first.2.application_execution ≡ some (loads claimed_first.0)
managed_row = computed_claim.0

managed_record : is_managed claimed_first.0 ≡ true
managed_record = computed_claim.1

attempt_application : claimed_first.1.application_id ≡ claimed_first.0.application_id
attempt_application = computed_claim.2

row_of_record :
    lookup claimed_first.0.application_id claimed_first.2.application_execution
    ≡ some (loads claimed_first.0)
row_of_record = computed_claim.3

generic_spares_managed_example :
    (create_attempt_if_absent digests "workspace" plain_caller
        (ok tt)
        (live_of claimed_first.1)
        claimed_first.2
      ≢ ok (claimed_first.1, claimed_first.2))
    × (transition_attempt digests "workspace" plain_caller
          (ok tt)
          "state at 10:01Z"
          (live_of claimed_first.1)
          claimed_first.2
        ≢ ok (claimed_first.1, claimed_first.2))
    × (transition_execution digests "workspace" plain_caller
          (ok tt)
          context.expected_operations
          "state at 10:01Z"
          (live_of claimed_first.0)
          claimed_first.2
        ≢ ok (claimed_first.0, claimed_first.2))
generic_spares_managed_example =
    generic_spares_managed digests "workspace" plain_caller (ok tt) context.expected_operations
      "state at 10:01Z" (live_of claimed_first.1) (live_of claimed_first.0) claimed_first.2
      claimed_first.0 (claimed_first.1, claimed_first.2) (claimed_first.0, claimed_first.2)
      attempt_application refl row_of_record managed_record

abbrev plain_state : ApplicationExecution
plain_state = record initial_state { orchestration_policy = none }

abbrev plain_claimed : ApplicationExecution
plain_claimed = record plain_state {
  state = applying;
  owner_id = some owner;
  current_attempt_id = some "operation-first";
  updated_at = "10:01Z";
  state_digest = "";
}

abbrev plain : Database
plain = record empty { application_execution = (application, loads plain_state) ∷ [] }

abbrev plain_moved : ApplicationExecution × Database
plain_moved =
    result_or (plain_state, empty)
      (transition_execution digests "workspace" plain_caller (ok tt) context.expected_operations
        "state at 10:00Z" (live_of plain_claimed) plain)

plain_returns :
    transition_execution digests "workspace" plain_caller
      (ok tt)
      context.expected_operations
      "state at 10:00Z"
      (live_of plain_claimed)
      plain
    ≡ ok plain_moved
unfolding String-discrete Option-discrete List-discrete ℕ_eq String_eq Option_eq List_eq
    ApplicationIdentity-discrete ContinuityMode-discrete CredentialContinuityAnchor-discrete
    AuthorityProvenance-discrete AuthorityProvenance_eq ApplicationIdentity_eq
    CredentialContinuityAnchor_eq anchor_of application_id operation_identity request_identity
    operation_receipt_id application_receipt_id Status-discrete Status_eq is_attempt_state is_none
    is_claimable check_execution execution_payload with_state_digest verify_execution check_attempt
    attempt_payload with_attempt_digest verify_attempt ReceiptRef-discrete ReceiptRef_eq
    receipt_payload with_receipt_digest verify_receipt check_application_receipt
    application_receipt_payload with_application_receipt_digest unchanged context_application_id
    continued continue_execution_state first_attempt operation_at new_attempt continued_attempt
    continue_attempt new_application_receipt read_row OperationKey-discrete OperationKey_eq lookup
    update insert require_orchestration execution_timestamp not_before_each require_clock_not_before
    is_owner_id is_managed is_initial insert_execution accept_existing create_execution_if_absent
    claim_next_operation is_settlement load_claim complete_operation_success settle_operation
    receipt_ref collect_receipt collect_receipts finalize_application OperationKind-discrete
    WriteOperation-discrete OperationKind_eq WriteOperation_eq recode load_execution_state
    get_attempt get_operation_receipt get_application_receipt recode_receipt replay_receipts
    are_indexed validate_replay replayed get_execution validate_claim
    reject_generic_when_orchestrated validate_live find_receipt last_ref reject_durable_managed
    create_attempt_if_absent transition_attempt check_appended transition_execution
    attempt_transition application_transition validate_attempt_transition all_but_last is_missing
    validate_coordination validate_application_transition
plain_returns = refl

transition_execution-IsTransition_example :
    IsTransition digests "workspace" plain_caller "state at 10:00Z" plain_claimed plain
      plain_moved.0 plain_moved.1
transition_execution-IsTransition_example =
    transition_execution-IsTransition digests "workspace" plain_caller (ok tt)
      context.expected_operations "state at 10:00Z" (live_of plain_claimed) plain plain_moved.0
      plain_moved.1 plain_returns
