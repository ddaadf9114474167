-- ===== src/Tests/Applier.antt =====
-- What is proved of the Applier, on an application of two operations.
use delivery_system.Base.{
  String-discrete, Option-discrete, List-discrete, ℕ_eq, String_eq, Option_eq, List_eq, true, ℕ,
  get_elem?, refl, ◌≡◌, some, none, [], ◌∷◌, List, arith, ◌≢◌, ◌++◌, length, ◌+◌, ◌≤◌, suc,
}
use delivery_system.Value.{keys, get, nonempty_text, as_dict, is_unhashable, has_unhashable}
use delivery_system.Identity.{
  ApplicationIdentity-discrete, ContinuityMode-discrete, CredentialContinuityAnchor-discrete,
  AuthorityProvenance-discrete, AuthorityProvenance_eq, ApplicationIdentity_eq,
  CredentialContinuityAnchor_eq, check_anchor, check_identity_values, anchor_of, application_id,
  operation_identity, request_identity, operation_receipt_id, application_receipt_id,
  authority_is_compatible,
}
use delivery_system.Execution.{
  Status-discrete, Status_eq, is_attempt_state, is_none, is_claimable, check_execution,
  execution_payload, with_state_digest, verify_execution, check_attempt, attempt_payload,
  with_attempt_digest, verify_attempt, ApplicationExecution, applied, outcome_unknown,
}
use delivery_system.Receipts.{
  ReceiptRef-discrete, ReceiptRef_eq, check_remote_result, check_receipt, receipt_payload,
  with_receipt_digest, verify_receipt, check_application_receipt, application_receipt_payload,
  with_application_receipt_digest, verify_application_receipt, receipts_match, validate_against,
}
use delivery_system.Context.{
  unchanged, context_application_id, continued, continue_execution_state, first_attempt,
  operation_at, new_attempt, continued_attempt, continue_attempt, new_application_receipt,
  create_operation_receipt, new_receipt, complete_refs, create_application_receipt,
  finalize_application_receipt,
}
use delivery_system.Table.{read_row, OperationKey-discrete, OperationKey_eq, lookup, update, insert}
use delivery_system.Store.{
  require_orchestration, execution_timestamp, not_before_each, require_clock_not_before,
  is_owner_id, Database,
}
use delivery_system.Store.Claim.{
  is_managed, is_initial, insert_execution, accept_existing, create_execution_if_absent,
  claim_next_operation,
}
use delivery_system.Store.Outcome.{
  is_settlement, load_claim, complete_operation_success, settle_operation,
}
use delivery_system.Store.Finalize.{
  receipt_ref, collect_receipt, collect_receipts, finalize_application,
}
use delivery_system.Store.Read.{
  recode, load_execution_state, get_attempt, get_operation_receipt, get_application_receipt,
  recode_receipt, replay_receipts, are_indexed, validate_replay, replayed, get_execution,
  validate_claim,
}
use delivery_system.WriteOperations.{
  OperationKind-discrete, WriteOperation-discrete, OperationKind_eq, WriteOperation_eq,
}
use delivery_system.Applier.Commands.{
  split_slash, RemoteIssueReference-discrete, RemoteIssueReference_eq, join_parts,
  normalize_repository_identity, has_blank, remote_issue_reference, create_issue_command,
  relationship_command, creates,
}
use delivery_system.Applier.Render.{
  is_text_value, lacks_text, source, has_control_character, is_sequence, section, join_sections,
  check_title, render_create_issue,
}
use delivery_system.Applier.Evidence.{
  is_positive_integer, all_digits, starts_with_zero, is_numeric_id, is_any_text, is_nonempty_text,
  is_created_status, is_issue_evidence, is_relationship_evidence, check_evidence, kind_text,
  trusted_success_result, blocks_materialization, materialization_target, blocks_dispatch,
  blocks_observation, observation_code, observation_target,
}
use delivery_system.Applier.References.{
  at_key, check_hashable, item_of, after_prefix, resolve_reference, resolve_references,
  existing_refs, element_at, record_of, binding_of, unavailable, reference_of_values,
  reference_of_receipt, stored_reference, reference_from_receipt, reference_from_existing_binding,
}
use delivery_system.Applier.Materialize.{
  check_items, receipt_references, reference_of_operand, operand_references, revalidate_each,
  materialize_creation, materialize_relationship_v1, materialize_relationship_v2,
  materialize_relationship, materialize,
}
use delivery_system.Applier.Round.{
  stop, out_of_fuel, dispatching, is_contention, is_authority_invalid, has_changed, contended_code,
  ApplyResult, Dispatch, Outcome,
}
use delivery_system.Applier.Loop.{
  result_of, recover, settle, conclude, conclude_observation, record_success, after_success,
  observe_kind, observe, guarded, answered, dispatch_command, materialized, checked_command,
  contended_receipt, contended, after_claim, attempt_next, after_finalization, finish, apply_loop,
}
use delivery_system.Errors.{ok, github_write_transport_ambiguous}
use delivery_system.Tests.Fixtures.{clock, caller, context, always, initial_state, empty, result_or}
use delivery_system.Tests.Runs.{no_attempt}
use delivery_system.Tests.Apply.{
  unary_digests, unary-DistinguishesIndex, texts, content, all_succeed, second_unknown, unknown,
}
use delivery_system.Applier.Sealed.{Sealed}
use delivery_system.Applier.Trace.{TraceOf}
use delivery_system.Applier.Run.{apply_loop-Trace}
use delivery_system.Applier.Start.{apply}
use delivery_system.Applier.Promises.{AllSucceeded}
use delivery_system.Applier.Behaviour.{apply_loop-bound, apply_loop-applied, apply-returns}

abbrev started : ApplicationExecution × Database
started =
    result_or (initial_state, empty)
      (create_execution_if_absent unary_digests clock caller context always
        (record { artifact = initial_state; owned = true; registered = true }) empty)

abbrev applied_run : Outcome
applied_run =
    apply_loop unary_digests clock texts caller context content 3 all_succeed 0 started.0 started.1

abbrev unknown_run : Outcome
unknown_run =
    apply_loop unary_digests clock texts caller context content 3 second_unknown 0 started.0
      started.1

abbrev nothing : ApplyResult
nothing = record {
  application_id = "";
  state = applied;
  next_operation_index = 0;
  application_receipt_id = none;
  recovery_code = none;
}

abbrev applied_result : ApplyResult
applied_result = record {
  application_id = "application-preview";
  state = applied;
  next_operation_index = 2;
  application_receipt_id = some "application-receipt-application-preview";
  recovery_code = none;
}

abbrev unknown_result : ApplyResult
unknown_result = record {
  application_id = "application-preview";
  state = outcome_unknown;
  next_operation_index = 1;
  application_receipt_id = none;
  recovery_code = some github_write_transport_ambiguous;
}

abbrev no_dispatch : Dispatch
no_dispatch = record {
  claimed = initial_state;
  attempt = no_attempt;
  command = creates (record {
    repository_identity = "";
    client_ref = "";
    title = "";
    body = "";
    request_identity = "";
  });
  answer = ok unknown;
}

abbrev dispatch_at : ℕ → List Dispatch → Dispatch
dispatch_at i ds = elim (get_elem? ds i) [ none ↦ no_dispatch | some d ↦ d ]

abbrev first_dispatch : Dispatch
first_dispatch = dispatch_at 0 unknown_run.dispatched

abbrev second_dispatch : Dispatch
second_dispatch = dispatch_at 1 unknown_run.dispatched

-- What the two runs compute.
computed :
    (Sealed unary_digests started.0)
    × (applied_run.result ≡ some (ok applied_result))
    × (unknown_run.result ≡ some (ok unknown_result))
    × (unknown_run.dispatched ≡ (first_dispatch ∷ []) ++ second_dispatch ∷ [])
    × (second_dispatch.answer ≡ ok unknown)
    × (started.0.next_operation_index ≤ length context.expected_operations)
unfolding String-discrete Option-discrete List-discrete ℕ_eq String_eq Option_eq List_eq keys get
    nonempty_text as_dict is_unhashable has_unhashable ApplicationIdentity-discrete
    ContinuityMode-discrete CredentialContinuityAnchor-discrete AuthorityProvenance-discrete
    AuthorityProvenance_eq ApplicationIdentity_eq CredentialContinuityAnchor_eq check_anchor
    check_identity_values anchor_of application_id operation_identity request_identity
    operation_receipt_id application_receipt_id authority_is_compatible Status-discrete Status_eq
    is_attempt_state is_none is_claimable check_execution execution_payload with_state_digest
    verify_execution check_attempt attempt_payload with_attempt_digest verify_attempt
    ReceiptRef-discrete ReceiptRef_eq check_remote_result check_receipt receipt_payload
    with_receipt_digest verify_receipt check_application_receipt application_receipt_payload
    with_application_receipt_digest verify_application_receipt receipts_match validate_against
    unchanged context_application_id continued continue_execution_state first_attempt operation_at
    new_attempt continued_attempt continue_attempt new_application_receipt create_operation_receipt
    new_receipt complete_refs create_application_receipt finalize_application_receipt read_row
    OperationKey-discrete OperationKey_eq lookup update insert require_orchestration
    execution_timestamp not_before_each require_clock_not_before is_owner_id is_managed is_initial
    insert_execution accept_existing create_execution_if_absent claim_next_operation is_settlement
    load_claim complete_operation_success settle_operation receipt_ref collect_receipt
    collect_receipts finalize_application recode load_execution_state get_attempt
    get_operation_receipt get_application_receipt recode_receipt replay_receipts are_indexed
    validate_replay replayed get_execution validate_claim OperationKind-discrete
    WriteOperation-discrete OperationKind_eq WriteOperation_eq split_slash
    RemoteIssueReference-discrete RemoteIssueReference_eq join_parts normalize_repository_identity
    has_blank remote_issue_reference create_issue_command relationship_command is_text_value
    lacks_text source has_control_character is_sequence section join_sections check_title
    render_create_issue is_positive_integer all_digits starts_with_zero is_numeric_id is_any_text
    is_nonempty_text is_created_status is_issue_evidence is_relationship_evidence check_evidence
    kind_text trusted_success_result blocks_materialization materialization_target blocks_dispatch
    blocks_observation observation_code observation_target at_key check_hashable item_of
    after_prefix resolve_reference resolve_references existing_refs element_at record_of binding_of
    unavailable reference_of_values reference_of_receipt stored_reference reference_from_receipt
    reference_from_existing_binding check_items receipt_references reference_of_operand
    operand_references revalidate_each materialize_creation materialize_relationship_v1
    materialize_relationship_v2 materialize_relationship materialize stop out_of_fuel dispatching
    is_contention is_authority_invalid has_changed contended_code result_of recover settle conclude
    conclude_observation record_success after_success observe_kind observe guarded answered
    dispatch_command materialized checked_command contended_receipt contended after_claim
    attempt_next after_finalization finish apply_loop
computed = (refl, refl, refl, refl, refl, omega arith)

started-Sealed : Sealed unary_digests started.0
started-Sealed = computed.0

all_applied : applied_run.result ≡ some (ok applied_result)
all_applied = computed.1

ends_unknown : unknown_run.result ≡ some (ok unknown_result)
ends_unknown = computed.2

starts_within : started.0.next_operation_index ≤ length context.expected_operations
starts_within = computed.5

apply_loop-Trace_example :
    TraceOf unary_digests clock texts caller context content second_unknown 0 3
      started.0.next_operation_index unknown_run
apply_loop-Trace_example =
    apply_loop-Trace unary_digests clock texts caller context content unary-DistinguishesIndex 3
      second_unknown 0 started.0 started.1 started-Sealed

apply-returns_example :
    (apply unary_digests clock texts caller context content
      (suc (length context.expected_operations))
      second_unknown
      always
      (ok tt)
      "10:00Z"
      empty).result
    ≢ none
apply-returns_example =
    apply-returns unary_digests clock texts caller context content unary-DistinguishesIndex
      second_unknown always (ok tt) "10:00Z" empty

apply_loop-bound_example :
    started.0.next_operation_index + length unknown_run.dispatched
    ≤ length context.expected_operations
apply_loop-bound_example =
    apply_loop-bound unary_digests clock texts caller context content unary-DistinguishesIndex
      second_unknown 0 started.0 started.1 started-Sealed 3 starts_within

apply_loop-applied_example :
    AllSucceeded unary_digests clock texts caller context content applied_run.dispatched
apply_loop-applied_example =
    apply_loop-applied unary_digests clock texts caller context content unary-DistinguishesIndex
      all_succeed 0 started.0 started.1 started-Sealed 3 applied_result all_applied refl
