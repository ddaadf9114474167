-- ===== src/Context.antt =====
-- `RuntimeApplicationExecutionContext` of runtime.py: the only maker of new execution records. The
-- authority, its registry and its expiry belong to the running service: whether the context is
-- current at a given moment is an answer that each call receives.
use delivery_system.Base.{
  ◌+◌, [], ◌∷◌, ◌==◌, length, Bool, ℕ_eq, ℕ, String, String_eq, List_eq, Option_eq, List, not, ◌||◌,
  Option, none, some, ◌!=◌, get_elem?,
}
use delivery_system.Errors.{
  Code, raised, Result, ok, err, ◌>>=◌, ◌>>◌, raise_if, historical_execution_invalid,
  application_receipt_incomplete, application_finalization_invalid, runtime_authority_required,
  historical_attempt_invalid, credential_continuity_mismatch, operation_attempt_binding_invalid,
}
use delivery_system.WriteOperations.{WriteOperation, WriteOperation_eq}
use delivery_system.Identity
use delivery_system.Identity.{
  ApplicationIdentity, ApplicationIdentity_eq, CredentialContinuityAnchor,
  CredentialContinuityAnchor_eq, AuthorityProvenance, anchor_of, operation_identity,
  request_identity, operation_receipt_id, application_receipt_id,
}
use delivery_system.Execution.{
  Status, applying, applied, ApplicationExecution, OperationAttempt, check_execution,
  verify_execution, check_attempt, verify_attempt,
}
use delivery_system.Receipts.{
  Digests, RemoteResult, verify_receipt, OperationReceipt, check_receipt, with_receipt_digest,
  ReceiptRef, ApplicationReceipt, check_application_receipt, with_application_receipt_digest,
}

pub record ExecutionContext : Type 0 where
  pub identity : ApplicationIdentity
  pub continuity_anchor : CredentialContinuityAnchor
  pub provenance : AuthorityProvenance
  pub expected_operations : List WriteOperation

-- The outcome of the k-th `validate_execution_context` that a call makes.
abbrev pub Currentness : Type 0
Currentness = ℕ → Result (Unit {0})

-- The fields that `continue_execution_state` may change.
pub record ExecutionChange : Type 0 where
  pub state : Status
  pub next_operation_index : ℕ
  pub owner_id : Option String
  pub current_attempt_id : Option String
  pub recovery_code : Option Code
  pub operation_receipt_refs : List String
  pub updated_at : String
  pub completed_at : Option String

-- The historical values, where a call changes nothing.
unfoldable pub unchanged : ApplicationExecution → ExecutionChange
unchanged s = record {
  state = s.state;
  next_operation_index = s.next_operation_index;
  owner_id = s.owner_id;
  current_attempt_id = s.current_attempt_id;
  recovery_code = s.recovery_code;
  operation_receipt_refs = s.operation_receipt_refs;
  updated_at = s.updated_at;
  completed_at = s.completed_at;
}

module _ (digests : Digests) (context : ExecutionContext) where
  unfoldable pub context_application_id : String
  context_application_id = Identity.application_id digests.states.identities context.identity

  -- The record that `continue_execution_state` builds, before its constructor checks it.
  unfoldable pub continued : ApplicationExecution → ExecutionChange → ApplicationExecution
  continued historical change = record historical {
    identity = context.identity;
    continuity_anchor = context.continuity_anchor;
    state = change.state;
    next_operation_index = change.next_operation_index;
    owner_id = change.owner_id;
    current_attempt_id = change.current_attempt_id;
    recovery_code = change.recovery_code;
    operation_receipt_refs = change.operation_receipt_refs;
    updated_at = change.updated_at;
    completed_at = change.completed_at;
    state_digest = "";
  }

  unfoldable pub continue_execution_state :
      Result (Unit {0}) → ApplicationExecution → ExecutionChange → Result ApplicationExecution
  unfolding continued context_application_id
  continue_execution_state current historical change = do
    current
    raise_if (not (verify_execution digests.states historical)) historical_execution_invalid
    raise_if
        (historical.identity != context.identity
          || (historical.application_id != context_application_id
              || historical.continuity_anchor != context.continuity_anchor))
        credential_continuity_mismatch
    check_execution digests.states (continued historical change)
    ok (continued historical change)

  -- The first attempt at the operation, as `claim_next_operation` asks for it.
  unfoldable pub first_attempt : ℕ → WriteOperation → String → OperationAttempt
  unfolding context_application_id
  first_attempt index operation now =
      let identities = digests.states.identities in
      let id = operation_identity identities context_application_id index operation in
      record {
        application_id = context_application_id;
        operation_identity = id;
        operation_index = index;
        operation = operation;
        authority_binding = context.provenance;
        driver_identity = context.provenance.driver_identity;
        remote_authority = context.provenance.remote_authority;
        request_identity = request_identity identities id;
        state = applying;
        started_at = now;
        updated_at = now;
        identity = context.identity;
        failure_code = none;
        attempt_digest = "";
      }

  -- `self._expected_operations[index]`; past the end Python raises `IndexError`.
  unfoldable pub operation_at : ℕ → Result WriteOperation
  operation_at index = elim (get_elem? context.expected_operations index) [
    | none ↦ err (raised "IndexError")
    | some operation ↦ ok operation
  ]

  unfoldable pub new_attempt : Result (Unit {0}) → ℕ → String → Result OperationAttempt
  unfolding first_attempt operation_at
  new_attempt current index now = do
    current
    operation ← operation_at index
    check_attempt digests.states (first_attempt index operation now)
    ok (first_attempt index operation now)

  unfoldable pub continued_attempt :
      OperationAttempt → Status → String → Option Code → OperationAttempt
  continued_attempt historical state now failure_code = record historical {
    state = state;
    updated_at = now;
    identity = context.identity;
    failure_code = failure_code;
    attempt_digest = "";
  }

  unfoldable pub continue_attempt :
      Result (Unit {0}) → OperationAttempt → Status → String → Option Code → Result OperationAttempt
  unfolding continued_attempt context_application_id
  continue_attempt current historical state now failure_code = do
    let identities = digests.states.identities
    current
    raise_if (not (verify_attempt digests.states historical)) historical_attempt_invalid
    raise_if
        (historical.identity != context.identity
          || (historical.application_id != context_application_id
              || (get_elem? context.expected_operations historical.operation_index
                    != some historical.operation
                  || (historical.operation_identity
                        != operation_identity identities context_application_id
                            historical.operation_index historical.operation
                      || historical.request_identity
                        != request_identity identities historical.operation_identity))))
        operation_attempt_binding_invalid
    raise_if
        (anchor_of historical.authority_binding != context.continuity_anchor
          || (historical.driver_identity != context.provenance.driver_identity
              || historical.remote_authority != context.provenance.remote_authority))
        credential_continuity_mismatch
    check_attempt digests.states (continued_attempt historical state now failure_code)
    ok (continued_attempt historical state now failure_code)

  -- `new_application_receipt_from_refs`
  unfoldable pub new_application_receipt :
      Result (Unit {0}) → List ReceiptRef → String → Result ApplicationReceipt
  unfolding context_application_id
  new_application_receipt current refs now = do
    current
    let receipt : ApplicationReceipt = record {
      application_receipt_id =
          application_receipt_id digests.states.identities context_application_id;
      application_id = context_application_id;
      identity = context.identity;
      operation_set_digest = context.identity.operation_set_digest;
      operation_receipt_refs = refs;
      status = applied;
      started_at = now;
      completed_at = now;
      receipt_digest = "";
    }
    check_application_receipt digests receipt
    ok (with_application_receipt_digest digests receipt)

  -- `OperationReceipt.create`, of an operation of the context, which is a normalized one.
  unfoldable pub create_operation_receipt :
      Result (Unit {0})
      → ℕ
      → WriteOperation
      → RemoteResult
      → String
      → String
      → Result OperationReceipt
  unfolding context_application_id
  create_operation_receipt current index operation remote_result started_at completed_at = do
    current
    let id = operation_identity digests.states.identities context_application_id index operation
    let receipt : OperationReceipt = record {
      operation_receipt_id = operation_receipt_id digests.states.identities id;
      application_id = context_application_id;
      identity = context.identity;
      operation_identity = id;
      operation_index = index;
      canonical_operation = operation;
      request_identity = request_identity digests.states.identities id;
      authority_binding = context.provenance;
      remote_result = remote_result;
      started_at = started_at;
      completed_at = completed_at;
      receipt_digest = "";
    }
    check_receipt digests receipt
    ok (with_receipt_digest digests receipt)

  unfoldable pub new_receipt :
      Currentness → ℕ → RemoteResult → String → String → Result OperationReceipt
  unfolding operation_at create_operation_receipt
  new_receipt current index remote_result started_at completed_at = do
    current 0
    operation ← operation_at index
    create_operation_receipt (current 1) index operation remote_result started_at completed_at

  -- The loop of `ApplicationReceipt.create` over the operations and the receipts.
  unfoldable pub complete_refs :
      ℕ → List WriteOperation → List OperationReceipt → Result (List ReceiptRef)
  unfolding context_application_id
  complete_refs index (operation ∷ operations) (receipt ∷ receipts) = do
    let id = operation_identity digests.states.identities context_application_id index operation
    raise_if
        (not (verify_receipt digests receipt)
          || (receipt.application_id != context_application_id
              || (receipt.operation_index != index || receipt.operation_identity != id)))
        application_receipt_incomplete
    refs ← complete_refs (index + 1) operations receipts
    ok (
        (record {
          operation_receipt_id = receipt.operation_receipt_id;
          operation_receipt_digest = receipt.receipt_digest;
        })
        ∷ refs)
  complete_refs index _ _ = ok []

  -- `ApplicationReceipt.create`: the receipts come with whether
  -- they all belong to this context; the operations are the context's own.
  unfoldable pub create_application_receipt :
      List OperationReceipt → Bool → String → String → Result ApplicationReceipt
  unfolding complete_refs context_application_id
  create_application_receipt receipts all_owned started_at completed_at = do
    raise_if (length receipts == 0) application_finalization_invalid
    raise_if (not all_owned) runtime_authority_required
    raise_if (length context.expected_operations != length receipts) application_receipt_incomplete
    refs ← complete_refs 0 context.expected_operations receipts
    let receipt : ApplicationReceipt = record {
      application_receipt_id =
          application_receipt_id digests.states.identities context_application_id;
      application_id = context_application_id;
      identity = context.identity;
      operation_set_digest = context.identity.operation_set_digest;
      operation_receipt_refs = refs;
      status = applied;
      started_at = started_at;
      completed_at = completed_at;
      receipt_digest = "";
    }
    check_application_receipt digests receipt
    ok (with_application_receipt_digest digests receipt)

  unfoldable pub finalize_application_receipt :
      Result (Unit {0}) → List OperationReceipt → Bool → String → String → Result ApplicationReceipt
  unfolding create_application_receipt
  finalize_application_receipt current receipts all_owned started_at completed_at = do
    current
    create_application_receipt receipts all_owned started_at completed_at
