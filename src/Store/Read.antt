-- ===== src/Store/Read.antt =====
-- The reading methods of execution_store.py. The tables hold the rows of one workspace; a record that
-- names another is refused.
pub mod Stored
use delivery_system.Base.{
  ℕ, ◌+◌, ℕ_eq, String, String_eq, List_eq, Option_eq, List, [], ◌∷◌, Bool, true, false, not, ◌&&◌,
  ◌||◌, Option, none, some, ◌==◌, ◌!=◌, length, map, if◌then◌else◌,
}
use delivery_system.Errors.{
  Code, value_error, raised, integrity_error, Result, ok, err, ◌>>=◌, ◌>>◌, raise, raise_if,
  or_raise, state_integrity_invalid, application_not_found, application_binding_conflict,
  operation_attempt_not_found, attempt_integrity_invalid, operation_attempt_binding_conflict,
  operation_receipt_not_found, receipt_integrity_invalid, receipt_binding_conflict,
  workspace_mismatch, application_receipt_not_found, application_receipt_integrity_invalid,
  application_replay_validation_required, application_replay_binding_invalid,
  application_orchestration_policy_mismatch, application_claim_stale,
}
use delivery_system.WriteOperations.{WriteOperation}
use delivery_system.Identity.{ApplicationIdentity, ApplicationIdentity_eq, operation_identity}
use delivery_system.Execution.{
  applying, applied, Status_eq, ApplicationExecution, OperationAttempt, verify_execution,
  verify_attempt,
}
use delivery_system.Receipts.{
  Digests, OperationReceipt, ReceiptRef, ApplicationReceipt, verify_receipt,
  verify_application_receipt, validate_against,
}
use delivery_system.Context.{Currentness}
use delivery_system.Table.{Table, Row, OperationKey, OperationKey_eq, read_row, lookup}
use delivery_system.Store.{Database, Caller, require_orchestration}
use delivery_system.Store.Claim.{is_managed}

-- `except (TypeError, ValueError, JSONDecodeError): raise ValueError(code)`
unfoldable pub recode {ℓ} : {A : Type ℓ} → Result A → Code → Result A
recode (ok a) code = ok a
recode (err (value_error e)) code = raise code
recode (err (raised name)) code = if name == "TypeError" then raise code else err (raised name)
recode (err integrity_error) code = err integrity_error

module _ (digests : Digests) (workspace_identity : String) where
  -- `_load_execution_state`
  unfoldable pub load_execution_state : String → Database → Result ApplicationExecution
  unfolding recode
  load_execution_state application_id db = do
    row ← or_raise (lookup application_id db.application_execution) application_not_found
    state ← recode (read_row row) state_integrity_invalid
    raise_if
        (state.application_id != application_id
          || state.identity.workspace_identity != workspace_identity)
        application_binding_conflict
    raise_if (not (verify_execution digests.states state)) state_integrity_invalid
    ok state

  unfoldable pub get_attempt : String → String → Database → Result OperationAttempt
  unfolding recode
  get_attempt application_id attempt_id db = do
    row ←
        or_raise
          (lookup (record { application = application_id; operation = attempt_id })
            db.operation_attempts)
          operation_attempt_not_found
    attempt ← recode (read_row row) attempt_integrity_invalid
    raise_if (attempt.application_id != application_id || attempt.operation_identity != attempt_id)
        operation_attempt_binding_conflict
    raise_if (attempt.identity.workspace_identity != workspace_identity)
        operation_attempt_binding_conflict
    raise_if (not (verify_attempt digests.states attempt)) attempt_integrity_invalid
    ok attempt

  unfoldable pub get_operation_receipt : String → String → Database → Result OperationReceipt
  unfolding recode
  get_operation_receipt application_id operation_id db = do
    row ←
        or_raise
          (lookup (record { application = application_id; operation = operation_id })
            db.operation_receipts)
          operation_receipt_not_found
    receipt ← recode (read_row row) receipt_integrity_invalid
    raise_if
        (receipt.application_id != application_id || receipt.operation_identity != operation_id)
        receipt_binding_conflict
    raise_if (receipt.identity.workspace_identity != workspace_identity) workspace_mismatch
    raise_if (not (verify_receipt digests receipt)) receipt_integrity_invalid
    ok receipt

  unfoldable pub get_application_receipt : String → Database → Result ApplicationReceipt
  unfolding recode
  get_application_receipt application_id db = do
    row ← or_raise (lookup application_id db.application_receipts) application_receipt_not_found
    receipt ← recode (read_row row) application_receipt_integrity_invalid
    raise_if (receipt.application_id != application_id) application_binding_conflict
    raise_if (receipt.identity.workspace_identity != workspace_identity) workspace_mismatch
    raise_if (not (verify_application_receipt digests receipt))
        application_receipt_integrity_invalid
    ok receipt

  -- `except ValueError`: a missing receipt is told as it is, every other defect by one code.
  unfoldable pub recode_receipt {ℓ} : {A : Type ℓ} → Result A → Result A
  recode_receipt (ok a) = ok a
  recode_receipt (err (value_error operation_receipt_not_found)) = raise operation_receipt_not_found
  recode_receipt (err (value_error e)) = raise receipt_integrity_invalid
  recode_receipt (err e) = err e

  -- The loop of `get_execution`, over the expected operations and the references.
  unfoldable pub replay_receipts :
      String → ℕ → List WriteOperation → List ReceiptRef → Database → Result (List OperationReceipt)
  unfolding recode_receipt get_operation_receipt
  replay_receipts application_id index (expected ∷ operations) (ref ∷ refs) db = do
    let id = operation_identity digests.states.identities application_id index expected
    operation ← recode_receipt (get_operation_receipt application_id id db)
    raise_if
        (operation.receipt_digest != ref.operation_receipt_digest
          || not (verify_receipt digests operation))
        application_receipt_integrity_invalid
    rest ← replay_receipts application_id (index + 1) operations refs db
    ok (operation ∷ rest)
  replay_receipts application_id index _ _ db = ok []

  -- `operation_indexes == list(range(len(operation_indexes)))`
  unfoldable pub are_indexed : ℕ → List OperationReceipt → Bool
  are_indexed index [] = true
  are_indexed index (r ∷ rs) = r.operation_index == index && are_indexed (index + 1) rs

  -- The part of `get_execution` for an applied state with the expected operations.
  unfoldable pub validate_replay :
      ApplicationExecution → List WriteOperation → Database → Result (Unit {0})
  unfolding get_application_receipt replay_receipts are_indexed
  validate_replay state operations db = do
    receipt ← get_application_receipt state.application_id db
    raise_if
        (not (verify_application_receipt digests receipt)
          || (receipt.application_id != state.application_id || receipt.identity != state.identity))
        application_receipt_integrity_invalid
    raise_if
        (map (λ (ref : ReceiptRef). ref.operation_receipt_id) receipt.operation_receipt_refs
          != state.operation_receipt_refs)
        application_receipt_integrity_invalid
    raise_if (length operations != length receipt.operation_receipt_refs)
        application_receipt_integrity_invalid
    receipts ← replay_receipts state.application_id 0 operations receipt.operation_receipt_refs db
    raise_if (not (are_indexed 0 receipts)) application_receipt_integrity_invalid
    raise_if (not (validate_against digests receipt operations receipts))
        application_replay_binding_invalid

  -- An applied state needs the expected operations, and is replayed on them.
  unfoldable pub replayed :
      ApplicationExecution → Option (List WriteOperation) → Database → Result ApplicationExecution
  unfolding validate_replay
  replayed state none db =
      if state.state == applied then raise application_replay_validation_required else ok state
  replayed state (some operations) db =
      if state.state == applied then validate_replay state operations db >> ok state else ok state

  unfoldable pub get_execution :
      String → Option (List WriteOperation) → Database → Result ApplicationExecution
  unfolding load_execution_state replayed
  get_execution application_id expected_operations db = do
    state ← load_execution_state application_id db
    replayed state expected_operations db

  unfoldable pub validate_claim :
      Caller
      → Result (Unit {0})
      → String
      → String
      → String
      → String
      → String
      → Database
      → Result (ApplicationExecution × OperationAttempt)
  unfolding get_execution get_attempt
  validate_claim caller current application_id state_digest attempt_id attempt_digest owner_id db =
      do
        require_orchestration caller
        current
        state ← get_execution application_id none db
        attempt ← get_attempt application_id attempt_id db
        raise_if (not (is_managed state)) application_orchestration_policy_mismatch
        raise_if
            (state.state != applying
              || (state.state_digest != state_digest
                  || (state.owner_id != some owner_id
                      || (state.current_attempt_id != some attempt_id
                          || (attempt.state != applying
                              || attempt.attempt_digest != attempt_digest)))))
            application_claim_stale
        ok (state, attempt)

  -- The loop of `resolve_application_id_by_approved_context`: every row is validated before any match
  -- is trusted.
  unfoldable pub matching_ids :
      String → ℕ → String → String → Table String ApplicationExecution → Result (List String)
  unfolding recode
  matching_ids preview_id revision approval_id approval_digest [] = ok []
  matching_ids preview_id revision approval_id approval_digest ((row_id, row) ∷ rows) = do
    state ← recode (read_row row) state_integrity_invalid
    raise_if (state.application_id != row_id) application_binding_conflict
    raise_if (state.identity.workspace_identity != workspace_identity) application_binding_conflict
    raise_if (not (verify_execution digests.states state)) state_integrity_invalid
    rest ← matching_ids preview_id revision approval_id approval_digest rows
    let matches =
        state.identity.preview_id == preview_id
        && (state.identity.revision == revision
            && (state.identity.approval_id == approval_id
                && state.identity.approval_digest == approval_digest))
    ok (if matches then state.application_id ∷ rest else rest)

  unfoldable pub only_match : List String → Result String
  only_match [] = raise application_not_found
  only_match (id ∷ []) = ok id
  only_match (id ∷ next ∷ ids) = raise application_binding_conflict

  unfoldable pub resolve_application_id_by_approved_context :
      String → ℕ → String → String → Database → Result String
  unfolding matching_ids only_match
  resolve_application_id_by_approved_context preview_id revision approval_id approval_digest db = do
    ids ← matching_ids preview_id revision approval_id approval_digest db.application_execution
    only_match ids

  unfoldable pub get_execution_bootstrap : String → Database → Result ApplicationIdentity
  unfolding load_execution_state
  get_execution_bootstrap application_id db = do
    state ← load_execution_state application_id db
    ok state.identity
