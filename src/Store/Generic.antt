-- ===== src/Store/Generic.antt =====
-- The methods of execution_store.py for applications that no Applier manages: each refuses to run
-- where orchestration is enabled, and refuses a managed application.
pub mod Unmanaged
use delivery_system.Base.{
  ℕ, ◌+◌, ℕ_eq, String, String_eq, List_eq, Option_eq, List, [], ◌∷◌, Bool, true, false, not, ◌&&◌,
  ◌||◌, Option, none, some, ◌==◌, ◌!=◌, length, leb, get_elem?, if◌then◌else◌,
}
use delivery_system.Errors.{
  raised, Result, ok, err, ◌>>=◌, ◌>>◌, raise, raise_if, or_raise, state_integrity_invalid,
  applier_orchestration_required, operation_attempt_binding_conflict,
  operation_attempt_claim_state_invalid, operation_attempt_already_exists,
  runtime_authority_required, operation_attempt_not_found, attempt_state_stale,
  application_binding_conflict, application_not_found, application_state_stale,
  application_finalization_required, application_progress_invalid,
}
use delivery_system.WriteOperations.{WriteOperation, WriteOperation_eq}
use delivery_system.Identity.{ApplicationIdentity_eq, AuthorityProvenance_eq, operation_identity}
use delivery_system.Execution.{
  applying, applied, Status_eq, ApplicationExecution, OperationAttempt, is_none, verify_execution,
  verify_attempt, with_attempt_digest, with_state_digest,
}
use delivery_system.Execution.Transitions.{
  validate_attempt_transition, validate_application_transition,
}
use delivery_system.Receipts.{Digests, OperationReceipt, verify_receipt}
use delivery_system.Table.{
  Table, Row, OperationKey, OperationKey_eq, read_row, lookup, update, insert,
}
use delivery_system.Store.{Database, Caller, Live}
use delivery_system.Store.Claim.{is_managed}
use delivery_system.Store.Read.{recode}

-- `_reject_generic_when_orchestrated`
unfoldable pub reject_generic_when_orchestrated : Caller → Result (Unit {0})
reject_generic_when_orchestrated caller =
    raise_if caller.orchestration_enabled applier_orchestration_required

-- The check of a live record: `owned` tells whether it has a live context at all, and `current` is
-- what the service answers of that context.
unfoldable pub validate_live {ℓ} : {A : Type ℓ} → Result (Unit {0}) → Live A → Result (Unit {0})
validate_live current live = do
  raise_if (not live.owned) runtime_authority_required
  current
  raise_if (not live.registered) runtime_authority_required

-- The first stored receipt of an application with the identifier; a row on the way that does not load
-- raises.
unfoldable pub find_receipt :
    String → String → Table OperationKey OperationReceipt → Result (Option OperationReceipt)
find_receipt application_id receipt_id [] = ok none
find_receipt application_id receipt_id ((key, row) ∷ rows) =
    let rest = find_receipt application_id receipt_id rows in
    if key.application == application_id
    then (read_row row >>= λ loaded.
        if loaded.operation_receipt_id == receipt_id then ok (some loaded) else rest)
    else rest

-- `refs[-1]`
unfoldable pub last_ref : List String → Result String
last_ref [] = err (raised "IndexError")
last_ref (ref ∷ []) = ok ref
last_ref (ref ∷ next ∷ refs) = last_ref (next ∷ refs)

module _ (digests : Digests) (workspace_identity : String) (caller : Caller) where
  -- `_reject_durable_managed`
  unfoldable pub reject_durable_managed : String → Database → Result (Unit {0})
  unfolding recode
  reject_durable_managed application_id db = elim (lookup application_id db.application_execution) [
    | none ↦ ok tt
    | some row ↦ do
      state ← recode (read_row row) state_integrity_invalid
      raise_if (not (verify_execution digests.states state)) state_integrity_invalid
      raise_if (is_managed state) applier_orchestration_required
  ]

  unfoldable pub create_attempt_if_absent :
      Result (Unit {0}) → Live OperationAttempt → Database → Result (OperationAttempt × Database)
  create_attempt_if_absent current live db = do
    let attempt = live.artifact
    let candidate = with_attempt_digest digests.states attempt
    reject_generic_when_orchestrated caller
    raise_if (attempt.identity.workspace_identity != workspace_identity)
        operation_attempt_binding_conflict
    raise_if (attempt.state != applying || not (is_none attempt.failure_code))
        operation_attempt_claim_state_invalid
    reject_durable_managed candidate.application_id db
    let key : OperationKey = record {
      application = candidate.application_id;
      operation = candidate.operation_identity;
    }
    raise_if (not (is_none (lookup key db.operation_attempts))) operation_attempt_already_exists
    validate_live current live
    attempts ← insert key candidate db.operation_attempts
    ok (candidate, record db { operation_attempts = attempts })

  unfoldable pub transition_attempt :
      Result (Unit {0})
      → String
      → Live OperationAttempt
      → Database
      → Result (OperationAttempt × Database)
  transition_attempt current expected_attempt_digest live db = do
    let candidate = live.artifact
    let stored_candidate = with_attempt_digest digests.states candidate
    let key : OperationKey = record {
      application = candidate.application_id;
      operation = candidate.operation_identity;
    }
    reject_generic_when_orchestrated caller
    raise_if (candidate.identity.workspace_identity != workspace_identity)
        operation_attempt_binding_conflict
    reject_durable_managed candidate.application_id db
    row ← or_raise (lookup key db.operation_attempts) operation_attempt_not_found
    previous ← read_row row
    raise_if
        (not (verify_attempt digests.states previous)
          || previous.attempt_digest != expected_attempt_digest)
        attempt_state_stale
    validate_attempt_transition previous candidate
    validate_live current live
    raise_if
        (previous.identity != candidate.identity
          || (previous.operation_index != candidate.operation_index
              || (previous.operation != candidate.operation
                  || (previous.request_identity != candidate.request_identity
                      || (previous.authority_binding != candidate.authority_binding
                          || previous.started_at != candidate.started_at)))))
        operation_attempt_binding_conflict
    ok (
      stored_candidate,
      record db { operation_attempts = update key stored_candidate db.operation_attempts },
    )

  -- The check of the receipt that an advance by one appends; `operations` are those of the live context.
  unfoldable pub check_appended :
      List WriteOperation
      → ApplicationExecution
      → ApplicationExecution
      → Database
      → Result (Unit {0})
  unfolding find_receipt last_ref
  check_appended operations previous candidate db = do
    appended_id ← last_ref candidate.operation_receipt_refs
    found ← find_receipt candidate.application_id appended_id db.operation_receipts
    appended ← or_raise found application_progress_invalid
    raise_if
        (not (verify_receipt digests appended)
          || (appended.identity != candidate.identity
              || appended.operation_index != previous.next_operation_index))
        application_progress_invalid
    operation ←
        or_raise (get_elem? operations previous.next_operation_index) application_progress_invalid
    raise_if
        (appended.operation_identity
          != operation_identity digests.states.identities candidate.application_id
              previous.next_operation_index operation)
        application_progress_invalid

  unfoldable pub transition_execution :
      Result (Unit {0})
      → List WriteOperation
      → String
      → Live ApplicationExecution
      → Database
      → Result (ApplicationExecution × Database)
  transition_execution current operations expected_state_digest live db = do
    let candidate = live.artifact
    let stored_candidate = with_state_digest digests.states candidate
    reject_generic_when_orchestrated caller
    raise_if (candidate.identity.workspace_identity != workspace_identity)
        application_binding_conflict
    reject_durable_managed candidate.application_id db
    row ← or_raise (lookup candidate.application_id db.application_execution) application_not_found
    previous ← read_row row
    raise_if
        (not (verify_execution digests.states previous)
          || previous.state_digest != expected_state_digest)
        application_state_stale
    raise_if (candidate.state == applied) application_finalization_required
    validate_application_transition previous candidate
    validate_live current live
    if candidate.next_operation_index == previous.next_operation_index + 1
        then check_appended operations previous candidate db
        else ok tt
    ok (
      stored_candidate,
      record db {
        application_execution =
            update candidate.application_id stored_candidate db.application_execution;
      },
    )
