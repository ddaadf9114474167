-- ===== src/Applier/Loop.antt =====
-- The loop of `_apply` of applier.py: one claimed operation after the other.
use delivery_system.Base.{
  ◌+◌, ℕ, zero, suc, String, String_eq, Option_eq, true, not, Option, none, some, ◌!=◌, ℕ_eq,
  length, ltb, if◌then◌else◌,
}
use delivery_system.Errors.{
  Code, Error, value_error, Result, ok, err, ◌>>=◌, application_recovery_required,
}
use delivery_system.Execution.{
  Status, Status_eq, blocked, applied, ApplicationExecution, OperationAttempt,
}
use delivery_system.Receipts.{Digests}
use delivery_system.Context.{ExecutionContext, context_application_id, new_receipt}
use delivery_system.Store.{Database, Caller, Clock}
use delivery_system.Store.Claim.{claim_next_operation}
use delivery_system.Store.Outcome.{complete_operation_success, settle_operation}
use delivery_system.Store.Finalize.{finalize_application}
use delivery_system.Store.Read.{get_execution, get_application_receipt, validate_claim}
use delivery_system.Applier.Commands.{
  TextLibrary, Command, WriteObservation, WriteObservationKind, definitive_success,
}
use delivery_system.Applier.Evidence.{
  trusted_success_result, materialization_target, blocks_dispatch, observation_code,
  observation_target,
}
use delivery_system.Applier.References.{SealedContent}
use delivery_system.Applier.Materialize.{materialize}
use delivery_system.Applier.Round.{
  ApplyResult, Round, Outcome, stop, out_of_fuel, dispatching, Continuation, is_contention,
  is_authority_invalid, has_changed, contended_code,
}

module _ (digests : Digests) (clock : Clock) (texts : TextLibrary) (caller : Caller)
    (context : ExecutionContext) (content : SealedContent) where
  abbrev application : String
  application = context_application_id digests context

  abbrev workspace : String
  workspace = context.identity.workspace_identity

  -- `ApplyResult(application_id, state.state, state.next_operation_index, …)`
  unfoldable pub result_of : ApplicationExecution → Option String → Option Code → ApplyResult
  unfolding context_application_id
  result_of state receipt_id code = record {
    application_id = application;
    state = state.state;
    next_operation_index = state.next_operation_index;
    application_receipt_id = receipt_id;
    recovery_code = code;
  }

  -- `except ValueError`: authority that is no longer valid leaves the operation claimed, to be recovered.
  unfoldable pub recover : ApplicationExecution → Database → Error → Outcome
  unfolding result_of stop is_authority_invalid
  recover claimed db e =
      if is_authority_invalid e
      then stop (ok (result_of claimed none (some application_recovery_required))) db
      else stop (err e) db

  unfoldable pub settle :
      Round
      → ApplicationExecution
      → OperationAttempt
      → Status
      → Code
      → Database
      → Result (ApplicationExecution × Database)
  settle round claimed attempt target code db =
      settle_operation digests clock caller context round.end_current application
        claimed.state_digest attempt.operation_identity attempt.attempt_digest round.owner target
        code round.end_time db

  -- The result of a settlement that is not guarded.
  unfoldable pub conclude : Code → Database → Result (ApplicationExecution × Database) → Outcome
  unfolding result_of stop
  conclude code db (ok (state, db')) = stop (ok (result_of state none (some code))) db'
  conclude code db (err e) = stop (err e) db

  -- The result of the settlement of an observation.
  unfoldable pub conclude_observation :
      ApplicationExecution → Code → Database → Result (ApplicationExecution × Database) → Outcome
  unfolding result_of stop recover
  conclude_observation claimed code db (ok (state, db')) =
      stop (ok (result_of state none (some code))) db'
  conclude_observation claimed code db (err e) = recover claimed db e

  -- The evidence, the receipt and the completion of a definitive success.
  unfoldable pub record_success :
      Round
      → ApplicationExecution
      → OperationAttempt
      → WriteObservation
      → Database
      → Result (ApplicationExecution × Database)
  record_success round claimed attempt observation db = do
    remote ←
        trusted_success_result digests.result_payload_digest content.repository_identity
          attempt.operation.operation_kind observation
    receipt ←
        new_receipt digests context round.receipt_current attempt.operation_index remote
          attempt.started_at round.receipt_time
    complete_operation_success digests clock caller context round.end_current application
        claimed.state_digest attempt.operation_identity attempt.attempt_digest round.owner
        (record { artifact = receipt; owned = true; registered = round.receipt_registered })
        round.end_time db

  unfoldable pub after_success :
      Continuation
      → ApplicationExecution
      → Database
      → Result (ApplicationExecution × Database)
      → Outcome
  unfolding recover
  after_success next claimed db (ok (state, db')) = next state db'
  after_success next claimed db (err e) = recover claimed db e

  -- What follows an observation, by its kind.
  unfoldable pub observe_kind :
      WriteObservationKind
      → Round
      → Continuation
      → ApplicationExecution
      → OperationAttempt
      → Database
      → WriteObservation
      → Outcome
  unfolding record_success after_success conclude_observation settle
  observe_kind definitive_success round next claimed attempt db observation =
      after_success next claimed db (record_success round claimed attempt observation db)
  observe_kind _ round next claimed attempt db observation =
      conclude_observation claimed (observation_code observation) db (
        settle round claimed attempt (observation_target observation) (observation_code observation)
          db)

  unfoldable pub observe :
      Round
      → Continuation
      → ApplicationExecution
      → OperationAttempt
      → Database
      → WriteObservation
      → Outcome
  unfolding observe_kind
  observe round next claimed attempt db observation =
      observe_kind observation.kind round next claimed attempt db observation

  -- `context._require_current()`, and what runs if it passes.
  unfoldable pub guarded : Result (Unit {0}) → ApplicationExecution → Database → Outcome → Outcome
  unfolding recover
  guarded (ok u) claimed db outcome = outcome
  guarded (err e) claimed db outcome = recover claimed db e

  -- What follows the executor's answer.
  unfoldable pub answered :
      Round
      → Continuation
      → ApplicationExecution
      → OperationAttempt
      → Database
      → Result WriteObservation
      → Outcome
  unfolding stop guarded conclude settle observe
  answered round next claimed attempt db (ok observation) =
      guarded round.after_dispatch claimed db
        (observe round next claimed attempt (round.before_end db) observation)
  answered round next claimed attempt db (err (value_error code)) =
      if blocks_dispatch code
      then conclude code (round.before_end db)
          (settle round claimed attempt blocked code (round.before_end db))
      else stop (err (value_error code)) db
  answered round next claimed attempt db (err e) = stop (err e) db

  unfoldable pub dispatch_command :
      Round → Continuation → ApplicationExecution → OperationAttempt → Database → Command → Outcome
  unfolding guarded dispatching answered
  dispatch_command round next claimed attempt db command =
      guarded round.before_dispatch claimed db (
        dispatching
          (record {
            claimed = claimed;
            attempt = attempt;
            command = command;
            answer = round.dispatch attempt.operation.operation_kind command;
          })
          (answered round next claimed attempt db
            (round.dispatch attempt.operation.operation_kind command)))

  unfoldable pub materialized :
      Round
      → Continuation
      → ApplicationExecution
      → OperationAttempt
      → Database
      → Result Command
      → Outcome
  unfolding stop conclude settle dispatch_command
  materialized round next claimed attempt db (ok command) =
      dispatch_command round next claimed attempt db command
  materialized round next claimed attempt db (err (value_error code)) =
      conclude code (round.before_end db)
        (settle round claimed attempt (materialization_target code) code (round.before_end db))
  materialized round next claimed attempt db (err e) = stop (err e) db

  -- The claim is read back, and the command is made from what the tables then hold.
  unfoldable pub checked_command :
      Round → ApplicationExecution → OperationAttempt → Database → Result Command
  checked_command round claimed attempt db = do
    held ←
        validate_claim digests workspace caller round.validate_current application
          claimed.state_digest attempt.operation_identity attempt.attempt_digest round.owner
          (round.before_validation db)
    materialize digests texts context (record content { revalidate = round.revalidate }) attempt
        (round.before_materialization (round.before_validation db))

  -- The application's receipt, where it is applied.
  unfoldable pub contended_receipt :
      Round → ApplicationExecution → Database → Result (Option String)
  contended_receipt round current db = if current.state != applied then ok none else do
    receipt ← get_application_receipt digests workspace application (round.before_receipt db)
    ok (some receipt.application_receipt_id)

  -- A contended claim: what the tables hold now is the result, if it differs.
  unfoldable pub contended : Round → ApplicationExecution → Code → Database → Result ApplyResult
  unfolding result_of has_changed contended_receipt contended_code
  contended round state code db = do
    current ←
        get_execution digests workspace application (some context.expected_operations)
          (round.before_reload db)
    if not (has_changed current state) then err (value_error code) else do
      receipt_id ← contended_receipt round current (round.before_reload db)
      ok (result_of current receipt_id (contended_code current))

  unfoldable pub after_claim :
      Round
      → Continuation
      → ApplicationExecution
      → Database
      → Result (ApplicationExecution × OperationAttempt × Database)
      → Outcome
  unfolding stop contended materialized checked_command is_contention
  after_claim round next state db (ok (claimed, attempt, db')) =
      materialized round next claimed attempt
        (round.before_materialization (round.before_validation db'))
        (checked_command round claimed attempt db')
  after_claim round next state db (err (value_error code)) =
      if is_contention code
      then stop (contended round state code db) db
      else stop (err (value_error code)) db
  after_claim round next state db (err e) = stop (err e) db

  -- One round of the loop, which the continuation follows where the operation was completed.
  unfoldable pub attempt_next : Round → Continuation → Continuation
  unfolding after_claim
  attempt_next round next state db = after_claim round next state (round.before_claim db) (
      claim_next_operation digests clock caller context round.claim_current application
        state.state_digest round.owner round.claim_time (round.before_claim db))

  unfoldable pub after_finalization :
      Round → Database → Result (ApplicationExecution × Database) → Outcome
  unfolding result_of stop
  after_finalization round db (err e) = stop (err e) db
  after_finalization round db (ok (state, db')) =
      stop
        (do
          receipt ← get_application_receipt digests workspace application (round.before_receipt db')
          ok (result_of state (some receipt.application_receipt_id) none))
        db'

  unfoldable pub finish : Round → Continuation
  unfolding after_finalization
  finish round state db = after_finalization round (round.before_end db) (
      finalize_application digests clock caller context round.end_current application
        state.state_digest round.end_time (round.before_end db))

  -- `while state.next_operation_index < len(expected)`, on fuel, from the k-th round on.
  unfoldable pub apply_loop : ℕ → (ℕ → Round) → ℕ → Continuation
  unfolding attempt_next finish out_of_fuel
  apply_loop zero rounds k state db = out_of_fuel db
  apply_loop (suc fuel) rounds k state db =
      let next = apply_loop fuel rounds (k + 1) in
      if ltb state.next_operation_index (length context.expected_operations)
      then attempt_next (rounds k) next state db
      else finish (rounds k) state db
