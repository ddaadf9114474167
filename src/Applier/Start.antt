-- ===== src/Applier/Start.antt =====
-- `_apply` of applier.py from its beginning: the application is created, or taken up where it stands.
use delivery_system.Base.{ℕ, String, String_eq, Option_eq, [], true, none, some, ℕ_eq}
use delivery_system.Errors.{Result, ok, err, ◌>>=◌, ◌>>◌, application_recovery_required}
use delivery_system.Execution.{
  Status, Status_eq, pending, applying, partially_applied, applied, ApplicationExecution,
  applier_orchestration_policy, check_execution,
}
use delivery_system.Receipts.{Digests}
use delivery_system.Context.{ExecutionContext, Currentness, context_application_id}
use delivery_system.Store.{Database, Caller, Clock}
use delivery_system.Store.Claim.{create_execution_if_absent}
use delivery_system.Store.Read.{get_execution, get_application_receipt}
use delivery_system.Applier.Commands.{TextLibrary}
use delivery_system.Applier.References.{SealedContent}
use delivery_system.Applier.Round.{ApplyResult, Round, Outcome, stop}
use delivery_system.Applier.Loop.{result_of, apply_loop}

module _ (digests : Digests) (clock : Clock) (texts : TextLibrary) (caller : Caller)
    (context : ExecutionContext) (content : SealedContent) where
  abbrev application : String
  application = context_application_id digests context

  abbrev workspace : String
  workspace = context.identity.workspace_identity

  -- The state that the Applier starts from.
  unfoldable pub initial_execution : String → ApplicationExecution
  unfolding context_application_id
  initial_execution now = record {
    application_id = application;
    identity = context.identity;
    state = pending;
    next_operation_index = 0;
    owner_id = none;
    current_attempt_id = none;
    recovery_code = none;
    operation_receipt_refs = [];
    started_at = now;
    updated_at = now;
    completed_at = none;
    continuity_anchor = context.continuity_anchor;
    orchestration_policy = some applier_orchestration_policy;
    state_digest = "";
  }

  -- `new_execution_state`
  unfoldable pub new_execution_state : Result (Unit {0}) → String → Result ApplicationExecution
  unfolding initial_execution
  new_execution_state current now = do
    current
    check_execution digests.states (initial_execution now)
    ok (initial_execution now)

  -- An application that is applied already: its history is replayed, its receipt is the result.
  unfoldable pub replayed_result : Round → Database → Result ApplyResult
  unfolding result_of
  replayed_result round db = do
    state ←
        get_execution digests workspace application (some context.expected_operations)
          (round.before_reload db)
    receipt ← get_application_receipt digests workspace application (round.before_receipt db)
    ok (
        result_of digests clock texts caller context content state
          (some receipt.application_receipt_id) none)

  -- What follows the creation, by the state of the record that it returns.
  unfoldable pub resume : Status → ℕ → (ℕ → Round) → ApplicationExecution → Database → Outcome
  unfolding stop result_of replayed_result apply_loop
  resume applied fuel rounds state db = stop (replayed_result (rounds 0) db) db
  resume applying fuel rounds state db =
      stop
        (ok (
          result_of digests clock texts caller context content state none
            (some application_recovery_required)))
        db
  resume pending fuel rounds state db =
      apply_loop digests clock texts caller context content fuel rounds 0 state db
  resume partially_applied fuel rounds state db =
      apply_loop digests clock texts caller context content fuel rounds 0 state db
  resume _ fuel rounds state db =
      stop
        (ok (result_of digests clock texts caller context content state none state.recovery_code))
        db

  unfoldable pub after_creation :
      ℕ → (ℕ → Round) → Database → Result (ApplicationExecution × Database) → Outcome
  unfolding stop resume
  after_creation fuel rounds db (err e) = stop (err e) db
  after_creation fuel rounds db (ok (state, db')) = resume state.state fuel rounds state db'

  -- `_apply`, from the creation of the execution context on; the fuel bounds the rounds of the loop.
  unfoldable pub apply :
      ℕ → (ℕ → Round) → Currentness → Result (Unit {0}) → String → Database → Outcome
  unfolding after_creation new_execution_state
  apply fuel rounds current new_current now db = after_creation fuel rounds db (do
    initial ← new_execution_state new_current now
    create_execution_if_absent digests clock caller context current
        (record { artifact = initial; owned = true; registered = true }) db)
