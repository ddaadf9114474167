-- ===== src/Tests/Transitions.antt =====
-- The state machines on concrete records.
use delivery_system.Base.{
  refl, ◌≡◌, ◌≢◌, ◌≤◌, String_eq, List_eq, Option_eq, ℕ_eq, String-discrete, Option-discrete,
  List-discrete, some, none, [], ◌∷◌,
}
use delivery_system.Errors.{ok, other}
use delivery_system.WriteOperations.{create_issue}
use delivery_system.Context.{first_attempt}
use delivery_system.Identity.{
  ApplicationIdentity_eq, CredentialContinuityAnchor_eq, ApplicationIdentity-discrete,
  CredentialContinuityAnchor-discrete, ContinuityMode-discrete,
}
use delivery_system.Execution.{
  ApplicationExecution, OperationAttempt, Status_eq, Status-discrete, is_none, applying,
  partially_applied, blocked, applied,
}
use delivery_system.Execution.Transitions.{
  attempt_transition, application_transition, validate_attempt_transition, all_but_last, is_missing,
  validate_coordination, validate_application_transition,
}
use delivery_system.Execution.Transitions.Progress.{
  IsStep, IsTerminal, Coordinated, Extends, step-Extends, here, next, Progress, Chain-Progress,
}
use delivery_system.Execution.Transitions.Coordination.{
  step-Coordinated, step_ends, unmoved, moved, AttemptChain-length,
}
use delivery_system.Tests.Fixtures.{initial_state, owner, context, digests}

abbrev claimed : ApplicationExecution
claimed = record initial_state {
  state = applying;
  owner_id = some owner;
  current_attempt_id = some "operation-first";
}

abbrev completed : ApplicationExecution
completed = record initial_state {
  state = partially_applied;
  next_operation_index = 1;
  operation_receipt_refs = "operation-receipt-first" ∷ [];
}

abbrev blocked_claim : ApplicationExecution
blocked_claim = record claimed {
  state = blocked;
  owner_id = none;
  recovery_code = some (other "blocked");
}

claim-IsStep : IsStep initial_state claimed
unfolding String-discrete Option-discrete List-discrete ℕ_eq String_eq Option_eq List_eq
    ApplicationIdentity-discrete ContinuityMode-discrete CredentialContinuityAnchor-discrete
    ApplicationIdentity_eq CredentialContinuityAnchor_eq Status-discrete Status_eq is_none
    is_missing application_transition all_but_last validate_coordination
    validate_application_transition
claim-IsStep = refl

completion-IsStep : IsStep claimed completed
unfolding String-discrete Option-discrete List-discrete ℕ_eq String_eq Option_eq List_eq
    ApplicationIdentity-discrete ContinuityMode-discrete CredentialContinuityAnchor-discrete
    ApplicationIdentity_eq CredentialContinuityAnchor_eq Status-discrete Status_eq is_none
    is_missing application_transition all_but_last validate_coordination
    validate_application_transition
completion-IsStep = refl

step-Extends_example : Extends claimed completed
step-Extends_example = step-Extends claimed completed completion-IsStep

Chain-Progress_example : Progress initial_state completed
Chain-Progress_example = Chain-Progress (next (next here claim-IsStep) completion-IsStep)

step-Coordinated_example : Coordinated claimed.state claimed
step-Coordinated_example = step-Coordinated initial_state claimed claim-IsStep

step_ends_example : (¬ IsTerminal claimed.state) × (completed.state ≢ applied)
step_ends_example = step_ends claimed completed completion-IsStep

abbrev attempt : OperationAttempt
attempt =
    first_attempt digests context 0
      (record { operation_kind = create_issue; client_refs = "a" ∷ []; depends_on = [] }) "10:01Z"

attempt_step : validate_attempt_transition attempt (record attempt { state = applied }) ≡ ok tt
unfolding validate_attempt_transition attempt_transition first_attempt
attempt_step = refl

AttemptChain-length_example : 1 ≤ 2
AttemptChain-length_example = AttemptChain-length (moved unmoved attempt_step)
