-- ===== src/Execution/Transitions.antt =====
-- The two state machines of execution_state.py, with the checks on every accepted step.
pub mod Progress
pub mod Coordination
use delivery_system.Base.{
  ℕ, zero, suc, ◌+◌, ◌-◌, ◌≤◌, ℕ_eq, String, String_eq, List_eq, Option_eq, List, [], ◌∷◌, ◌++◌,
  Bool, true, false, not, ◌&&◌, ◌||◌, Option, none, some, ◌==◌, ◌!=◌, length, ◌≡◌, ◌≢◌, ltb, arith,
  if◌then◌else◌, refl, ◌⊎◌,
}
use delivery_system.Errors.{
  Code, Result, ok, ◌>>=◌, ◌>>◌, raise_if, attempt_state_transition_invalid,
  application_state_transition_invalid, application_binding_conflict,
  application_orchestration_policy_invalid, application_coordination_invalid,
  application_progress_invalid,
}
use delivery_system.Identity.{ApplicationIdentity_eq, CredentialContinuityAnchor_eq}
use delivery_system.Execution.{
  Status, pending, applying, partially_applied, failed, blocked, outcome_unknown, applied,
  Status_eq, ApplicationExecution, OperationAttempt, is_none, is_claimable,
}

-- `_ATTEMPT_TRANSITIONS`: whether the second state is among those that the first may go to.
unfoldable pub attempt_transition : Status → Status → Bool
attempt_transition pending applying = true
attempt_transition pending failed = true
attempt_transition pending blocked = true
attempt_transition applying applied = true
attempt_transition applying failed = true
attempt_transition applying blocked = true
attempt_transition applying outcome_unknown = true
attempt_transition _ _ = false

-- `_APPLICATION_TRANSITIONS`
unfoldable pub application_transition : Status → Status → Bool
application_transition pending applying = true
application_transition pending failed = true
application_transition pending blocked = true
application_transition applying partially_applied = true
application_transition applying failed = true
application_transition applying blocked = true
application_transition applying outcome_unknown = true
application_transition partially_applied applying = true
application_transition partially_applied failed = true
application_transition partially_applied blocked = true
application_transition _ _ = false

unfoldable pub validate_attempt_transition : OperationAttempt → OperationAttempt → Result (Unit {0})
unfolding attempt_transition
validate_attempt_transition previous candidate =
    raise_if (not (attempt_transition previous.state candidate.state))
      attempt_state_transition_invalid

-- `refs[:-1]`
unfoldable pub all_but_last {ℓ} : {A : Type ℓ} → List A → List A
all_but_last [] = []
all_but_last (x ∷ []) = []
all_but_last (x ∷ y ∷ xs) = x ∷ all_but_last (y ∷ xs)

-- `not value`, of an optional string
unfoldable pub is_missing : Option String → Bool
is_missing none = true
is_missing (some s) = s == ""

-- The coordination checks by the previous state.
unfoldable pub validate_coordination :
    Status → ApplicationExecution → ApplicationExecution → Result (Unit {0})
unfolding is_missing is_none
validate_coordination partially_applied p c = do
  raise_if (not (is_none p.owner_id) || not (is_none p.current_attempt_id))
      application_coordination_invalid
  raise_if (c.state == applying && (is_missing c.owner_id || is_missing c.current_attempt_id))
      application_coordination_invalid
  raise_if
      ((c.state == failed || c.state == blocked)
        && (not (is_none c.owner_id) || not (is_none c.current_attempt_id)))
      application_coordination_invalid
validate_coordination pending p c = do
  raise_if (not (is_none p.owner_id) || not (is_none p.current_attempt_id))
      application_coordination_invalid
  raise_if (c.state == applying && (is_missing c.owner_id || is_missing c.current_attempt_id))
      application_coordination_invalid
  raise_if
      ((c.state == failed || c.state == blocked)
        && (not (is_none c.owner_id) || not (is_none c.current_attempt_id)))
      application_coordination_invalid
validate_coordination applying p c =
    if c.state == partially_applied
    then raise_if
        (c.next_operation_index != p.next_operation_index + 1
          || (not (is_none c.owner_id) || not (is_none c.current_attempt_id)))
        application_coordination_invalid
    else raise_if
        ((c.state == failed || (c.state == blocked || c.state == outcome_unknown))
          && (c.next_operation_index != p.next_operation_index
              || (c.operation_receipt_refs != p.operation_receipt_refs
                  || (c.current_attempt_id != p.current_attempt_id
                      || (not (is_none c.owner_id) && c.owner_id != p.owner_id)))))
        application_coordination_invalid
validate_coordination _ p c = ok tt

-- The difference `progress_delta` of the source is signed; it is compared here without subtraction.
unfoldable pub validate_application_transition :
    ApplicationExecution → ApplicationExecution → Result (Unit {0})
unfolding application_transition all_but_last validate_coordination is_none
validate_application_transition p c = do
  raise_if (not (application_transition p.state c.state)) application_state_transition_invalid
  raise_if
      (p.application_id != c.application_id
        || (p.identity != c.identity
            || (p.continuity_anchor != c.continuity_anchor || p.started_at != c.started_at)))
      application_binding_conflict
  raise_if (p.orchestration_policy != c.orchestration_policy)
      application_orchestration_policy_invalid
  raise_if (not (is_none p.completed_at) && c.completed_at != p.completed_at)
      application_coordination_invalid
  raise_if
      (p.next_operation_index != length p.operation_receipt_refs
        || c.next_operation_index != length c.operation_receipt_refs)
      application_progress_invalid
  let stays = c.next_operation_index == p.next_operation_index
  let advances = c.next_operation_index == p.next_operation_index + 1
  let keeps_refs = c.operation_receipt_refs == p.operation_receipt_refs
  raise_if (not (stays || advances)) application_progress_invalid
  raise_if ((p.state != applying || c.state != partially_applied) && (not stays || not keeps_refs))
      application_progress_invalid
  raise_if (stays && not keeps_refs) application_progress_invalid
  raise_if (advances && all_but_last c.operation_receipt_refs != p.operation_receipt_refs)
      application_progress_invalid
  validate_coordination p.state p c
