-- ===== src/Execution.antt =====
-- execution_state.py: the durable records of an application and of an attempt at one operation.
-- A record's fields have the types that the source tests for; the payload that a digest covers is
-- the record with its digest field blank.
pub mod Transitions
use delivery_system.Base.{
  ◌≡◌, refl, ℕ, ℕ_eq, String, String_eq, List_eq, Option_eq, List, [], Bool, true, false, not, ◌&&◌,
  ◌||◌, Option, none, some, all, distinct, ◌==◌, ◌!=◌, Eq, length,
}
use delivery_system.Errors.{
  Code, Result, ok, ◌>>=◌, ◌>>◌, raise_if, application_state_invalid,
  application_orchestration_policy_invalid, application_coordination_invalid,
  operation_attempt_binding_invalid, operation_attempt_invalid,
}
use delivery_system.WriteOperations.{WriteOperation}
use delivery_system.Identity
use delivery_system.Identity.{
  ApplicationIdentity, CredentialContinuityAnchor, AuthorityProvenance, IdentityDigests,
  operation_identity, request_identity,
}

-- The strings of `APPLICATION_STATES`; those of `ATTEMPT_STATES` are among them.
pub data Status : Type 0 where
  pending applying partially_applied failed blocked outcome_unknown applied : Status

unfoldable pub Status-discrete : Discrete Status
Status-discrete = hlevel

instance unfoldable pub Status_eq : Eq Status
Status_eq = record { dec = Status-discrete }

unfoldable pub is_attempt_state : Status → Bool
is_attempt_state partially_applied = false
is_attempt_state _ = true

-- `APPLIER_ORCHESTRATION_POLICY`
abbrev pub applier_orchestration_policy : String
applier_orchestration_policy = "delivery-system:applier-orchestration-v1"

pub record ApplicationExecution : Type 0 where
  pub application_id : String
  pub identity : ApplicationIdentity
  pub state : Status
  pub next_operation_index : ℕ
  pub owner_id : Option String
  pub current_attempt_id : Option String
  pub recovery_code : Option Code
  pub operation_receipt_refs : List String
  pub started_at : String
  pub updated_at : String
  pub completed_at : Option String
  pub continuity_anchor : CredentialContinuityAnchor
  pub orchestration_policy : Option String
  pub state_digest : String

pub record OperationAttempt : Type 0 where
  pub application_id : String
  pub operation_identity : String
  pub operation_index : ℕ
  pub operation : WriteOperation
  pub authority_binding : AuthorityProvenance
  pub driver_identity : String
  pub remote_authority : String
  pub request_identity : String
  pub state : Status
  pub started_at : String
  pub updated_at : String
  pub identity : ApplicationIdentity
  pub failure_code : Option Code
  pub attempt_digest : String

unfoldable pub is_none {ℓ} : {A : Type ℓ} → Option A → Bool
is_none none = true
is_none (some a) = false

-- `state in {"Pending", "PartiallyApplied"}`
unfoldable pub is_claimable : Status → Bool
is_claimable pending = true
is_claimable partially_applied = true
is_claimable _ = false

-- `canonical.digest` of the payloads of the two records.
pub record StateDigests : Type 0 where
  pub identities : IdentityDigests
  pub execution_digest : ApplicationExecution → String
  pub attempt_payload_digest : OperationAttempt → String

module _ (digests : StateDigests) where
  -- `ApplicationExecutionState.__post_init__`
  unfoldable pub check_execution : ApplicationExecution → Result (Unit {0})
  unfolding is_claimable is_none
  check_execution s = do
    raise_if (s.application_id != Identity.application_id digests.identities s.identity)
        application_state_invalid
    raise_if
        (not (is_none s.orchestration_policy)
          && s.orchestration_policy != some applier_orchestration_policy)
        application_orchestration_policy_invalid
    raise_if
        (not (all (λ ref. ref != "") s.operation_receipt_refs)
          || not (distinct s.operation_receipt_refs))
        application_state_invalid
    raise_if (s.started_at == "" || s.updated_at == "") application_state_invalid
    raise_if
        (is_claimable s.state && (not (is_none s.owner_id) || not (is_none s.current_attempt_id)))
        application_coordination_invalid

  -- The payload of a record: all but the digest.
  unfoldable pub execution_payload : ApplicationExecution → ApplicationExecution
  execution_payload s = record s { state_digest = "" }

  -- `ApplicationExecutionState.with_digest`; the constructor's checks have passed before.
  unfoldable pub with_state_digest : ApplicationExecution → ApplicationExecution
  unfolding execution_payload
  with_state_digest s = record s { state_digest = digests.execution_digest (execution_payload s) }

  unfoldable pub verify_execution : ApplicationExecution → Bool
  unfolding execution_payload
  verify_execution s =
      s.state_digest != "" && s.state_digest == digests.execution_digest (execution_payload s)

  -- `OperationAttemptState.__post_init__`
  unfoldable pub check_attempt : OperationAttempt → Result (Unit {0})
  unfolding is_attempt_state
  check_attempt a = do
    raise_if
        (a.application_id != Identity.application_id digests.identities a.identity
          || (a.operation_identity
                != operation_identity digests.identities a.application_id a.operation_index
                    a.operation
              || a.request_identity != request_identity digests.identities a.operation_identity))
        operation_attempt_binding_invalid
    raise_if
        (a.driver_identity != a.authority_binding.driver_identity
          || a.remote_authority != a.authority_binding.remote_authority)
        operation_attempt_binding_invalid
    raise_if (not (is_attempt_state a.state) || (a.started_at == "" || a.updated_at == ""))
        operation_attempt_invalid

  unfoldable pub attempt_payload : OperationAttempt → OperationAttempt
  attempt_payload a = record a { attempt_digest = "" }

  unfoldable pub with_attempt_digest : OperationAttempt → OperationAttempt
  unfolding attempt_payload
  with_attempt_digest a = record a {
    attempt_digest = digests.attempt_payload_digest (attempt_payload a);
  }

  unfoldable pub verify_attempt : OperationAttempt → Bool
  unfolding attempt_payload
  verify_attempt a =
      a.attempt_digest != ""
      && a.attempt_digest == digests.attempt_payload_digest (attempt_payload a)

pub is_none-eq-true {ℓ} : {A : Type ℓ} (o : Option A) → is_none o ≡ true → o ≡ none
unfolding is_none
is_none-eq-true none h = refl
is_none-eq-true (some a) h = cc
