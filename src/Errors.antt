-- ===== src/Errors.antt =====
-- What the program raises: `ValueError(code)`, by its code, and the exceptions of other classes
-- that the modelled code can meet. A function that may raise returns a `Result`.
use delivery_system.Base.{
  ◌≡◌, refl, String, Bool, true, false, Option, none, some, arith, ◌⊎◌, inl, inr,
}

-- The codes that the modelled modules write, and any other text.
pub data Code : Type 0 where
  write_operation_set_invalid write_operation_shape_invalid : Code
  write_operation_client_refs_duplicate write_operation_item_set_invalid : Code
  write_operation_relationships_invalid write_operation_endpoint_invalid : Code
  write_operation_create_endpoint_invalid write_operation_relationship_shape_invalid : Code
  write_operation_kind_not_write_eligible write_operation_endpoint_set_invalid : Code
  write_operation_reference_namespace_collision : Code
  attempt_state_transition_invalid application_state_transition_invalid : Code
  application_binding_conflict application_orchestration_policy_invalid : Code
  application_coordination_invalid application_progress_invalid application_state_invalid : Code
  operation_attempt_binding_invalid operation_attempt_invalid : Code
  applier_orchestration_required application_orchestration_policy_mismatch : Code
  runtime_authority_required runtime_authority_invalid runtime_context_owner_mismatch : Code
  state_integrity_invalid application_not_found application_initial_state_invalid : Code
  application_state_stale application_claim_unavailable application_already_complete : Code
  application_claim_stale receipt_binding_conflict execution_clock_invalid : Code
  application_finalization_invalid application_receipt_incomplete : Code
  application_receipt_integrity_invalid application_receipt_not_found : Code
  application_replay_validation_required application_replay_binding_invalid : Code
  operation_attempt_not_found operation_attempt_binding_conflict attempt_integrity_invalid : Code
  operation_attempt_claim_state_invalid operation_attempt_already_exists attempt_state_stale : Code
  operation_receipt_not_found receipt_integrity_invalid workspace_mismatch : Code
  application_finalization_required : Code
  historical_execution_invalid historical_attempt_invalid credential_continuity_mismatch : Code
  application_receipt_invalid application_receipt_binding_invalid remote_result_invalid : Code
  operation_receipt_invalid operation_receipt_binding_invalid : Code
  application_recovery_required : Code
  write_reference_unavailable write_executor_invalid write_operation_kind_invalid : Code
  write_observation_invalid write_reference_invalid write_command_invalid : Code
  repository_identity_invalid sealed_item_field_invalid sealed_item_provenance_invalid : Code
  existing_endpoint_not_found existing_endpoint_repository_mismatch : Code
  existing_endpoint_identity_mismatch existing_endpoint_write_address_invalid : Code
  existing_endpoint_semantic_stale relationship_already_exists : Code
  remote_observation_unavailable : Code
  credential_capability_unregistered credential_principal_mismatch : Code
  credential_instance_mismatch credential_repository_mismatch credential_scope_mismatch : Code
  credential_capability_mismatch credential_currentness_mismatch credential_expired : Code
  github_write_rejected github_write_transport_ambiguous github_write_authority_rejected : Code
  github_write_target_unavailable github_write_conflict github_write_rate_limited : Code
  github_write_redirect_rejected github_write_credential_required : Code
  invalid_audit_status_transition approval_requires_passed_active_audit : Code
  approval_requires_remote_snapshot_digest : Code
  invalid_input audit_commit_boundary_required : Code
  other : String → Code

pub data Error : Type 0 where
  value_error : Code → Error
  -- `sqlite3.IntegrityError`, which is no `ValueError`
  integrity_error : Error
  -- any other exception class, by its name
  raised : String → Error

-- What a call comes to: the exception that it raises, or the value that it returns.
pub data Result {ℓ} (A : Type ℓ) : Type ℓ where
  err : Error → Result A
  ok : A → Result A

abbrev pub raise {ℓ} : {A : Type ℓ} → Code → Result A
raise code = err (value_error code)

infixl 5 ◌>>=◌
abbrev pub ◌>>=◌ {ℓ ℓ'} : {X : Type ℓ} {Y : Type ℓ'} → Result X → (X → Result Y) → Result Y
err raised_error >>= next = err raised_error
ok value >>= next = next value

-- A check, and what runs if it passes.
infixl 5 ◌>>◌
abbrev pub ◌>>◌ {ℓ} : {Y : Type ℓ} → Result (Unit {0}) → Result Y → Result Y
check >> next = check >>= λ passed. next

-- `if test: raise ValueError(code)`
abbrev pub raise_if : Bool → Code → Result (Unit {0})
raise_if true c = raise c
raise_if false c = ok tt

-- `if not test: raise ValueError(code)`
abbrev pub require : Bool → Code → Result (Unit {0})
require true c = ok tt
require false c = raise c

abbrev pub or_raise {ℓ} : {A : Type ℓ} → Option A → Code → Result A
or_raise none c = raise c
or_raise (some a) c = ok a

-- A sequence that returns has returned at each of its two parts.
pub >>=-eq-ok {ℓ ℓ'} :
    {X : Type ℓ} {Y : Type ℓ'} (first : Result X) (next : X → Result Y) {y : Y}
    → (first >>= next) ≡ ok y
    → (x : X) × (first ≡ ok x) × (next x ≡ ok y)
>>=-eq-ok (err e) next returns = cc
>>=-eq-ok (ok x) next returns = (x, refl, returns)

pub require-eq-ok : (b : Bool) (c : Code) {u : Unit {0}} → require b c ≡ ok u → b ≡ true
require-eq-ok true c h = refl
require-eq-ok false c h = cc

-- A passed check, and what runs after it.
pub raise_if-eq-ok : (b : Bool) (c : Code) {u : Unit {0}} → raise_if b c ≡ ok u → b ≡ false
raise_if-eq-ok true c h = cc
raise_if-eq-ok false c h = refl

pub raise_if-then-eq-ok {ℓ} :
    {A : Type ℓ} (b : Bool) (c : Code) (m : Result A) {a : A}
    → (raise_if b c >> m) ≡ ok a
    → (b ≡ false) × (m ≡ ok a)
raise_if-then-eq-ok true c m h = cc
raise_if-then-eq-ok false c m h = (refl, h)

pub or_raise-eq-ok {ℓ} :
    {A : Type ℓ} (o : Option A) (c : Code) {a : A} → or_raise o c ≡ ok a → o ≡ some a
or_raise-eq-ok o c h = ground arith

pub ok-injective {ℓ} : {A : Type ℓ} (a b : A) → ok a ≡ ok b → a ≡ b
ok-injective a b h = cc

-- A result that branches on an option, by its branches.
pub elim-Option-eq-ok {ℓ κ} :
    {A : Type ℓ} {B : Type κ} (o : Option A) (n : Result B) (s : A → Result B) {b : B}
    → elim o [ none ↦ n | some a ↦ s a ] ≡ ok b
    → ((o ≡ none) × (n ≡ ok b)) ⊎ ((a : A) × (o ≡ some a) × (s a ≡ ok b))
elim-Option-eq-ok none n s h = inl (refl, h)
elim-Option-eq-ok (some a) n s h = inr (a, refl, h)
