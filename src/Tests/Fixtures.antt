-- ===== src/Tests/Fixtures.antt =====
-- Concrete digests, instants and records, and an application of two operations.
use Prim.Native.String.{◌++◌}
use delivery_system.Base.{
  ℕ, ℕ_eq, String, String_eq, [], ◌∷◌, true, none, some, ◌==◌, if◌then◌else◌,
}
use delivery_system.Errors.{Result, ok, err}
use delivery_system.Value.{null}
use delivery_system.WriteOperations.{WriteOperation, create_issue}
use delivery_system.Identity.{
  ApplicationIdentity, AuthorityProvenance, CredentialContinuityAnchor, principal, IdentityDigests,
}
use delivery_system.Execution.{pending, ApplicationExecution, applier_orchestration_policy}
use delivery_system.Receipts.{Digests, OperationReceipt}
use delivery_system.Context.{ExecutionContext, Currentness}
use delivery_system.Store.{Database, Caller, Clock, Live}

abbrev pub identity_digests : IdentityDigests
identity_digests = record {
  application_hex = λ identity. identity.preview_id;
  operation_hex = λ application index operation. if index == 0 then "first" else "second";
  request_hex = λ operation. operation;
  operation_receipt_hex = λ operation. operation;
  application_receipt_hex = λ application. application;
}

abbrev pub digests : Digests
digests = record {
  states = record {
    identities = identity_digests;
    execution_digest = λ s. "state at " ++ s.updated_at;
    attempt_payload_digest = λ a. "attempt at " ++ a.updated_at;
  };
  receipt_payload_digest = λ r. "receipt at " ++ r.completed_at;
  application_receipt_payload_digest = λ r. "application receipt at " ++ r.completed_at;
  result_payload_digest = λ v. "result";
}

abbrev pub clock : Clock
clock = record {
  read_utc = λ s.
      if s == "10:00Z"
      then some 600
      else if s == "10:01Z"
      then some 601
      else if s == "10:02Z"
      then some 602
      else if s == "09:59Z"
      then some 599
      else none;
  write_utc = λ n.
      if n == 600
      then "10:00Z"
      else if n == 601
      then "10:01Z"
      else if n == 602
      then "10:02Z"
      else "09:59Z";
}

abbrev pub caller : Caller
caller = record { orchestration_enabled = true; capability_valid = true }

abbrev pub provenance : AuthorityProvenance
provenance = record {
  authority_id = "authority";
  credential_binding_id = "binding";
  credential_instance_id = "instance";
  issuer_id = "issuer";
  credential_principal_identity = "principal";
  github_subject_identity = "subject";
  issued_at = "10:00Z";
  expires_at = "11:00Z";
  driver_identity = "driver";
  remote_authority = "github.com";
  application_id = "application-preview";
}

abbrev pub identity : ApplicationIdentity
identity = record {
  workspace_identity = "workspace";
  repository_identity = "repository";
  preview_id = "preview";
  revision = 1;
  sealed_preview_digest = "sealed";
  plan_digest = "plan";
  operation_set_digest = "operations";
  remote_snapshot_digest = "snapshot";
  audit_id = "audit";
  audit_digest = "audited";
  approval_id = "approval";
  approval_digest = "approved";
  github_subject_identity = "subject";
  driver_identity = "driver";
  remote_authority = "github.com";
  required_capabilities = [];
}

abbrev pub anchor : CredentialContinuityAnchor
anchor = record { mode = principal; values = "principal" ∷ [] }

abbrev pub create : String → WriteOperation
create ref = record { operation_kind = create_issue; client_refs = ref ∷ []; depends_on = [] }

abbrev pub context : ExecutionContext
context = record {
  identity = identity;
  continuity_anchor = anchor;
  provenance = provenance;
  expected_operations = create "a" ∷ create "b" ∷ [];
}

abbrev pub always : Currentness
always = λ k. ok tt

abbrev pub initial_state : ApplicationExecution
initial_state = record {
  application_id = "application-preview";
  identity = identity;
  state = pending;
  next_operation_index = 0;
  owner_id = none;
  current_attempt_id = none;
  recovery_code = none;
  operation_receipt_refs = [];
  started_at = "10:00Z";
  updated_at = "10:00Z";
  completed_at = none;
  continuity_anchor = anchor;
  orchestration_policy = some applier_orchestration_policy;
  state_digest = "state at 10:00Z";
}

abbrev pub empty : Database
empty = record {
  application_execution = [];
  operation_attempts = [];
  operation_receipts = [];
  application_receipts = [];
}

abbrev pub owner : String
owner = "execution-owner-0123456789abcdef0123456789abcdef"

abbrev pub receipt_of : String → ℕ → String → Live OperationReceipt
receipt_of operation index ref = record {
  artifact = record {
    operation_receipt_id = "operation-receipt-" ++ operation;
    application_id = "application-preview";
    identity = identity;
    operation_identity = operation;
    operation_index = index;
    canonical_operation = create ref;
    request_identity = "application-request-" ++ operation;
    authority_binding = provenance;
    remote_result = record {
      result_kind = "Issue";
      result_identity = "1";
      result_digest = "result";
      result_payload = null;
    };
    started_at = "10:01Z";
    completed_at = "10:01Z";
    receipt_digest = "receipt at 10:01Z";
  };
  owned = true;
  registered = true;
}

abbrev pub result_or {ℓ} : {A : Type ℓ} → A → Result A → A
result_or a (ok b) = b
result_or a (err e) = a
