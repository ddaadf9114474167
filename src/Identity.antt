-- ===== src/Identity.antt =====
-- application_identity.py, and the provenance of receipts.py: the identities that bind execution
-- records. `hashlib` is not part of the repository: `Digests` holds the digests of canonical.py as
-- unknown functions of the payload that is hashed, without the `sha256:` that the source splits off.
use delivery_system.Base.{
  Bool, ◌&&◌, ◌==◌, ◌||◌, not, any, length, distinct, ltb, ℕ_eq, List_eq, ℕ, String, String_eq,
  List, [], ◌∷◌, ◌!=◌, Eq, String-discrete, List-discrete, if◌then◌else◌,
}
use Prim.Native.String.{◌++◌}
use native.Mathlib.Decide.{ℕ_discrete}
use delivery_system.Errors.{other, Result, ◌>>◌, raise_if}
use delivery_system.WriteOperations.{WriteOperation}

-- `APPLICATION_BINDING_FIELDS`: the validated values of a `LogicalApplicationIdentity`.
pub record ApplicationIdentity : Type 0 where
  pub workspace_identity : String
  pub repository_identity : String
  pub preview_id : String
  pub revision : ℕ
  pub sealed_preview_digest : String
  pub plan_digest : String
  pub operation_set_digest : String
  pub remote_snapshot_digest : String
  pub audit_id : String
  pub audit_digest : String
  pub approval_id : String
  pub approval_digest : String
  pub github_subject_identity : String
  pub driver_identity : String
  pub remote_authority : String
  pub required_capabilities : List String

pub data ContinuityMode : Type 0 where
  principal legacy_instance : ContinuityMode

pub record CredentialContinuityAnchor : Type 0 where
  pub mode : ContinuityMode
  pub values : List String

-- `AuthorityProvenance` of receipts.py.
pub record AuthorityProvenance : Type 0 where
  pub authority_id : String
  pub credential_binding_id : String
  pub credential_instance_id : String
  pub issuer_id : String
  pub credential_principal_identity : String
  pub github_subject_identity : String
  pub issued_at : String
  pub expires_at : String
  pub driver_identity : String
  pub remote_authority : String
  pub application_id : String

unfoldable pub ApplicationIdentity-discrete : Discrete ApplicationIdentity
ApplicationIdentity-discrete = hlevel (String-discrete, ℕ_discrete, List-discrete String-discrete)

unfoldable pub ContinuityMode-discrete : Discrete ContinuityMode
ContinuityMode-discrete = hlevel

unfoldable pub CredentialContinuityAnchor-discrete : Discrete CredentialContinuityAnchor
CredentialContinuityAnchor-discrete =
    hlevel (ContinuityMode-discrete, List-discrete String-discrete)

unfoldable pub AuthorityProvenance-discrete : Discrete AuthorityProvenance
AuthorityProvenance-discrete = hlevel String-discrete

instance unfoldable pub AuthorityProvenance_eq : Eq AuthorityProvenance
AuthorityProvenance_eq = record { dec = AuthorityProvenance-discrete }

instance unfoldable pub ApplicationIdentity_eq : Eq ApplicationIdentity
ApplicationIdentity_eq = record { dec = ApplicationIdentity-discrete }

instance unfoldable pub CredentialContinuityAnchor_eq : Eq CredentialContinuityAnchor
CredentialContinuityAnchor_eq = record { dec = CredentialContinuityAnchor-discrete }

-- `CredentialContinuityAnchor.__init__`; the mode is a type here.
unfoldable pub check_anchor : CredentialContinuityAnchor → Result (Unit {0})
check_anchor anchor = do
  raise_if (anchor.values == [] || any (λ value. value == "") anchor.values)
      (other "credential_continuity_invalid")
  elim anchor.mode [
    | principal ↦ raise_if (length anchor.values != 1) (other "credential_continuity_invalid")
    | legacy_instance ↦ raise_if (length anchor.values != 2) (other "credential_continuity_invalid")
  ]

-- The tests of `_logical_values`, on values of the types that it asks for; it sorts the capabilities.
unfoldable pub check_identity_values : ApplicationIdentity → Result (Unit {0})
check_identity_values i = do
  raise_if (ltb i.revision 1) (other "application_binding_invalid")
  raise_if
      (any (λ value. value == "") i.required_capabilities || not (distinct i.required_capabilities))
      (other "application_binding_invalid")
  raise_if
      (any (λ value. value == "")
        (i.workspace_identity ∷ i.repository_identity ∷ i.preview_id ∷ i.sealed_preview_digest
          ∷ i.plan_digest ∷ i.operation_set_digest ∷ i.remote_snapshot_digest ∷ i.audit_id
          ∷ i.audit_digest ∷ i.approval_id ∷ i.approval_digest ∷ i.github_subject_identity
          ∷ i.driver_identity ∷ i.remote_authority ∷ []))
      (other "application_binding_invalid")

-- `from_authority` of `CredentialContinuityAnchor`, on the fields that it reads.
unfoldable pub anchor_of : AuthorityProvenance → CredentialContinuityAnchor
anchor_of authority =
    if authority.credential_principal_identity != ""
    then record { mode = principal; values = authority.credential_principal_identity ∷ [] }
    else record {
      mode = legacy_instance;
      values = authority.issuer_id ∷ authority.credential_instance_id ∷ [];
    }

pub record IdentityDigests : Type 0 where
  pub application_hex : ApplicationIdentity → String
  pub operation_hex : String → ℕ → WriteOperation → String
  pub request_hex : String → String
  pub operation_receipt_hex : String → String
  pub application_receipt_hex : String → String

module _ (digests : IdentityDigests) where
  unfoldable pub application_id : ApplicationIdentity → String
  application_id identity = "application-" ++ digests.application_hex identity

  unfoldable pub operation_identity : String → ℕ → WriteOperation → String
  operation_identity application_identifier index operation =
      "operation-" ++ digests.operation_hex application_identifier index operation

  unfoldable pub request_identity : String → String
  request_identity operation_identifier =
      "application-request-" ++ digests.request_hex operation_identifier

  -- The identifiers that `OperationReceipt.create` and `ApplicationReceipt.create` compute.
  unfoldable pub operation_receipt_id : String → String
  operation_receipt_id operation_identifier =
      "operation-receipt-" ++ digests.operation_receipt_hex operation_identifier

  unfoldable pub application_receipt_id : String → String
  application_receipt_id application_identifier =
      "application-receipt-" ++ digests.application_receipt_hex application_identifier

  -- `authority_is_compatible` of a live context that is current, by the values that it compares: the
  -- identity and the provenance are the context's, the others those to compare with.
  unfoldable pub authority_is_compatible :
      ApplicationIdentity
      → AuthorityProvenance
      → ApplicationIdentity
      → CredentialContinuityAnchor
      → Bool
  unfolding application_id anchor_of
  authority_is_compatible candidate authority expected expected_anchor =
      (application_id candidate == application_id expected && candidate == expected)
      && anchor_of authority == expected_anchor
