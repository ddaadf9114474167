-- ===== src/Audit.antt =====
-- audit_state.py: the record of an audit, its status, and the approval that binds to it.
pub mod Lifecycle
use Prim.Native.String.{◌++◌}
use delivery_system.Base.{
  ℕ, ℕ_eq, String, String_eq, Option_eq, List, [], ◌∷◌, Bool, true, false, not, ◌&&◌, ◌||◌, Option,
  none, some, any, all, ◌==◌, ◌!=◌, if◌then◌else◌, ltb, Eq,
}
use delivery_system.Errors.{
  other, Result, ok, ◌>>=◌, ◌>>◌, raise, raise_if, invalid_audit_status_transition,
  approval_requires_passed_active_audit, approval_requires_remote_snapshot_digest,
}
use delivery_system.Value.{Value}

pub data AuditResult : Type 0 where
  passed needs_information changes_required audit_blocked : AuditResult

pub data AuditStatus : Type 0 where
  active stale invalid : AuditStatus

unfoldable pub AuditResult-discrete : Discrete AuditResult
AuditResult-discrete = hlevel

unfoldable pub AuditStatus-discrete : Discrete AuditStatus
AuditStatus-discrete = hlevel

instance unfoldable pub AuditResult_eq : Eq AuditResult
AuditResult_eq = record { dec = AuditResult-discrete }

instance unfoldable pub AuditStatus_eq : Eq AuditStatus
AuditStatus_eq = record { dec = AuditStatus-discrete }

pub record AuditRecord : Type 0 where
  pub audit_id : String
  pub preview_id : String
  pub revision : ℕ
  pub plan_digest : String
  pub remote_snapshot_digest : Option String
  pub audit_digest : String
  pub result : AuditResult
  pub operation_set_digest : String
  pub status : AuditStatus
  pub sealed_preview_digest : String
  pub workspace_identity : String
  pub audit_scope : String
  pub audit_payload_digest : String
  pub audit_context_digest : String
  pub rule_registry_version : Option String
  pub rule_registry_digest : Option String
  pub rule_evaluations : List Value
  pub findings : List Value
  pub evidence_refs : List String
  pub created_at : String

-- What Python's library answers: whether a text is an instant in UTC, or one with some offset, whether
-- a text is blank, the decimal text of a number; and the digest of an audit's payload.
pub record AuditDigests : Type 0 where
  pub is_utc_instant : String → Bool
  pub is_zoned_instant : String → Bool
  pub is_blank : String → Bool
  pub decimal : ℕ → String
  pub payload_digest : AuditRecord → String

-- `not value`, of an optional text
unfoldable pub is_absent : Option String → Bool
is_absent none = true
is_absent (some s) = s == ""

-- The payload of `_computed_digest`: the other fields play no part in it.
unfoldable pub audit_payload : AuditRecord → AuditRecord
audit_payload a = record a {
  audit_digest = "";
  rule_evaluations = [];
  findings = [];
  evidence_refs = [];
  created_at = "";
}

-- `allowed` of `transition`
unfoldable pub status_allowed : AuditStatus → AuditStatus → Bool
status_allowed active stale = true
status_allowed active invalid = true
status_allowed stale invalid = true
status_allowed _ _ = false

unfoldable pub approval_eligible : AuditRecord → Bool
approval_eligible a = a.audit_scope == "WriteEligible" && (a.status == active && a.result == passed)

module _ (digests : AuditDigests) where
  -- `AuditRecord.__post_init__`; the enumerations are types here.
  unfoldable pub check_audit : AuditRecord → Result (Unit {0})
  unfolding is_absent
  check_audit a = do
    raise_if
        (ltb a.revision 1
          || (any (λ value. value == "")
                (a.audit_id ∷ a.preview_id ∷ a.plan_digest ∷ a.audit_digest ∷ a.operation_set_digest
                  ∷ [])
              || a.remote_snapshot_digest == some ""))
        (other "AuditRecord required fields are invalid")
    raise_if
        (a.audit_payload_digest != ""
          && (a.sealed_preview_digest == ""
              || (a.workspace_identity == ""
                  || (a.audit_context_digest == ""
                      || (is_absent a.rule_registry_version
                          || (is_absent a.rule_registry_digest || a.created_at == ""))))))
        (other "audit_record_formal_fields_invalid")
    raise_if (a.audit_payload_digest != "" && not (digests.is_utc_instant a.created_at))
        (other "audit_created_at_invalid")

  unfoldable pub computed_digest : AuditRecord → String
  unfolding audit_payload
  computed_digest a = digests.payload_digest (audit_payload a)

  unfoldable pub verify_audit_digest : AuditRecord → Bool
  unfolding computed_digest
  verify_audit_digest a = a.audit_digest != "" && a.audit_digest == computed_digest a

  -- `replace` of dataclasses makes a new record, which its constructor checks.
  unfoldable pub checked : AuditRecord → Result AuditRecord
  checked a = do check_audit a; ok a

  -- `AuditRecord.create`, of the values that it is given: the digest and the status are its own.
  unfoldable pub create_audit : AuditRecord → Result AuditRecord
  unfolding computed_digest
  create_audit values = do
    draft ← checked (record values { audit_digest = "pending"; status = active })
    checked (record draft { audit_digest = computed_digest draft })

  unfoldable pub transition : AuditRecord → AuditStatus → Result AuditRecord
  unfolding computed_digest status_allowed
  transition a status = if status == a.status then ok a else do
    raise_if (not (status_allowed a.status status)) invalid_audit_status_transition
    moved ← checked (record a { status = status })
    draft ← checked (record moved { audit_digest = "pending" })
    checked (record draft { audit_digest = computed_digest draft })

-- The texts of `AuditResult`.
unfoldable pub result_text : AuditResult → String
result_text passed = "Passed"
result_text needs_information = "NeedsInformation"
result_text changes_required = "ChangesRequired"
result_text audit_blocked = "Blocked"

pub record ApprovalRecord : Type 0 where
  pub approval_id : String
  pub audit_id : String
  pub audit_digest : String
  pub audit_result : String
  pub preview_id : String
  pub revision : ℕ
  pub plan_digest : String
  pub remote_snapshot_digest : String
  pub operation_set_digest : String
  pub repository_identity : Option String
  pub approval_command : String
  pub approver_claim : String
  pub approved_at : String
  pub status : String

module _ (digests : AuditDigests) where
  -- `isinstance(repository_identity, str) and bool(repository_identity.strip())`
  unfoldable pub names_repository : Option String → Bool
  names_repository none = false
  names_repository (some s) = not (digests.is_blank s)

  unfoldable pub is_structurally_valid : ApprovalRecord → Bool
  unfolding names_repository result_text
  is_structurally_valid a =
      digests.is_zoned_instant a.approved_at
      && (a.audit_result == result_text passed
          && (a.approval_command == "批准写入 " ++ (a.preview_id ++ (" " ++ digests.decimal a.revision))
              && (names_repository a.repository_identity
                  && (a.status == "valid"
                      && all (λ value. value != "")
                          (a.approval_id ∷ a.audit_id ∷ a.audit_digest ∷ a.preview_id
                            ∷ a.plan_digest ∷ a.remote_snapshot_digest ∷ a.operation_set_digest
                            ∷ a.approval_command ∷ a.approver_claim ∷ a.approved_at ∷ [])))))

  unfoldable pub approval_matches : ApprovalRecord → AuditRecord → Bool
  unfolding is_structurally_valid result_text verify_audit_digest
  approval_matches a audit =
      is_structurally_valid a
      && (a.audit_result == result_text passed
          && (audit.result == passed
              && (audit.status == active
                  && (verify_audit_digest digests audit
                      && (a.audit_id == audit.audit_id
                          && (a.audit_digest == audit.audit_digest
                              && (a.preview_id == audit.preview_id
                                  && (a.revision == audit.revision
                                      && (a.plan_digest == audit.plan_digest
                                          && (some a.remote_snapshot_digest
                                                == audit.remote_snapshot_digest
                                              && a.operation_set_digest
                                                == audit.operation_set_digest))))))))))

-- The text that an option holds; `create_approval` asks for it where there is one.
unfoldable pub text_or_empty : Option String → String
text_or_empty none = ""
text_or_empty (some s) = s

-- `ApprovalRecord.create`
unfoldable pub create_approval :
    String → AuditRecord → String → String → String → String → Result ApprovalRecord
unfolding is_absent result_text text_or_empty
create_approval approval_id audit repository_identity approver_claim approved_at approval_command =
    do
      raise_if (audit.result != passed || audit.status != active)
          approval_requires_passed_active_audit
      raise_if (is_absent audit.remote_snapshot_digest) approval_requires_remote_snapshot_digest
      ok (record {
        approval_id = approval_id;
        audit_id = audit.audit_id;
        audit_digest = audit.audit_digest;
        audit_result = result_text audit.result;
        preview_id = audit.preview_id;
        revision = audit.revision;
        plan_digest = audit.plan_digest;
        remote_snapshot_digest = text_or_empty audit.remote_snapshot_digest;
        operation_set_digest = audit.operation_set_digest;
        repository_identity = some repository_identity;
        approval_command = approval_command;
        approver_claim = approver_claim;
        approved_at = approved_at;
        status = "valid";
      })
