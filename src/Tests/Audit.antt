-- ===== src/Tests/Audit.antt =====
-- A concrete audit, from its creation to its end.
use delivery_system.Base.{
  refl, ◌≡◌, ◌≢◌, true, false, some, none, [], String-discrete, Option-discrete, List-discrete,
  ℕ_eq, String_eq, Option_eq,
}
use delivery_system.Errors.{Result, ok}
use delivery_system.Audit.{
  AuditRecord, AuditDigests, ApprovalRecord, passed, active, stale, invalid, AuditResult-discrete,
  AuditStatus-discrete, AuditResult_eq, AuditStatus_eq, is_absent, audit_payload, status_allowed,
  approval_eligible, check_audit, computed_digest, verify_audit_digest, checked, create_audit,
  transition, result_text, names_repository, is_structurally_valid, approval_matches, text_or_empty,
  create_approval,
}
use delivery_system.Audit.Lifecycle.{
  begun, moved, transition-intact, inactive_forever, create_approval-matches,
}
use delivery_system.Tests.Fixtures.{result_or}

abbrev audit_digests : AuditDigests
audit_digests = record {
  is_utc_instant = λ s. true;
  is_zoned_instant = λ s. true;
  is_blank = λ s. false;
  decimal = λ n. "1";
  payload_digest = λ a. "digest";
}

abbrev values : AuditRecord
values = record {
  audit_id = "audit";
  preview_id = "preview";
  revision = 1;
  plan_digest = "plan";
  remote_snapshot_digest = some "snapshot";
  audit_digest = "";
  result = passed;
  operation_set_digest = "operations";
  status = active;
  sealed_preview_digest = "";
  workspace_identity = "";
  audit_scope = "WriteEligible";
  audit_payload_digest = "";
  audit_context_digest = "";
  rule_registry_version = none;
  rule_registry_digest = none;
  rule_evaluations = [];
  findings = [];
  evidence_refs = [];
  created_at = "";
}

abbrev audit : AuditRecord
audit = result_or values (create_audit audit_digests values)

abbrev stale_audit : AuditRecord
stale_audit = result_or values (transition audit_digests audit stale)

abbrev invalid_audit : AuditRecord
invalid_audit = result_or values (transition audit_digests stale_audit invalid)

abbrev approve : AuditRecord → Result ApprovalRecord
approve a = create_approval "approval" a "repository" "approver" "10:00Z" "批准写入 preview 1"

abbrev no_approval : ApprovalRecord
no_approval = record {
  approval_id = "";
  audit_id = "";
  audit_digest = "";
  audit_result = "";
  preview_id = "";
  revision = 1;
  plan_digest = "";
  remote_snapshot_digest = "";
  operation_set_digest = "";
  repository_identity = none;
  approval_command = "";
  approver_claim = "";
  approved_at = "";
  status = "";
}

abbrev approval : ApprovalRecord
approval = result_or no_approval (approve audit)

approved : approve audit ≡ ok approval
unfolding String-discrete Option-discrete List-discrete ℕ_eq String_eq Option_eq
    AuditResult-discrete AuditStatus-discrete AuditResult_eq AuditStatus_eq is_absent audit_payload
    status_allowed approval_eligible check_audit computed_digest verify_audit_digest checked
    create_audit transition result_text names_repository is_structurally_valid approval_matches
    text_or_empty create_approval
approved = refl

approval_valid : is_structurally_valid audit_digests approval ≡ true
unfolding String-discrete Option-discrete List-discrete ℕ_eq String_eq Option_eq
    AuditResult-discrete AuditStatus-discrete AuditResult_eq AuditStatus_eq is_absent audit_payload
    status_allowed approval_eligible check_audit computed_digest verify_audit_digest checked
    create_audit transition result_text names_repository is_structurally_valid approval_matches
    text_or_empty create_approval
approval_valid = refl

audit_intact : verify_audit_digest audit_digests audit ≡ true
unfolding String-discrete Option-discrete List-discrete ℕ_eq String_eq Option_eq
    AuditResult-discrete AuditStatus-discrete AuditResult_eq AuditStatus_eq is_absent audit_payload
    status_allowed approval_eligible check_audit computed_digest verify_audit_digest checked
    create_audit transition result_text names_repository is_structurally_valid approval_matches
    text_or_empty create_approval
audit_intact = refl

goes_stale : transition audit_digests audit stale ≡ ok stale_audit
unfolding String-discrete Option-discrete List-discrete ℕ_eq String_eq Option_eq
    AuditResult-discrete AuditStatus-discrete AuditResult_eq AuditStatus_eq is_absent audit_payload
    status_allowed approval_eligible check_audit computed_digest verify_audit_digest checked
    create_audit transition result_text names_repository is_structurally_valid approval_matches
    text_or_empty create_approval
goes_stale = refl

goes_invalid : transition audit_digests stale_audit invalid ≡ ok invalid_audit
unfolding String-discrete Option-discrete List-discrete ℕ_eq String_eq Option_eq
    AuditResult-discrete AuditStatus-discrete AuditResult_eq AuditStatus_eq is_absent audit_payload
    status_allowed approval_eligible check_audit computed_digest verify_audit_digest checked
    create_audit transition result_text names_repository is_structurally_valid approval_matches
    text_or_empty create_approval
goes_invalid = refl

is_other : stale ≢ audit.status
unfolding String-discrete Option-discrete List-discrete ℕ_eq String_eq Option_eq
    AuditResult-discrete AuditStatus-discrete AuditResult_eq AuditStatus_eq is_absent audit_payload
    status_allowed approval_eligible check_audit computed_digest verify_audit_digest checked
    create_audit transition result_text names_repository is_structurally_valid approval_matches
    text_or_empty create_approval
is_other e = cc

is_gone : stale_audit.status ≢ active
unfolding String-discrete Option-discrete List-discrete ℕ_eq String_eq Option_eq
    AuditResult-discrete AuditStatus-discrete AuditResult_eq AuditStatus_eq is_absent audit_payload
    status_allowed approval_eligible check_audit computed_digest verify_audit_digest checked
    create_audit transition result_text names_repository is_structurally_valid approval_matches
    text_or_empty create_approval
is_gone e = cc

transition-intact_example :
    (verify_audit_digest audit_digests stale_audit ≡ true)
    × (stale_audit.status ≡ stale)
    × (approval_eligible stale_audit ≡ false)
transition-intact_example =
    transition-intact audit_digests audit stale stale_audit is_other goes_stale

inactive_forever_example :
    (approval_eligible invalid_audit ≡ false)
    × (approval_matches audit_digests approval invalid_audit ≡ false)
inactive_forever_example =
    inactive_forever audit_digests approval is_gone (moved invalid begun goes_invalid)

create_approval-matches_example : approval_matches audit_digests approval audit ≡ true
create_approval-matches_example =
    create_approval-matches audit_digests "approval" audit "repository" "approver" "10:00Z"
      "批准写入 preview 1" approval audit_intact approved approval_valid
