-- ===== src/Tests/Auditor.antt =====
-- An audit with one finding, against the first registry.
use delivery_system.Base.{
  String-discrete, Option-discrete, List-discrete, ℕ_eq, String_eq, Option_eq, List_eq, true, false,
  refl, ◌≡◌, ◌↔◌, some, none, [], ◌∷◌, String, List, get_elem?,
}
use delivery_system.Value.{
  elements, keys, get, nonempty_text, as_dict, as_list, nonempty_texts, text_list, Value, Values,
  text, null, list, dict, nil, cons, field, end,
}
use delivery_system.Rules.{
  gate_rule, semantic_rule, build_registry_v1, is_semantic, keep_semantic, semantic_rules,
  RuleDefinition,
}
use delivery_system.Auditor.Children.{
  text_of, texts_of, optional_text_of, fields_of, check_evaluation, check_finding,
  check_evaluations, check_findings, validate_audit_children, Evaluation, Finding,
}
use delivery_system.Auditor.Committed.{
  rule_is_applicable, evaluation_of, rule_of, is_evaluated_outcome, check_rule, check_rules,
  finding_of, check_refs, is_clean_outcome, referenced_ids, insert_text, sorted_texts,
  expected_class, result_of_outcomes, finding_payload, build_finding_id, check_committed_finding,
  check_committed_findings, check_committed, validate_committed_audit, AuditedPreview,
  CommitDigests,
}
use delivery_system.Audit.{
  AuditResult-discrete, AuditResult_eq, audit_payload, computed_digest, verify_audit_digest,
  AuditRecord, AuditDigests, passed, changes_required, active,
}
use delivery_system.Errors.{ok}
use delivery_system.Auditor.Rules.{Meets}
use delivery_system.Auditor.Verdict.{committed-passed_iff}
use delivery_system.Auditor.Coverage.{StandsUnder, committed-covers, committed-StandsUnder}
use delivery_system.Tests.Fixtures.{result_or}

abbrev texts_value : List String → Values
texts_value [] = nil
texts_value (s ∷ ss) = cons (text s) (texts_value ss)

abbrev evaluation_value : String → String → String → List String → Value
evaluation_value rule version outcome refs = dict (
    field "rule_id" (text rule) (
      field "rule_version" (text version) (
        field "outcome" (text outcome) (
          field "rationale" (text "because") (
            field "finding_refs" (list (texts_value refs))
              (field "evidence_refs" (list nil) end))))))

abbrev finding_value : Value
finding_value = dict (
    field "finding_id" (text "finding_1") (
      field "rule_id" (text "SEM-ACCEPTANCE-CRITERIA") (
        field "rule_version" (text "1.0") (
          field "outcome" (text "Failed") (
            field "result_class" (text "acceptance_criteria_gap") (
              field "severity" (text "High") (
                field "title" (text "Criteria") (
                  field "rationale" (text "not bounded") (
                    field "evidence_refs" (list nil) (
                      field "affected_item_ids" (list nil) (
                        field "required_action" (text "bound them")
                          (field "suggested_resolution" null end))))))))))))

abbrev evaluation_values : List Value
evaluation_values =
    evaluation_value "SEM-WORK-ITEM-COMPLETENESS" "1.0" "Passed" []
    ∷ evaluation_value "SEM-WORK-ITEM-DECOMPOSITION" "1.1" "Passed" []
    ∷ evaluation_value "SEM-ACCEPTANCE-CRITERIA" "1.0" "Failed" ("finding_1" ∷ [])
    ∷ evaluation_value "SEM-ASSUMPTION-CLARITY" "1.0" "Passed" []
    ∷ evaluation_value "SEM-PARENT-SUBISSUE" "1.1" "NotApplicable" []
    ∷ evaluation_value "SEM-DEPENDENCY" "1.0" "NotApplicable" []
    ∷ evaluation_value "SEM-DUPLICATE-OVERLAP" "1.0" "Passed" []
    ∷ []

abbrev audit_digests : AuditDigests
audit_digests = record {
  is_utc_instant = λ s. true;
  is_zoned_instant = λ s. true;
  is_blank = λ s. false;
  decimal = λ n. "1";
  payload_digest = λ a. "digest";
}

abbrev commit_digests : CommitDigests
commit_digests = record {
  audits = audit_digests;
  registry_digest = λ r. "registry";
  context_digest = λ a e r. "context";
  finding_hex = λ p. "1";
  audit_payload_digest = λ a. "payload";
}

abbrev failed_audit : AuditRecord
failed_audit = record {
  audit_id = "audit";
  preview_id = "preview";
  revision = 1;
  plan_digest = "plan";
  remote_snapshot_digest = some "snapshot";
  audit_digest = "digest";
  result = changes_required;
  operation_set_digest = "operations";
  status = active;
  sealed_preview_digest = "sealed";
  workspace_identity = "workspace";
  audit_scope = "WriteEligible";
  audit_payload_digest = "payload";
  audit_context_digest = "context";
  rule_registry_version = some "1.0";
  rule_registry_digest = some "registry";
  rule_evaluations = evaluation_values;
  findings = finding_value ∷ [];
  evidence_refs = [];
  created_at = "10:00Z";
}

abbrev preview : AuditedPreview
preview = record { preview_level = "WriteEligible"; item_ids = []; relationship_kinds = [] }

abbrev entries : List Evaluation × List Finding
entries = result_or ([], []) (validate_audit_children evaluation_values (finding_value ∷ []))

abbrev first_finding : Finding
first_finding = elim (get_elem? entries.1 0) [
  | some f ↦ f
  | none ↦ record {
    finding_id = "";
    rule_id = "";
    rule_version = "";
    outcome = "";
    result_class = "";
    severity = "";
    title = "";
    rationale = "";
    evidence_refs = [];
    affected_item_ids = [];
    required_action = "";
    suggested_resolution = none;
  }
]

abbrev first_rule : RuleDefinition
first_rule = elim (get_elem? (semantic_rules build_registry_v1) 4) [
  | some r ↦ r
  | none ↦ gate_rule ""
]

-- What the validation of the audit computes.
computed_audit :
    (validate_audit_children failed_audit.rule_evaluations failed_audit.findings
      ≡ ok (entries.0, entries.1))
    × (validate_committed_audit commit_digests failed_audit preview [] build_registry_v1 ≡ ok tt)
    × (get_elem? (semantic_rules build_registry_v1) 4 ≡ some first_rule)
    × (get_elem? entries.1 0 ≡ some first_finding)
unfolding String-discrete Option-discrete List-discrete ℕ_eq String_eq Option_eq List_eq elements
    keys get nonempty_text as_dict as_list nonempty_texts text_list gate_rule semantic_rule
    build_registry_v1 is_semantic keep_semantic semantic_rules text_of texts_of optional_text_of
    fields_of check_evaluation check_finding check_evaluations check_findings
    validate_audit_children rule_is_applicable evaluation_of rule_of is_evaluated_outcome check_rule
    check_rules finding_of check_refs is_clean_outcome referenced_ids insert_text sorted_texts
    expected_class result_of_outcomes finding_payload build_finding_id check_committed_finding
    check_committed_findings check_committed validate_committed_audit AuditResult-discrete
    AuditResult_eq audit_payload computed_digest verify_audit_digest
computed_audit = ((refl), (refl), (refl), (refl))

reads :
    validate_audit_children failed_audit.rule_evaluations failed_audit.findings
    ≡ ok (entries.0, entries.1)
reads = computed_audit.0

validates :
    validate_committed_audit commit_digests failed_audit preview [] build_registry_v1 ≡ ok tt
validates = computed_audit.1

finds_rule : get_elem? (semantic_rules build_registry_v1) 4 ≡ some first_rule
finds_rule = computed_audit.2

finds_finding : get_elem? entries.1 0 ≡ some first_finding
finds_finding = computed_audit.3

committed-passed_iff_example : (failed_audit.result ≡ passed) ↔ (entries.1 ≡ [])
committed-passed_iff_example =
    committed-passed_iff commit_digests failed_audit preview [] build_registry_v1 entries.0
      entries.1 reads validates

committed-covers_example :
    (e : Evaluation) × (evaluation_of entries.0 first_rule.rule_id ≡ some e)
    × Meets preview [] first_rule e
committed-covers_example =
    committed-covers commit_digests failed_audit preview [] build_registry_v1 entries.0 entries.1 4
      first_rule reads validates finds_rule

committed-StandsUnder_example :
    StandsUnder commit_digests failed_audit preview [] build_registry_v1 entries.0 first_finding
committed-StandsUnder_example =
    committed-StandsUnder commit_digests failed_audit preview [] build_registry_v1 entries.0
      entries.1 0 first_finding reads validates finds_finding
