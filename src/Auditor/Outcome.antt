-- ===== src/Auditor/Outcome.antt =====
-- What an audit that passed `validate_committed_audit` of auditor.py is known to be.
use delivery_system.Base.{
  ◌≡◌, sym, ap, ◌∙◌, String, String_eq, List, List_eq, true, not, ◌||◌, some, ◌!=◌, distinct,
  same_set, map, Option_eq, !=-eq-false, not-eq-false,
}
use delivery_system.Errors.{
  ok, >>=-eq-ok, raise_if-then-eq-ok, raise_if-eq-ok, audit_commit_boundary_required, ok-injective,
}
use delivery_system.Audit.{AuditRecord, AuditResult_eq}
use delivery_system.Rules.{RuleDefinition, RuleRegistry, semantic_rules}
use delivery_system.Auditor.Children.{Evaluation, Finding, validate_audit_children}
use delivery_system.Auditor.Committed.{
  AuditedPreview, EvidenceRecord, ids_of, CommitDigests, check_rules, referenced_ids, sorted_texts,
  result_of_outcomes, check_committed_findings, check_committed, validate_committed_audit,
}
use delivery_system.Auditor.Lists.{rule_ids}

abbrev finding_ids : List Finding → List String
finding_ids findings = map (λ (f : Finding). f.finding_id) findings

abbrev outcomes : List Evaluation → List String
outcomes evaluations = map (λ (e : Evaluation). e.outcome) evaluations

module _ (digests : CommitDigests) (audit : AuditRecord) (preview : AuditedPreview)
    (evidence : List EvidenceRecord) (registry : RuleRegistry) where
  -- What the validation has found of the evaluations and findings that it has read.
  pub record IsCommitted (evaluations : List Evaluation) (findings : List Finding) : Type 0 where
    pub apart : distinct (rule_ids evaluations) ≡ true
    pub same_rules :
        same_set
          (rule_ids evaluations)
          (map (λ (rule : RuleDefinition). rule.rule_id) (semantic_rules registry))
        ≡ true
    pub rules_met :
        check_rules preview (ids_of evidence) (semantic_rules registry) evaluations ≡ ok tt
    pub finding_apart : distinct (finding_ids findings) ≡ true
    pub referenced : List String
    pub references : referenced_ids findings evaluations ≡ ok referenced
    pub all_referenced : sorted_texts referenced ≡ sorted_texts (finding_ids findings)
    pub findings_met :
        check_committed_findings digests audit preview evidence registry
          (semantic_rules registry)
          evaluations
          findings
        ≡ ok tt
    pub result : audit.result ≡ result_of_outcomes (outcomes evaluations)

  check_committed-eq-ok :
      (evaluations : List Evaluation) (findings : List Finding) {u : Unit {0}}
      → check_committed digests audit preview evidence registry evaluations findings ≡ ok u
      → IsCommitted evaluations findings
  unfolding check_committed
  check_committed-eq-ok evaluations findings h =
      let (f1, h1) = raise_if-then-eq-ok (not (distinct (rule_ids evaluations))) _ _ h in
      let (f2, h2) =
        raise_if-then-eq-ok
          (not (
            same_set (rule_ids evaluations)
              (map (λ (rule : RuleDefinition). rule.rule_id) (semantic_rules registry))))
          _ _ h1 in
      let (u1, met, h3) =
        >>=-eq-ok (check_rules preview (ids_of evidence) (semantic_rules registry) evaluations) _
          h2 in
      let (f3, h4) = raise_if-then-eq-ok (not (distinct (finding_ids findings))) _ _ h3 in
      let (refs, references, h5) = >>=-eq-ok (referenced_ids findings evaluations) _ h4 in
      let (f4, h6) =
        raise_if-then-eq-ok (sorted_texts refs != sorted_texts (finding_ids findings)) _ _ h5 in
      let (u2, findings_met, h7) =
        >>=-eq-ok
          (check_committed_findings digests audit preview evidence registry
            (semantic_rules registry) evaluations findings)
          _ h6 in
      record {
        apart = not-eq-false _ f1;
        same_rules = not-eq-false _ f2;
        rules_met = met;
        finding_apart = not-eq-false _ f3;
        referenced = refs;
        references = references;
        all_referenced = !=-eq-false (sorted_texts refs) _ f4;
        findings_met = findings_met;
        result =
            !=-eq-false audit.result (result_of_outcomes (outcomes evaluations))
              (raise_if-eq-ok _ _ h7);
      }

  pub validate_committed_audit-IsCommitted :
      (evaluations : List Evaluation) (findings : List Finding)
      → validate_audit_children audit.rule_evaluations audit.findings ≡ ok (evaluations, findings)
      → validate_committed_audit digests audit preview evidence registry ≡ ok tt
      → IsCommitted evaluations findings
  unfolding validate_committed_audit
  validate_committed_audit-IsCommitted evaluations findings read h =
      let ((es, fs), read', h1) =
        >>=-eq-ok (validate_audit_children audit.rule_evaluations audit.findings) _ h in
      let (f1, h2) =
        raise_if-then-eq-ok
          (audit.rule_registry_version != some registry.registry_version
            || audit.rule_registry_digest != some (digests.registry_digest registry))
          audit_commit_boundary_required _ h1 in
      let (f2, h3) =
        raise_if-then-eq-ok
          (audit.audit_context_digest != digests.context_digest audit evidence registry)
          audit_commit_boundary_required _ h2 in
      let (u1, checked, h4) =
        >>=-eq-ok (check_committed digests audit preview evidence registry es fs) _ h3 in
      let same = ok-injective (es, fs) (evaluations, findings) (sym read' ∙ read) in
      rw⁻¹ (ap (λ (r : List Evaluation × List Finding). r.0) same) (
        rw⁻¹ (ap (λ (r : List Evaluation × List Finding). r.1) same)
          (check_committed-eq-ok es fs checked))
