-- ===== src/Auditor/Committed.antt =====
-- `validate_committed_audit` of auditor.py.
use Prim.Native.String.{compare, ◌++◌}
use Prim.Native.Nat.{Ordering}
use delivery_system.Base.{
  ℕ, ℕ_eq, String, String_eq, List_eq, Option_eq, List, [], ◌∷◌, Bool, true, false, not, ◌||◌,
  Option, none, some, ◌++◌ as append, ◌==◌, ◌!=◌, any, contains, distinct, same_set, map,
  if◌then◌else◌,
}
use delivery_system.Errors.{
  Result, ok, ◌>>=◌, ◌>>◌, raise_if, or_raise, audit_commit_boundary_required, invalid_input,
}
use delivery_system.Audit.{
  AuditRecord, AuditResult, AuditResult_eq, passed, needs_information, changes_required,
  audit_blocked, AuditDigests, verify_audit_digest,
}
use delivery_system.Value.{Fields}
use delivery_system.Rules.{RuleDefinition, RuleRegistry, semantic_rules}
use delivery_system.Auditor.Children.{Evaluation, Finding, validate_audit_children}

-- What the validation reads of a sealed preview.
pub record AuditedPreview : Type 0 where
  pub preview_level : String
  pub item_ids : List String
  -- the kinds of the planned relationships
  pub relationship_kinds : List String

-- A record of evidence: its identity, and the other fields, which go into the context's digest.
pub record EvidenceRecord : Type 0 where
  pub evidence_id : String
  pub content : Fields

-- `{record["evidence_id"] for record in evidence_records}`
abbrev pub ids_of : List EvidenceRecord → List String
ids_of records = map (λ (r : EvidenceRecord). r.evidence_id) records

-- `payload` of `build_finding_id`: what the identity of a finding is computed from.
pub record FindingPayload : Type 0 where
  pub domain : String
  pub workspace_identity : String
  pub preview_id : String
  pub revision : ℕ
  pub rule_id : String
  pub rule_version : String
  pub outcome : String
  pub result_class : String
  pub severity : String
  pub title : String
  pub rationale : String
  pub evidence_refs : List String
  pub affected_item_ids : List String
  pub required_action : String
  pub suggested_resolution : Option String

-- The digests that the validation computes again: of the registry, of the context with its evidence, of
-- a finding's payload and of the audit's payload.
pub record CommitDigests : Type 0 where
  pub audits : AuditDigests
  pub registry_digest : RuleRegistry → String
  pub context_digest : AuditRecord → List EvidenceRecord → RuleRegistry → String
  pub finding_hex : FindingPayload → String
  pub audit_payload_digest : AuditRecord → String

unfoldable pub rule_is_applicable : RuleDefinition → AuditedPreview → Bool
rule_is_applicable rule preview =
    if rule.applicability == "Applicable"
    then true
    else if rule.rule_id == "SEM-PARENT-SUBISSUE"
    then any (λ kind. kind == "planned_parent" || kind == "planned_parent_candidate")
        preview.relationship_kinds
    else if rule.rule_id == "SEM-DEPENDENCY"
    then any (λ kind. kind == "planned_dependency" || kind == "planned_dependency_candidate")
        preview.relationship_kinds
    else if rule.rule_id == "SEM-DUPLICATE-OVERLAP"
    then preview.preview_level != "Conceptual"
    else false

abbrev refuse_if : Bool → Result (Unit {0})
refuse_if test = raise_if test audit_commit_boundary_required

-- `{entry["rule_id"]: entry for entry in evaluations}[rule_id]`, of distinct rules
unfoldable pub evaluation_of : List Evaluation → String → Option Evaluation
evaluation_of [] rule_id = none
evaluation_of (e ∷ es) rule_id = if e.rule_id == rule_id then some e else evaluation_of es rule_id

unfoldable pub rule_of : List RuleDefinition → String → Option RuleDefinition
rule_of [] rule_id = none
rule_of (rule ∷ rules) rule_id =
    if rule.rule_id == rule_id then some rule else rule_of rules rule_id

unfoldable pub is_evaluated_outcome : String → Bool
is_evaluated_outcome outcome = contains ("Passed" ∷ "Failed" ∷ "Unknown" ∷ "Blocked" ∷ []) outcome

-- One round of the loop over the rules.
unfoldable pub check_rule :
    AuditedPreview → List String → RuleDefinition → Evaluation → Result (Unit {0})
unfolding rule_is_applicable is_evaluated_outcome
check_rule preview evidence_ids rule entry = do
  refuse_if (entry.rule_version != rule.rule_version)
  if rule_is_applicable rule preview
      then refuse_if (not (is_evaluated_outcome entry.outcome))
      else refuse_if (
          entry.outcome != "NotApplicable"
          || (entry.finding_refs != [] || entry.evidence_refs != []))
  refuse_if (any (λ ref. not (contains evidence_ids ref)) entry.evidence_refs)

unfoldable pub check_rules :
    AuditedPreview → List String → List RuleDefinition → List Evaluation → Result (Unit {0})
unfolding check_rule evaluation_of
check_rules preview evidence_ids [] evaluations = ok tt
check_rules preview evidence_ids (rule ∷ rules) evaluations = do
  entry ← or_raise (evaluation_of evaluations rule.rule_id) audit_commit_boundary_required
  check_rule preview evidence_ids rule entry
  check_rules preview evidence_ids rules evaluations

unfoldable pub finding_of : List Finding → String → Option Finding
finding_of [] finding_id = none
finding_of (f ∷ fs) finding_id =
    if f.finding_id == finding_id then some f else finding_of fs finding_id

-- The findings that an evaluation refers to are there and are findings of its rule.
unfoldable pub check_refs : List Finding → String → List String → Result (Unit {0})
unfolding finding_of
check_refs findings rule_id [] = ok tt
check_refs findings rule_id (ref ∷ refs) = do
  finding ← or_raise (finding_of findings ref) audit_commit_boundary_required
  refuse_if (finding.rule_id != rule_id)
  check_refs findings rule_id refs

unfoldable pub is_clean_outcome : String → Bool
is_clean_outcome outcome = outcome == "Passed" || outcome == "NotApplicable"

-- The loop over the evaluations: the identities of the findings that they refer to.
unfoldable pub referenced_ids : List Finding → List Evaluation → Result (List String)
unfolding is_clean_outcome check_refs
referenced_ids findings [] = ok []
referenced_ids findings (entry ∷ entries) = do
  refuse_if (
      if is_clean_outcome entry.outcome then entry.finding_refs != [] else entry.finding_refs == [])
  check_refs findings entry.rule_id entry.finding_refs
  rest ← referenced_ids findings entries
  ok (append entry.finding_refs rest)

-- `sorted`, of texts: by their code points.
unfoldable pub insert_text : String → List String → List String
insert_text s [] = s ∷ []
insert_text s (t ∷ ts) =
    let rest = insert_text s ts in elim (compare s t) [ Ordering.gt ↦ t ∷ rest | _ ↦ s ∷ t ∷ ts ]

unfoldable pub sorted_texts : List String → List String
unfolding insert_text
sorted_texts [] = []
sorted_texts (s ∷ ss) = insert_text s (sorted_texts ss)

-- `expected_class`
unfoldable pub expected_class : RuleDefinition → String → Option String
expected_class rule outcome =
    if outcome == "Failed"
    then rule.failed_result_class
    else if outcome == "Unknown"
    then rule.unknown_result_class
    else if outcome == "Blocked"
    then rule.blocked_result_class
    else none

abbrev pub severities : List String
severities = "Blocker" ∷ "High" ∷ "Medium" ∷ "Low" ∷ []

-- The result that a set of outcomes comes to: the worst of them.
unfoldable pub result_of_outcomes : List String → AuditResult
result_of_outcomes outcomes =
    if contains outcomes "Blocked"
    then audit_blocked
    else if contains outcomes "Unknown"
    then needs_information
    else if contains outcomes "Failed"
    then changes_required
    else passed

module _ (digests : CommitDigests) (audit : AuditRecord) (preview : AuditedPreview)
    (evidence : List EvidenceRecord) (registry : RuleRegistry) where
  unfoldable pub finding_payload : RuleDefinition → String → Finding → FindingPayload
  unfolding sorted_texts
  finding_payload rule outcome finding = record {
    domain = "delivery-system:finding-id:v1";
    workspace_identity = audit.workspace_identity;
    preview_id = audit.preview_id;
    revision = audit.revision;
    rule_id = finding.rule_id;
    rule_version = rule.rule_version;
    outcome = outcome;
    result_class = finding.result_class;
    severity = finding.severity;
    title = finding.title;
    rationale = finding.rationale;
    evidence_refs = sorted_texts finding.evidence_refs;
    affected_item_ids = sorted_texts finding.affected_item_ids;
    required_action = finding.required_action;
    suggested_resolution = finding.suggested_resolution;
  }

  -- `build_finding_id`, of a finding with the rule's version and outcome; the class of its result comes
  -- from the registry.
  unfoldable pub build_finding_id : RuleDefinition → String → Finding → Result String
  unfolding finding_payload
  build_finding_id rule outcome finding = do
    raise_if (audit.revision == 0) invalid_input
    raise_if
        (contains
          (audit.workspace_identity ∷ audit.preview_id ∷ finding.rule_id ∷ rule.rule_version
            ∷ finding.severity ∷ finding.title ∷ finding.rationale ∷ finding.required_action ∷ [])
          "")
        invalid_input
    raise_if (not (contains severities finding.severity)) invalid_input
    raise_if (contains finding.evidence_refs "" || contains finding.affected_item_ids "")
        invalid_input
    raise_if (not (distinct finding.evidence_refs) || not (distinct finding.affected_item_ids))
        invalid_input
    ok ("finding_" ++ digests.finding_hex (finding_payload rule outcome finding))

  -- One round of the loop over the findings.
  unfoldable pub check_committed_finding :
      List RuleDefinition → List Evaluation → Finding → Result (Unit {0})
  unfolding rule_of evaluation_of expected_class build_finding_id
  check_committed_finding rules evaluations finding = do
    rule ← or_raise (rule_of rules finding.rule_id) audit_commit_boundary_required
    entry ← or_raise (evaluation_of evaluations finding.rule_id) audit_commit_boundary_required
    refuse_if (entry.outcome == "NotApplicable")
    refuse_if (
        finding.rule_version != rule.rule_version
        || (finding.outcome != entry.outcome || not (contains severities finding.severity)))
    refuse_if (
        some finding.result_class != expected_class rule entry.outcome
        || (any (λ ref. not (contains (ids_of evidence) ref)) finding.evidence_refs
            || any (λ item. not (contains preview.item_ids item)) finding.affected_item_ids))
    computed_id ← build_finding_id rule entry.outcome finding
    refuse_if (computed_id != finding.finding_id)

  unfoldable pub check_committed_findings :
      List RuleDefinition → List Evaluation → List Finding → Result (Unit {0})
  unfolding check_committed_finding
  check_committed_findings rules evaluations [] = ok tt
  check_committed_findings rules evaluations (finding ∷ findings) = do
    check_committed_finding rules evaluations finding
    check_committed_findings rules evaluations findings

  -- The evaluations, the findings and the result, once they are read.
  unfoldable pub check_committed : List Evaluation → List Finding → Result (Unit {0})
  unfolding check_rules referenced_ids sorted_texts check_committed_findings result_of_outcomes
  check_committed evaluations findings = do
    let rules = semantic_rules registry
    let finding_ids = map (λ (f : Finding). f.finding_id) findings
    refuse_if (not (distinct (map (λ (e : Evaluation). e.rule_id) evaluations)))
    refuse_if (
        not (
          same_set (map (λ (e : Evaluation). e.rule_id) evaluations)
            (map (λ (rule : RuleDefinition). rule.rule_id) rules)))
    check_rules preview (ids_of evidence) rules evaluations
    refuse_if (not (distinct finding_ids))
    referenced ← referenced_ids findings evaluations
    refuse_if (sorted_texts referenced != sorted_texts finding_ids)
    check_committed_findings rules evaluations findings
    refuse_if (audit.result != result_of_outcomes (map (λ (e : Evaluation). e.outcome) evaluations))

  unfoldable pub validate_committed_audit : Result (Unit {0})
  unfolding check_committed
  validate_committed_audit = do
    (evaluations, findings) ← validate_audit_children audit.rule_evaluations audit.findings
    refuse_if (
        audit.rule_registry_version != some registry.registry_version
        || audit.rule_registry_digest != some (digests.registry_digest registry))
    refuse_if (audit.audit_context_digest != digests.context_digest audit evidence registry)
    check_committed evaluations findings
    refuse_if (
        digests.audit_payload_digest audit != audit.audit_payload_digest
        || not (verify_audit_digest digests.audits audit))
