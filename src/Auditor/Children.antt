-- ===== src/Auditor/Children.antt =====
-- `_validate_audit_children` of auditor.py: the evaluations and findings of an audit have exactly their
-- fields, with texts and lists of distinct texts. What passes is read into records.
use delivery_system.Base.{
  String, String_eq, List, [], ◌∷◌, not, Option, none, some, same_set, distinct,
}
use delivery_system.Errors.{
  Result, ok, ◌>>=◌, ◌>>◌, raise, raise_if, or_raise, audit_commit_boundary_required,
}
use delivery_system.Value.{Value, Fields, keys, get, nonempty_text, as_dict, text_list}

pub record Evaluation : Type 0 where
  pub rule_id : String
  pub rule_version : String
  pub outcome : String
  pub rationale : String
  pub finding_refs : List String
  pub evidence_refs : List String

pub record Finding : Type 0 where
  pub finding_id : String
  pub rule_id : String
  pub rule_version : String
  pub outcome : String
  pub result_class : String
  pub severity : String
  pub title : String
  pub rationale : String
  pub evidence_refs : List String
  pub affected_item_ids : List String
  pub required_action : String
  pub suggested_resolution : Option String

-- A non-empty text of an entry.
unfoldable pub text_of : Fields → String → Result String
text_of entry name = or_raise (nonempty_text (get entry name)) audit_commit_boundary_required

-- A list of distinct non-empty texts of an entry.
unfoldable pub texts_of : Fields → String → Result (List String)
texts_of entry name = do
  values ← or_raise (text_list (get entry name)) audit_commit_boundary_required
  raise_if (not (distinct values)) audit_commit_boundary_required
  ok values

-- A text or `None`.
unfoldable pub optional_text_of : Fields → String → Result (Option String)
optional_text_of entry name = elim (get entry name) [
  | some (Value.text s) ↦ ok (some s)
  | some Value.null ↦ ok none
  | _ ↦ raise audit_commit_boundary_required
]

unfoldable pub fields_of : Value → List String → Result Fields
fields_of value names = do
  entry ← or_raise (as_dict (some value)) audit_commit_boundary_required
  raise_if (not (same_set (keys entry) names)) audit_commit_boundary_required
  ok entry

unfoldable pub check_evaluation : Value → Result Evaluation
unfolding fields_of text_of texts_of
check_evaluation value = do
  entry ←
      fields_of value (
        "rule_id" ∷ "rule_version" ∷ "outcome" ∷ "rationale" ∷ "finding_refs" ∷ "evidence_refs"
        ∷ [])
  rule_id ← text_of entry "rule_id"
  rule_version ← text_of entry "rule_version"
  outcome ← text_of entry "outcome"
  rationale ← text_of entry "rationale"
  finding_refs ← texts_of entry "finding_refs"
  evidence_refs ← texts_of entry "evidence_refs"
  ok (record {
    rule_id = rule_id;
    rule_version = rule_version;
    outcome = outcome;
    rationale = rationale;
    finding_refs = finding_refs;
    evidence_refs = evidence_refs;
  })

unfoldable pub check_finding : Value → Result Finding
unfolding fields_of text_of texts_of optional_text_of
check_finding value = do
  entry ← fields_of value (
      "finding_id" ∷ "rule_id" ∷ "rule_version" ∷ "outcome" ∷ "result_class" ∷ "severity" ∷ "title"
      ∷ "rationale" ∷ "evidence_refs" ∷ "affected_item_ids" ∷ "required_action"
      ∷ "suggested_resolution" ∷ [])
  finding_id ← text_of entry "finding_id"
  rule_id ← text_of entry "rule_id"
  rule_version ← text_of entry "rule_version"
  outcome ← text_of entry "outcome"
  result_class ← text_of entry "result_class"
  severity ← text_of entry "severity"
  title ← text_of entry "title"
  rationale ← text_of entry "rationale"
  required_action ← text_of entry "required_action"
  suggested_resolution ← optional_text_of entry "suggested_resolution"
  evidence_refs ← texts_of entry "evidence_refs"
  affected_item_ids ← texts_of entry "affected_item_ids"
  ok (record {
    finding_id = finding_id;
    rule_id = rule_id;
    rule_version = rule_version;
    outcome = outcome;
    result_class = result_class;
    severity = severity;
    title = title;
    rationale = rationale;
    evidence_refs = evidence_refs;
    affected_item_ids = affected_item_ids;
    required_action = required_action;
    suggested_resolution = suggested_resolution;
  })

unfoldable pub check_evaluations : List Value → Result (List Evaluation)
unfolding check_evaluation
check_evaluations [] = ok []
check_evaluations (value ∷ values) = do
  evaluation ← check_evaluation value
  rest ← check_evaluations values
  ok (evaluation ∷ rest)

unfoldable pub check_findings : List Value → Result (List Finding)
unfolding check_finding
check_findings [] = ok []
check_findings (value ∷ values) = do
  finding ← check_finding value
  rest ← check_findings values
  ok (finding ∷ rest)

-- `_validate_audit_children`
unfoldable pub validate_audit_children :
    List Value → List Value → Result (List Evaluation × List Finding)
unfolding check_evaluations check_findings
validate_audit_children evaluations findings = do
  read_evaluations ← check_evaluations evaluations
  read_findings ← check_findings findings
  ok (read_evaluations, read_findings)
