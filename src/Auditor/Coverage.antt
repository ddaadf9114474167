-- ===== src/Auditor/Coverage.antt =====
-- auditor.py: what a committed audit says of each rule of the registry, and of each of its findings.
use Prim.Native.String.{◌++◌}
use delivery_system.Base.{
  ◌≡◌, refl, sym, ap, ◌∙◌, ℕ, zero, suc, String, String_eq, List, Option_eq, [], ◌∷◌, true, false,
  not, ◌||◌, some, ◌==◌, ◌!=◌, any, contains, distinct, Bool-cases, ==-eq-true, eq_refl, ◌≢◌, ℕ_eq,
  get_elem?, arith, ◌⊎◌, inl, inr, !=-eq-false, ||-eq-false, not-eq-false,
}
use delivery_system.Errors.{
  ok, >>=-eq-ok, raise_if-then-eq-ok, raise_if-eq-ok, or_raise, or_raise-eq-ok,
  audit_commit_boundary_required, invalid_input, ok-injective,
}
use delivery_system.Audit.{AuditRecord}
use delivery_system.Rules.{RuleDefinition, RuleRegistry, semantic_rules}
use delivery_system.Auditor.Children.{Evaluation, Finding, validate_audit_children}
use delivery_system.Auditor.Committed.{
  AuditedPreview, EvidenceRecord, ids_of, CommitDigests, evaluation_of, rule_of, expected_class,
  severities, FindingPayload, finding_payload, sorted_texts, build_finding_id,
  check_committed_finding, check_committed_findings, validate_committed_audit,
}
use delivery_system.Auditor.Rules.{Meets, check_rules-Meets}
use delivery_system.Auditor.Outcome.{validate_committed_audit-IsCommitted}

-- The class of a finding, by the outcome of its rule.
pub data HasClass (rule : RuleDefinition) (result_class : String) : String → Type 0 where
  of_failed : rule.failed_result_class ≡ some result_class → HasClass rule result_class "Failed"
  of_unknown : rule.unknown_result_class ≡ some result_class → HasClass rule result_class "Unknown"
  of_blocked : rule.blocked_result_class ≡ some result_class → HasClass rule result_class "Blocked"

expected_class-cases :
    (rule : RuleDefinition) (outcome result_class : String)
    → some result_class ≡ expected_class rule outcome
    → ((outcome ≡ "Failed") × (rule.failed_result_class ≡ some result_class))
      ⊎ (((outcome ≡ "Unknown") × (rule.unknown_result_class ≡ some result_class))
          ⊎ ((outcome ≡ "Blocked") × (rule.blocked_result_class ≡ some result_class)))
unfolding expected_class
expected_class-cases rule outcome result_class h = ground arith

expected_class-HasClass :
    (rule : RuleDefinition) (outcome result_class : String)
    → some result_class ≡ expected_class rule outcome
    → HasClass rule result_class outcome
expected_class-HasClass rule outcome result_class h =
    elim (expected_class-cases rule outcome result_class h) [
      | inl (same, class) ↦ rw same (of_failed class)
      | inr (inl (same, class)) ↦ rw same (of_unknown class)
      | inr (inr (same, class)) ↦ rw same (of_blocked class)
    ]

-- The severities that a finding may have.
pub data HasSeverity (severity : String) : Type 0 where
  blocker : severity ≡ "Blocker" → HasSeverity severity
  high : severity ≡ "High" → HasSeverity severity
  medium : severity ≡ "Medium" → HasSeverity severity
  low : severity ≡ "Low" → HasSeverity severity

severities-HasSeverity :
    (severity : String) → contains severities severity ≡ true → HasSeverity severity
severities-HasSeverity severity h = elim (Bool-cases (severity == "Blocker")) [
  | inl e ↦ blocker (==-eq-true severity "Blocker" e)
  | inr a ↦ elim (Bool-cases (severity == "High")) [
    | inl e ↦ high (==-eq-true severity "High" e)
    | inr b ↦ elim (Bool-cases (severity == "Medium")) [
      | inl e ↦ medium (==-eq-true severity "Medium" e)
      | inr c ↦ low (ground arith)
    ]
  ]
]

not-blank : (s : String) → ("" == s) ≡ false → s ≢ ""
not-blank s h e = ground (arith, eq_refl s)

module _ (digests : CommitDigests) (audit : AuditRecord) (preview : AuditedPreview)
    (evidence : List EvidenceRecord) (registry : RuleRegistry) where
  -- The content of a finding of the audit: all but its identity.
  abbrev content_of : Finding → FindingPayload
  content_of f = record {
    domain = "delivery-system:finding-id:v1";
    workspace_identity = audit.workspace_identity;
    preview_id = audit.preview_id;
    revision = audit.revision;
    rule_id = f.rule_id;
    rule_version = f.rule_version;
    outcome = f.outcome;
    result_class = f.result_class;
    severity = f.severity;
    title = f.title;
    rationale = f.rationale;
    evidence_refs = sorted_texts f.evidence_refs;
    affected_item_ids = sorted_texts f.affected_item_ids;
    required_action = f.required_action;
    suggested_resolution = f.suggested_resolution;
  }

  finding_payload-content :
      (rule : RuleDefinition) (outcome : String) (f : Finding)
      → f.rule_version ≡ rule.rule_version
      → f.outcome ≡ outcome
      → finding_payload digests audit preview evidence registry rule outcome f ≡ content_of f
  unfolding finding_payload
  finding_payload-content rule outcome f v o = rw v (rw o refl)

  -- A finding that stands under the evaluation of its rule.
  pub record StandsUnder (evaluations : List Evaluation) (f : Finding) : Type 0 where
    pub rule : RuleDefinition
    pub entry : Evaluation
    pub of_rule : rule_of (semantic_rules registry) f.rule_id ≡ some rule
    pub of_entry : evaluation_of evaluations f.rule_id ≡ some entry
    pub version : f.rule_version ≡ rule.rule_version
    pub outcome : f.outcome ≡ entry.outcome
    pub class : HasClass rule f.result_class f.outcome
    pub severity : HasSeverity f.severity
    pub named : (f.rule_id ≢ "") × (f.title ≢ "") × (f.rationale ≢ "") × (f.required_action ≢ "")
    pub distinct_evidence : distinct f.evidence_refs ≡ true
    pub distinct_items : distinct f.affected_item_ids ≡ true
    pub known_evidence : any (λ ref. not (contains (ids_of evidence) ref)) f.evidence_refs ≡ false
    pub known_items : any (λ item. not (contains preview.item_ids item)) f.affected_item_ids ≡ false
    pub id : f.finding_id ≡ "finding_" ++ digests.finding_hex (content_of f)

  -- What the identity is computed from, of a finding of known content.
  build_finding_id-payload :
      (rule : RuleDefinition) (outcome : String) (f : Finding) (id : String)
      → build_finding_id digests audit preview evidence registry rule outcome f ≡ ok id
      → (id
          ≡ "finding_"
            ++ digests.finding_hex
                (finding_payload digests audit preview evidence registry rule outcome f))
        × ((f.rule_id ≢ "") × (f.title ≢ "") × (f.rationale ≢ "") × (f.required_action ≢ ""))
        × (distinct f.evidence_refs ≡ true)
        × (distinct f.affected_item_ids ≡ true)
  unfolding build_finding_id
  build_finding_id-payload rule outcome f id h =
      let (f1, h1) = raise_if-then-eq-ok (audit.revision == 0) invalid_input _ h in
      let (f2, h2) =
        raise_if-then-eq-ok
          (contains
            (audit.workspace_identity ∷ audit.preview_id ∷ f.rule_id ∷ rule.rule_version
              ∷ f.severity ∷ f.title ∷ f.rationale ∷ f.required_action ∷ [])
            "")
          invalid_input _ h1 in
      let (f3, h3) =
        raise_if-then-eq-ok (not (contains severities f.severity)) invalid_input _ h2 in
      let (f4, h4) =
        raise_if-then-eq-ok (contains f.evidence_refs "" || contains f.affected_item_ids "")
          invalid_input _ h3 in
      let (f5, h5) =
        raise_if-then-eq-ok (not (distinct f.evidence_refs) || not (distinct f.affected_item_ids))
          invalid_input _ h4 in
      let (d1, d2) = ||-eq-false _ _ f5 in
      (
        sym (ok-injective _ _ h5),
        (
          not-blank f.rule_id (ground arith),
          not-blank f.title (ground arith),
          not-blank f.rationale (ground arith),
          not-blank f.required_action (ground arith),
        ),
        not-eq-false _ d1,
        not-eq-false _ d2,
      )

  check_committed_finding-StandsUnder :
      (evaluations : List Evaluation) (f : Finding) {u : Unit {0}}
      → check_committed_finding digests audit preview evidence registry
          (semantic_rules registry)
          evaluations
          f
        ≡ ok u
      → StandsUnder evaluations f
  unfolding check_committed_finding
  check_committed_finding-StandsUnder evaluations f h =
      let (rule, of_rule, h1) =
        >>=-eq-ok
          (or_raise (rule_of (semantic_rules registry) f.rule_id) audit_commit_boundary_required) _
          h in
      let (entry, of_entry, h2) =
        >>=-eq-ok (or_raise (evaluation_of evaluations f.rule_id) audit_commit_boundary_required) _
          h1 in
      let (f1, h3) =
        raise_if-then-eq-ok (entry.outcome == "NotApplicable") audit_commit_boundary_required _
          h2 in
      let (f2, h4) =
        raise_if-then-eq-ok
          (f.rule_version != rule.rule_version
            || (f.outcome != entry.outcome || not (contains severities f.severity)))
          audit_commit_boundary_required _ h3 in
      let (f3, h5) =
        raise_if-then-eq-ok
          (some f.result_class != expected_class rule entry.outcome
            || (any (λ ref. not (contains (ids_of evidence) ref)) f.evidence_refs
                || any (λ item. not (contains preview.item_ids item)) f.affected_item_ids))
          audit_commit_boundary_required _ h4 in
      let (computed, made, h6) =
        >>=-eq-ok (build_finding_id digests audit preview evidence registry rule entry.outcome f) _
          h5 in
      let (v1, v2) = ||-eq-false _ _ f2 in
      let (v3, v4) = ||-eq-false _ _ v2 in
      let (w1, w2) = ||-eq-false _ _ f3 in
      let (w3, w4) = ||-eq-false _ _ w2 in
      let same_outcome = !=-eq-false f.outcome entry.outcome v3 in
      let (identity, named, distinct_evidence, distinct_items) =
        build_finding_id-payload rule entry.outcome f computed made in
      record {
        rule = rule;
        entry = entry;
        of_rule = or_raise-eq-ok _ _ of_rule;
        of_entry = or_raise-eq-ok _ _ of_entry;
        version = !=-eq-false f.rule_version _ v1;
        outcome = same_outcome;
        class = expected_class-HasClass rule f.outcome f.result_class (
            !=-eq-false (some f.result_class) (expected_class rule entry.outcome) w1
            ∙ ap (expected_class rule) (sym same_outcome));
        severity = severities-HasSeverity f.severity (not-eq-false _ v4);
        named = named;
        distinct_evidence = distinct_evidence;
        distinct_items = distinct_items;
        known_evidence = w3;
        known_items = w4;
        id =
            sym (!=-eq-false computed f.finding_id (raise_if-eq-ok _ _ h6))
            ∙ (identity
                ∙ ap (λ p. "finding_" ++ digests.finding_hex p)
                    (finding_payload-content rule entry.outcome f
                      (!=-eq-false f.rule_version rule.rule_version v1) same_outcome));
      }

  check_committed_findings-StandsUnder :
      (evaluations : List Evaluation) (findings : List Finding) {u : Unit {0}}
      → check_committed_findings digests audit preview evidence registry
          (semantic_rules registry)
          evaluations
          findings
        ≡ ok u
      → (i : ℕ) (f : Finding) → get_elem? findings i ≡ some f
      → StandsUnder evaluations f
  unfolding check_committed_findings
  check_committed_findings-StandsUnder evaluations [] h i f at = cc
  check_committed_findings-StandsUnder evaluations (g ∷ findings) h zero f at =
      let (u1, checked, h1) =
        >>=-eq-ok
          (check_committed_finding digests audit preview evidence registry (semantic_rules registry)
            evaluations g)
          _ h in
      let same : g ≡ f = ground arith in
      rw⁻¹ same (check_committed_finding-StandsUnder evaluations g checked)
  check_committed_findings-StandsUnder evaluations (g ∷ findings) h (suc i) f at =
      let (u1, checked, h1) =
        >>=-eq-ok
          (check_committed_finding digests audit preview evidence registry (semantic_rules registry)
            evaluations g)
          _ h in
      check_committed_findings-StandsUnder evaluations findings h1 i f at

  -- A committed audit leaves no semantic rule of the registry out: for each there is an evaluation, of
  -- the rule's version and on known evidence, with one of the four outcomes where the rule applies
  -- to the preview, and as not applicable, without findings and evidence, where it does not.
  pub committed-covers :
      (evaluations : List Evaluation) (findings : List Finding) (i : ℕ) (rule : RuleDefinition)
      → validate_audit_children audit.rule_evaluations audit.findings ≡ ok (evaluations, findings)
      → validate_committed_audit digests audit preview evidence registry ≡ ok tt
      → get_elem? (semantic_rules registry) i ≡ some rule
      → (e : Evaluation) × (evaluation_of evaluations rule.rule_id ≡ some e)
        × Meets preview (ids_of evidence) rule e
  committed-covers evaluations findings i rule read h at =
      let c =
        validate_committed_audit-IsCommitted digests audit preview evidence registry evaluations
          findings read h in
      check_rules-Meets preview (ids_of evidence) (semantic_rules registry) evaluations c.rules_met
        i rule at

  -- Each finding of a committed audit stands under the evaluation of its rule: with the rule's
  -- version, the evaluation's outcome, which is failed, unknown or blocked, the class that the rule
  -- gives to that outcome, one of the four severities, nonempty rule, title, rationale and required
  -- action, distinct references to known evidence and known items, and the identity that comes from
  -- the audit and from all of the finding but the identity itself.
  pub committed-StandsUnder :
      (evaluations : List Evaluation) (findings : List Finding) (i : ℕ) (f : Finding)
      → validate_audit_children audit.rule_evaluations audit.findings ≡ ok (evaluations, findings)
      → validate_committed_audit digests audit preview evidence registry ≡ ok tt
      → get_elem? findings i ≡ some f
      → StandsUnder evaluations f
  committed-StandsUnder evaluations findings i f read h at =
      let c =
        validate_committed_audit-IsCommitted digests audit preview evidence registry evaluations
          findings read h in
      check_committed_findings-StandsUnder evaluations findings c.findings_met i f at
