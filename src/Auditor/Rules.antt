-- ===== src/Auditor/Rules.antt =====
-- What `validate_committed_audit` of auditor.py has checked of the evaluations, rule by rule.
use delivery_system.Base.{
  ◌≡◌, refl, sym, ap, ◌∙◌, ℕ, zero, suc, String, String_eq, List, List_eq, [], ◌∷◌, Bool, true,
  false, not, ◌||◌, some, ◌==◌, ◌!=◌, any, contains, get_elem?, arith, ◌⊎◌, inl, inr, !=-eq-false,
  ||-eq-false, not-eq-false, if◌then◌else◌,
}
use delivery_system.Errors.{
  ok, >>=-eq-ok, raise_if, raise_if-then-eq-ok, raise_if-eq-ok, or_raise, or_raise-eq-ok,
  audit_commit_boundary_required,
}
use delivery_system.Rules.{RuleDefinition}
use delivery_system.Auditor.Children.{Evaluation}
use delivery_system.Auditor.Applicable.{
  Applies, rule_is_applicable-Applies, Applies-rule_is_applicable, IsEvaluated,
  is_evaluated_outcome-IsEvaluated,
}
use delivery_system.Auditor.Committed.{
  AuditedPreview, rule_is_applicable, is_evaluated_outcome, evaluation_of, check_rule, check_rules,
}

-- An evaluation that meets its rule: of its version, with one of the four outcomes where the rule
-- applies, with no outcome, finding or evidence where it does not, on known evidence only.
pub record Meets (preview : AuditedPreview) (evidence_ids : List String) (rule : RuleDefinition)
    (e : Evaluation) : Type 0 where
  pub version : e.rule_version ≡ rule.rule_version
  pub outcome :
      (Applies rule preview × IsEvaluated e.outcome)
      ⊎ ((¬ Applies rule preview)
          × (e.outcome ≡ "NotApplicable")
          × (e.finding_refs ≡ [])
          × (e.evidence_refs ≡ []))
  pub evidence : any (λ ref. not (contains evidence_ids ref)) e.evidence_refs ≡ false

outcome_met :
    (rule : RuleDefinition) (preview : AuditedPreview) (e : Evaluation)
    → ((rule_is_applicable rule preview ≡ true) × (is_evaluated_outcome e.outcome ≡ true))
      ⊎ ((rule_is_applicable rule preview ≡ false)
          × (e.outcome ≡ "NotApplicable")
          × (e.finding_refs ≡ [])
          × (e.evidence_refs ≡ []))
    → (Applies rule preview × IsEvaluated e.outcome)
      ⊎ ((¬ Applies rule preview)
          × (e.outcome ≡ "NotApplicable")
          × (e.finding_refs ≡ [])
          × (e.evidence_refs ≡ []))
outcome_met rule preview e (inl (applicable, evaluated)) = inl (
  rule_is_applicable-Applies rule preview applicable,
  is_evaluated_outcome-IsEvaluated e.outcome evaluated,
)
outcome_met rule preview e (inr (not_applicable, outcome, findings, evidence)) =
    inr
      (λ a. let yes = Applies-rule_is_applicable rule preview a in cc, outcome, findings, evidence)

outcome-eq-ok :
    (applicable : Bool) (e : Evaluation) {u : Unit {0}}
    → (if applicable
        then raise_if (not (is_evaluated_outcome e.outcome)) audit_commit_boundary_required
        else raise_if
            (e.outcome != "NotApplicable" || (e.finding_refs != [] || e.evidence_refs != []))
            audit_commit_boundary_required)
      ≡ ok u
    → ((applicable ≡ true) × (is_evaluated_outcome e.outcome ≡ true))
      ⊎ ((applicable ≡ false)
          × (e.outcome ≡ "NotApplicable")
          × (e.finding_refs ≡ [])
          × (e.evidence_refs ≡ []))
outcome-eq-ok true e h = inl (refl, not-eq-false _ (raise_if-eq-ok _ _ h))
outcome-eq-ok false e h =
    let f =
      raise_if-eq-ok
        (e.outcome != "NotApplicable" || (e.finding_refs != [] || e.evidence_refs != [])) _ h in
    let (f1, f2) = ||-eq-false _ _ f in
    let (f3, f4) = ||-eq-false _ _ f2 in
    inr (
      refl,
      !=-eq-false e.outcome "NotApplicable" f1,
      !=-eq-false e.finding_refs [] f3,
      !=-eq-false e.evidence_refs [] f4,
    )

pub check_rule-Meets :
    (preview : AuditedPreview) (evidence_ids : List String) (rule : RuleDefinition) (e : Evaluation)
    {u : Unit {0}}
    → check_rule preview evidence_ids rule e ≡ ok u
    → Meets preview evidence_ids rule e
unfolding check_rule
check_rule-Meets preview evidence_ids rule e h =
    let (f1, h1) =
      raise_if-then-eq-ok (e.rule_version != rule.rule_version) audit_commit_boundary_required _
        h in
    let (u1, chosen, h2) =
      >>=-eq-ok
        (if rule_is_applicable rule preview
          then raise_if (not (is_evaluated_outcome e.outcome)) audit_commit_boundary_required
          else raise_if
              (e.outcome != "NotApplicable" || (e.finding_refs != [] || e.evidence_refs != []))
              audit_commit_boundary_required)
        _ h1 in
    record {
      version = !=-eq-false e.rule_version _ f1;
      outcome =
          outcome_met rule preview e (outcome-eq-ok (rule_is_applicable rule preview) e chosen);
      evidence = raise_if-eq-ok _ _ h2;
    }

pub check_rules-Meets :
    (preview : AuditedPreview) (evidence_ids : List String) (rules : List RuleDefinition)
    (evaluations : List Evaluation) {u : Unit {0}}
    → check_rules preview evidence_ids rules evaluations ≡ ok u
    → (i : ℕ) (rule : RuleDefinition) → get_elem? rules i ≡ some rule
    → (e : Evaluation) × (evaluation_of evaluations rule.rule_id ≡ some e)
      × Meets preview evidence_ids rule e
unfolding check_rules
check_rules-Meets preview evidence_ids [] evaluations h i rule at = cc
check_rules-Meets preview evidence_ids (r ∷ rules) evaluations h i rule at =
    let (e, found, h1) =
      >>=-eq-ok (or_raise (evaluation_of evaluations r.rule_id) audit_commit_boundary_required) _
        h in
    let (u1, checked, h2) = >>=-eq-ok (check_rule preview evidence_ids r e) _ h1 in
    at_index i at e (or_raise-eq-ok _ _ found) (check_rule-Meets preview evidence_ids r e checked)
      (check_rules-Meets preview evidence_ids rules evaluations h2)
  where
    at_index :
        (i : ℕ)
        → get_elem? (r ∷ rules) i ≡ some rule
        → (e : Evaluation) → evaluation_of evaluations r.rule_id ≡ some e
        → Meets preview evidence_ids r e
        → ((j : ℕ) (other_rule : RuleDefinition)
            → get_elem? rules j ≡ some other_rule
            → (e' : Evaluation) × (evaluation_of evaluations other_rule.rule_id ≡ some e')
              × Meets preview evidence_ids other_rule e')
        → (e' : Evaluation) × (evaluation_of evaluations rule.rule_id ≡ some e')
          × Meets preview evidence_ids rule e'
    at_index zero at e found meets others =
        let same : r ≡ rule = ground arith in
        (
          e,
          ap (λ (x : RuleDefinition). evaluation_of evaluations x.rule_id) (sym same) ∙ found,
          rw⁻¹ same meets,
        )
    at_index (suc j) at e found meets others = others j rule at

abbrev pub is_known_outcome : String → Bool
is_known_outcome outcome = is_evaluated_outcome outcome || outcome == "NotApplicable"
