-- ===== src/Auditor/Verdict.antt =====
-- auditor.py: the result of a committed audit, by its evaluations and its findings.
use delivery_system.Base.{
  ◌≡◌, refl, sym, ap, ◌∙◌, ◌≢◌, ◌↔◌, ℕ, suc, String, String_eq, String-discrete, eq_refl, List,
  List_eq, [], ◌∷◌, ◌++◌, Bool, true, false, ◌&&◌, some, ◌==◌, ◌!=◌, all, contains, map, get_elem?,
  arith, ◌⊎◌, inl, inr, Bool-cases, !=-eq-false, ||-eq-false, &&-eq-true, if◌then◌else◌,
}
use delivery_system.Errors.{
  ok, >>=-eq-ok, raise_if-then-eq-ok, audit_commit_boundary_required, ok-injective,
}
use delivery_system.Audit.{AuditRecord, passed}
use delivery_system.Rules.{RuleDefinition, RuleRegistry, semantic_rules}
use delivery_system.Auditor.Children.{Evaluation, Finding, validate_audit_children}
use delivery_system.Auditor.Committed.{
  AuditedPreview, EvidenceRecord, ids_of, CommitDigests, evaluation_of, is_clean_outcome,
  is_evaluated_outcome, check_refs, referenced_ids, sorted_texts, result_of_outcomes,
  validate_committed_audit,
}
use delivery_system.Auditor.Lists.{sorted_texts-empty, subset-contains, all-evaluations, rule_ids}
use delivery_system.Auditor.Applicable.{IsEvaluated-is_evaluated_outcome}
use delivery_system.Auditor.Rules.{Meets, check_rules-Meets, is_known_outcome}
use delivery_system.Auditor.Outcome.{IsCommitted, validate_committed_audit-IsCommitted}

abbrev outcomes : List Evaluation → List String
outcomes evaluations = map (λ (e : Evaluation). e.outcome) evaluations

abbrev all_clean : List Evaluation → Bool
all_clean evaluations = all (λ (e : Evaluation). is_clean_outcome e.outcome) evaluations

abbrev all_known : List Evaluation → Bool
all_known evaluations = all (λ (e : Evaluation). is_known_outcome e.outcome) evaluations

contains-get_elem? :
    (rules : List RuleDefinition) (id : String)
    → contains (map (λ (rule : RuleDefinition). rule.rule_id) rules) id ≡ true
    → (i : ℕ) × (rule : RuleDefinition) × (get_elem? rules i ≡ some rule) × (rule.rule_id ≡ id)
contains-get_elem? [] id h = cc
contains-get_elem? (r ∷ rules) id h = elim (Bool-cases (id == r.rule_id)) [
  | inl same ↦ (0, r, refl, ground arith)
  | inr differ ↦
      let (i, rule, at, named) = contains-get_elem? rules id (ground arith) in
      (suc i, rule, at, named)
]

known-cases :
    (outcome : String)
    → is_known_outcome outcome ≡ true
    → "Blocked" == outcome ≡ false
    → "Unknown" == outcome ≡ false
    → "Failed" == outcome ≡ false
    → is_clean_outcome outcome ≡ true
unfolding is_evaluated_outcome is_clean_outcome
known-cases outcome known not_blocked not_unknown not_failed = ground arith

known-clean :
    (evaluations : List Evaluation)
    → all_known evaluations ≡ true
    → contains (outcomes evaluations) "Blocked" ≡ false
    → contains (outcomes evaluations) "Unknown" ≡ false
    → contains (outcomes evaluations) "Failed" ≡ false
    → all_clean evaluations ≡ true
known-clean [] known b u f = refl
known-clean (e ∷ es) known b u f =
    let (known_here, known_rest) = &&-eq-true _ _ known in
    let (b1, b2) = ||-eq-false _ _ b in
    let (u1, u2) = ||-eq-false _ _ u in
    let (f1, f2) = ||-eq-false _ _ f in
    let here = known-cases e.outcome known_here b1 u1 f1 in
    let rest = known-clean es known_rest b2 u2 f2 in ground arith

passed-none_bad :
    (os : List String)
    → result_of_outcomes os ≡ passed
    → (contains os "Blocked" ≡ false)
      × (contains os "Unknown" ≡ false)
      × (contains os "Failed" ≡ false)
unfolding result_of_outcomes
passed-none_bad os h = ground arith

differs : (a b : String) → (a == b) ≡ false → a ≢ b
differs a b h same = ground arith

clean-cases :
    (outcome : String)
    → is_clean_outcome outcome ≡ true
    → (outcome ≡ "Passed") ⊎ (outcome ≡ "NotApplicable")
unfolding is_clean_outcome
clean-cases outcome h = ground arith

clean-not :
    (outcome : String)
    → is_clean_outcome outcome ≡ true
    → ("Blocked" == outcome ≡ false)
      × ("Unknown" == outcome ≡ false)
      × ("Failed" == outcome ≡ false)
unfolding String_eq String-discrete
clean-not outcome h = elim (clean-cases outcome h) [
  | inl same ↦ rw same (refl, refl, refl)
  | inr same ↦ rw same (refl, refl, refl)
]

clean-none_bad :
    (evaluations : List Evaluation)
    → all_clean evaluations ≡ true
    → (contains (outcomes evaluations) "Blocked" ≡ false)
      × (contains (outcomes evaluations) "Unknown" ≡ false)
      × (contains (outcomes evaluations) "Failed" ≡ false)
clean-none_bad [] h = (refl, refl, refl)
clean-none_bad (e ∷ es) h =
    let (here, rest) = &&-eq-true _ _ h in
    let (b, u, f) = clean-not e.outcome here in
    let (bs, us, fs) = clean-none_bad es rest in (ground arith, ground arith, ground arith)

none_bad-passed :
    (os : List String)
    → (contains os "Blocked" ≡ false)
    → (contains os "Unknown" ≡ false)
    → (contains os "Failed" ≡ false)
    → result_of_outcomes os ≡ passed
unfolding result_of_outcomes
none_bad-passed os b u f = ground arith

true-not-false : true ≢ false
true-not-false h = cc

both-true : {a b : Bool} → a ≡ true → b ≡ true → (a && b) ≡ true
both-true p q = ground arith

no_ids :
    (findings : List Finding) → map (λ (f : Finding). f.finding_id) findings ≡ [] → findings ≡ []
no_ids [] h = refl
no_ids (f ∷ fs) h = cc

sorted_texts-nil : sorted_texts [] ≡ []
unfolding sorted_texts
sorted_texts-nil = refl

-- One evaluation refers to findings exactly where its outcome is not a clean one.
refs-agree :
    (clean : Bool) (refs : List String) (rest : List String)
    → (if clean then refs != [] else refs == []) ≡ false
    → ((clean ≡ true) × (refs ++ rest ≡ rest)) ⊎ ((clean ≡ false) × (refs ++ rest ≢ []))
refs-agree true refs rest h = inl (refl, ap (λ rs. rs ++ rest) (!=-eq-false refs [] h))
refs-agree false [] rest h = absurd (true-not-false (sym (eq_refl {A = List String} []) ∙ h))
refs-agree false (r ∷ rs) rest h = inr (refl, λ k. ground arith)

clean-iff-none_referenced :
    (findings : List Finding) (evaluations : List Evaluation) (refs : List String)
    → referenced_ids findings evaluations ≡ ok refs
    → (all_clean evaluations ≡ true) ↔ (refs ≡ [])
unfolding referenced_ids
clean-iff-none_referenced findings [] refs h = (λ c. sym (ok-injective _ _ h), λ e. refl)
clean-iff-none_referenced findings (entry ∷ entries) refs h =
    let (agree, h1) =
      raise_if-then-eq-ok
        (if is_clean_outcome entry.outcome
          then entry.finding_refs != []
          else entry.finding_refs == [])
        audit_commit_boundary_required _ h in
    let (u1, checked, h2) = >>=-eq-ok (check_refs findings entry.rule_id entry.finding_refs) _ h1 in
    let (rest, tail, h3) = >>=-eq-ok (referenced_ids findings entries) _ h2 in
    let built : entry.finding_refs ++ rest ≡ refs = ok-injective _ _ h3 in
    let (forth, back) = clean-iff-none_referenced findings entries rest tail in
    elim (refs-agree (is_clean_outcome entry.outcome) entry.finding_refs rest agree) [
      | inl (clean, none_here) ↦ (
        λ c. sym built ∙ (none_here ∙ forth ((&&-eq-true (is_clean_outcome entry.outcome) _ c).1)),
        λ e. both-true clean (back (sym none_here ∙ (built ∙ e))),
      )
      | inr (unclean, some_here) ↦ (
        λ c.
            absurd (
              true-not-false (sym ((&&-eq-true (is_clean_outcome entry.outcome) _ c).0) ∙ unclean)),
        λ e. absurd (some_here (built ∙ e)),
      )
    ]

module _ (digests : CommitDigests) (audit : AuditRecord) (preview : AuditedPreview)
    (evidence : List EvidenceRecord) (registry : RuleRegistry) where
  committed-all_known :
      (evaluations : List Evaluation) (findings : List Finding)
      → IsCommitted digests audit preview evidence registry evaluations findings
      → all_known evaluations ≡ true
  committed-all_known evaluations findings c =
      all-evaluations (λ e. is_known_outcome e.outcome) evaluations c.apart
        (λ id present.
          let (i, rule, at, named) = contains-get_elem? (semantic_rules registry) id (
            subset-contains (rule_ids evaluations) _ id ((&&-eq-true _ _ c.same_rules).0)
              present) in
          let (e, found, meets) =
            check_rules-Meets preview (ids_of evidence) (semantic_rules registry) evaluations
              c.rules_met i rule at in
          (e, ap (evaluation_of evaluations) (sym named) ∙ found, meets-known rule e meets))
    where
      meets-known :
          (rule : RuleDefinition) (e : Evaluation)
          → Meets preview (ids_of evidence) rule e
          → is_known_outcome e.outcome ≡ true
      meets-known rule e meets = elim meets.outcome [
        | inl (applies, evaluated) ↦
            let known = IsEvaluated-is_evaluated_outcome e.outcome evaluated in ground arith
        | inr (not_applies, outcome, refs, evidence) ↦ ground arith
      ]

  -- A committed audit has passed exactly where it holds no finding: an audit that validates, whose
  -- entries are read as these evaluations and findings.
  pub committed-passed_iff :
      (evaluations : List Evaluation) (findings : List Finding)
      → validate_audit_children audit.rule_evaluations audit.findings ≡ ok (evaluations, findings)
      → validate_committed_audit digests audit preview evidence registry ≡ ok tt
      → (audit.result ≡ passed) ↔ (findings ≡ [])
  committed-passed_iff evaluations findings read h =
      let c =
        validate_committed_audit-IsCommitted digests audit preview evidence registry evaluations
          findings read h in
      let (forth, back) =
        clean-iff-none_referenced findings evaluations c.referenced c.references in
      (
        λ is_passed.
            let (b, u, f) = passed-none_bad (outcomes evaluations) (sym c.result ∙ is_passed) in
            let clean =
              known-clean evaluations (committed-all_known evaluations findings c) b u f in
            no_ids findings (
              sorted_texts-empty _
                (sym c.all_referenced ∙ ap sorted_texts (forth clean) ∙ sorted_texts-nil)),
        λ no_findings.
            let empty : c.referenced ≡ [] = sorted_texts-empty c.referenced (
              c.all_referenced
              ∙ ap (λ (fs : List Finding). sorted_texts (map (λ (f : Finding). f.finding_id) fs))
                  no_findings
              ∙ sorted_texts-nil) in
            let (b, u, f) = clean-none_bad evaluations (back empty) in
            c.result ∙ none_bad-passed (outcomes evaluations) b u f,
      )
