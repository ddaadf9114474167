-- ===== src/Auditor/Applicable.antt =====
-- `rule_is_applicable` of auditor.py and the outcomes of a rule that applies, described apart from the
-- code's tests.
use delivery_system.Base.{
  ◌≡◌, ◌≢◌, refl, sym, ◌∙◌, String, String_eq, List, [], ◌∷◌, true, false, ◌||◌, ◌==◌, ◌!=◌, ==_iff,
  Bool, if◌then◌else◌, any, contains, arith, Bool-cases, ==-eq-true, ==_ne, ◌⊎◌, inl, inr,
}
use delivery_system.Rules.{RuleDefinition}
use delivery_system.Auditor.Committed.{AuditedPreview, rule_is_applicable, is_evaluated_outcome}

-- Where a rule applies to a preview: always, or where the preview plans a relationship of its kind, or
-- where the preview has a remote side.
pub data Applies (rule : RuleDefinition) (preview : AuditedPreview) : Type 0 where
  always : rule.applicability ≡ "Applicable" → Applies rule preview
  plans_parent :
      rule.rule_id ≡ "SEM-PARENT-SUBISSUE"
      → (contains preview.relationship_kinds "planned_parent"
          || contains preview.relationship_kinds "planned_parent_candidate")
        ≡ true
      → Applies rule preview
  plans_dependency :
      rule.rule_id ≡ "SEM-DEPENDENCY"
      → (contains preview.relationship_kinds "planned_dependency"
          || contains preview.relationship_kinds "planned_dependency_candidate")
        ≡ true
      → Applies rule preview
  not_conceptual :
      rule.rule_id ≡ "SEM-DUPLICATE-OVERLAP"
      → preview.preview_level ≢ "Conceptual"
      → Applies rule preview

any-either :
    (a b : String) (kinds : List String)
    → any (λ kind. kind == a || kind == b) kinds ≡ (contains kinds a || contains kinds b)
any-either a b [] = refl
any-either a b (k ∷ kinds) = ground (arith, any-either a b kinds)

pub rule_is_applicable-Applies :
    (rule : RuleDefinition) (preview : AuditedPreview)
    → rule_is_applicable rule preview ≡ true
    → Applies rule preview
unfolding rule_is_applicable
rule_is_applicable-Applies rule preview h = elim (Bool-cases (rule.applicability == "Applicable")) [
  | inl e ↦ always (==-eq-true rule.applicability "Applicable" e)
  | inr a ↦ elim (Bool-cases (rule.rule_id == "SEM-PARENT-SUBISSUE")) [
    | inl e ↦ plans_parent (==-eq-true rule.rule_id "SEM-PARENT-SUBISSUE" e) (
        sym (any-either "planned_parent" "planned_parent_candidate" preview.relationship_kinds)
        ∙ ground arith)
    | inr b ↦ elim (Bool-cases (rule.rule_id == "SEM-DEPENDENCY")) [
      | inl e ↦ plans_dependency (==-eq-true rule.rule_id "SEM-DEPENDENCY" e) (
          sym (
            any-either "planned_dependency" "planned_dependency_candidate"
              preview.relationship_kinds)
          ∙ ground arith)
      | inr c ↦ elim (Bool-cases (rule.rule_id == "SEM-DUPLICATE-OVERLAP")) [
        | inl e ↦
            not_conceptual (==-eq-true rule.rule_id "SEM-DUPLICATE-OVERLAP" e)
              (λ same. ground arith)
        | inr d ↦ ground arith
      ]
    ]
  ]
]

other_id : (id a b : String) → id ≡ a → a ≢ b → (id == b) ≡ false
other_id id a b e different = ==_ne id b (λ same. different (sym e ∙ same))

-- The tests of a rule, one after the other.
first_of :
    (a p d u x y z : Bool)
    → ((p ≡ true) × (x ≡ true))
      ⊎ (((p ≡ false) × (d ≡ true) × (y ≡ true))
          ⊎ ((p ≡ false) × (d ≡ false) × (u ≡ true) × (z ≡ true)))
    → (if a then true else if p then x else if d then y else if u then z else false) ≡ true
first_of true p d u x y z h = refl
first_of false p d u x y z (inl (hp, hx)) = rw hp hx
first_of false p d u x y z (inr (inl (hp, hd, hy))) = rw hp (rw hd hy)
first_of false p d u x y z (inr (inr (hp, hd, hu, hz))) = rw hp (rw hd (rw hu hz))

is_other : (a b : String) → a ≢ b → (a != b) ≡ true
is_other a b h = ground (arith, ==_ne a b h)

is_id : (id a : String) → id ≡ a → (id == a) ≡ true
is_id id a e = (==_iff id a).1 e

applicable_of :
    (rule : RuleDefinition) (preview : AuditedPreview)
    → (((rule.rule_id == "SEM-PARENT-SUBISSUE") ≡ true)
        × (any
              (λ kind. kind == "planned_parent" || kind == "planned_parent_candidate")
              preview.relationship_kinds
            ≡ true))
      ⊎ ((((rule.rule_id == "SEM-PARENT-SUBISSUE") ≡ false)
            × ((rule.rule_id == "SEM-DEPENDENCY") ≡ true)
            × (any
                  (λ kind. kind == "planned_dependency" || kind == "planned_dependency_candidate")
                  preview.relationship_kinds
                ≡ true))
          ⊎ (((rule.rule_id == "SEM-PARENT-SUBISSUE") ≡ false)
              × ((rule.rule_id == "SEM-DEPENDENCY") ≡ false)
              × ((rule.rule_id == "SEM-DUPLICATE-OVERLAP") ≡ true)
              × ((preview.preview_level != "Conceptual") ≡ true)))
    → rule_is_applicable rule preview ≡ true
unfolding rule_is_applicable
applicable_of rule preview h =
    first_of (rule.applicability == "Applicable") (rule.rule_id == "SEM-PARENT-SUBISSUE")
      (rule.rule_id == "SEM-DEPENDENCY") (rule.rule_id == "SEM-DUPLICATE-OVERLAP")
      (any (λ kind. kind == "planned_parent" || kind == "planned_parent_candidate")
        preview.relationship_kinds)
      (any (λ kind. kind == "planned_dependency" || kind == "planned_dependency_candidate")
        preview.relationship_kinds)
      (preview.preview_level != "Conceptual") h

always-applicable :
    (rule : RuleDefinition) (preview : AuditedPreview)
    → (rule.applicability == "Applicable") ≡ true
    → rule_is_applicable rule preview ≡ true
unfolding rule_is_applicable
always-applicable rule preview h = rw h refl

dependency-not-parent : ◌≢◌ {A = String} "SEM-DEPENDENCY" "SEM-PARENT-SUBISSUE"
dependency-not-parent same = cc

overlap-not-parent : ◌≢◌ {A = String} "SEM-DUPLICATE-OVERLAP" "SEM-PARENT-SUBISSUE"
overlap-not-parent same = cc

overlap-not-dependency : ◌≢◌ {A = String} "SEM-DUPLICATE-OVERLAP" "SEM-DEPENDENCY"
overlap-not-dependency same = cc

pub Applies-rule_is_applicable :
    (rule : RuleDefinition) (preview : AuditedPreview)
    → Applies rule preview
    → rule_is_applicable rule preview ≡ true
Applies-rule_is_applicable rule preview (always e) =
    always-applicable rule preview (is_id rule.applicability "Applicable" e)
Applies-rule_is_applicable rule preview (plans_parent e planned) = applicable_of rule preview (
    inl (
      is_id rule.rule_id "SEM-PARENT-SUBISSUE" e,
      any-either "planned_parent" "planned_parent_candidate" preview.relationship_kinds ∙ planned,
    ))
Applies-rule_is_applicable rule preview (plans_dependency e planned) = applicable_of rule preview (
    inr (
      inl (
        other_id rule.rule_id "SEM-DEPENDENCY" "SEM-PARENT-SUBISSUE" e dependency-not-parent,
        is_id rule.rule_id "SEM-DEPENDENCY" e,
        any-either "planned_dependency" "planned_dependency_candidate" preview.relationship_kinds
            ∙ planned,
      )))
Applies-rule_is_applicable rule preview (not_conceptual e remote) = applicable_of rule preview (
    inr (
      inr (
        other_id rule.rule_id "SEM-DUPLICATE-OVERLAP" "SEM-PARENT-SUBISSUE" e overlap-not-parent,
        other_id rule.rule_id "SEM-DUPLICATE-OVERLAP" "SEM-DEPENDENCY" e overlap-not-dependency,
        is_id rule.rule_id "SEM-DUPLICATE-OVERLAP" e,
        is_other preview.preview_level "Conceptual" remote,
      )))

-- The outcomes of a rule that applies.
pub data IsEvaluated (outcome : String) : Type 0 where
  passes : outcome ≡ "Passed" → IsEvaluated outcome
  fails : outcome ≡ "Failed" → IsEvaluated outcome
  stays_unknown : outcome ≡ "Unknown" → IsEvaluated outcome
  blocks : outcome ≡ "Blocked" → IsEvaluated outcome

pub is_evaluated_outcome-IsEvaluated :
    (outcome : String) → is_evaluated_outcome outcome ≡ true → IsEvaluated outcome
unfolding is_evaluated_outcome
is_evaluated_outcome-IsEvaluated outcome h = elim (Bool-cases (outcome == "Passed")) [
  | inl e ↦ passes (==-eq-true outcome "Passed" e)
  | inr a ↦ elim (Bool-cases (outcome == "Failed")) [
    | inl e ↦ fails (==-eq-true outcome "Failed" e)
    | inr b ↦ elim (Bool-cases (outcome == "Unknown")) [
      | inl e ↦ stays_unknown (==-eq-true outcome "Unknown" e)
      | inr c ↦ blocks (ground arith)
    ]
  ]
]

pub IsEvaluated-is_evaluated_outcome :
    (outcome : String) → IsEvaluated outcome → is_evaluated_outcome outcome ≡ true
unfolding is_evaluated_outcome
IsEvaluated-is_evaluated_outcome outcome (passes e) = ground arith
IsEvaluated-is_evaluated_outcome outcome (fails e) = ground arith
IsEvaluated-is_evaluated_outcome outcome (stays_unknown e) = ground arith
IsEvaluated-is_evaluated_outcome outcome (blocks e) = ground arith
