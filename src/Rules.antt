-- ===== src/Rules.antt =====
-- rules.py: the registry of the rules that an audit evaluates.
use Prim.Native.String.{◌++◌}
use delivery_system.Base.{
  String, String_eq, List, [], ◌∷◌, ◌++◌ as append, Bool, true, false, Option, none, some, ◌==◌,
  map, if◌then◌else◌,
}
use delivery_system.Errors.{Result, ok, raise, invalid_input}

pub data RuleCategory : Type 0 where
  runtime_gate semantic : RuleCategory

pub record RuleDefinition : Type 0 where
  pub rule_id : String
  pub rule_version : String
  pub category : RuleCategory
  pub mandatory : Bool
  pub applicability : String
  pub allowed_outcomes : List String
  pub input_scope : String
  pub evaluation_contract : String
  pub failed_result_class : Option String
  pub unknown_result_class : Option String
  pub blocked_result_class : Option String

pub record RuleRegistry : Type 0 where
  pub registry_version : String
  pub rules : List RuleDefinition

-- `RUNTIME_RULE_IDS`
abbrev pub runtime_rule_ids : List String
runtime_rule_ids =
    "RT-PREVIEW-SCHEMA" ∷ "RT-PREVIEW-DIGESTS" ∷ "RT-PREVIEW-REVISION-CURRENT"
    ∷ "RT-PREVIEW-WORKSPACE" ∷ "RT-PREVIEW-REMOTE-BINDING" ∷ "RT-PREVIEW-EVIDENCE-REFERENCES"
    ∷ "RT-AUDIT-CONTEXT-FRESH" ∷ "RT-AUDIT-COVERAGE" ∷ []

unfoldable pub gate_rule : String → RuleDefinition
gate_rule id = record {
  rule_id = id;
  rule_version = "1.0";
  category = runtime_gate;
  mandatory = true;
  applicability = "Always";
  allowed_outcomes = "Pass" ∷ "Fail" ∷ [];
  input_scope = "Runtime-owned validation";
  evaluation_contract = "Runtime gate validation";
  failed_result_class = none;
  unknown_result_class = none;
  blocked_result_class = none;
}

-- `_semantic`
unfoldable pub semantic_rule : String → String → String → String → String → String → RuleDefinition
semantic_rule id version contract scope failed applicability = record {
  rule_id = id;
  rule_version = version;
  category = semantic;
  mandatory = true;
  applicability = applicability;
  allowed_outcomes = "Passed" ∷ "Failed" ∷ "Unknown" ∷ "Blocked" ∷ [];
  input_scope = scope;
  evaluation_contract = contract;
  failed_result_class = some failed;
  unknown_result_class = some "missing_information";
  blocked_result_class = some "semantic_blocker";
}

abbrev pub semantic_definitions : List RuleDefinition
semantic_definitions =
    semantic_rule "SEM-WORK-ITEM-COMPLETENESS" "1.0"
      ("Checks that each Work Item satisfies its role-specific content contract, with "
        ++ "explicit Context/Problem, Outcome, Scope, Acceptance Criteria, and "
        ++ "Verification; undeclared inference is not treated as a user fact.")
      "Work Item fields and provenance" "work_item_content_gap" "Applicable"
    ∷ semantic_rule "SEM-WORK-ITEM-DECOMPOSITION" "1.1"
        ("Checks that each Work Item represents one coherent, bounded, independently "
          ++ "meaningful, and verifiable governed outcome; one coherent outcome is not "
          ++ "split merely across implementation layers, files, modules, steps, or commits; "
          ++ "independent governed outcomes are not collapsed; decomposition stops before "
          ++ "implementation fragments; bounded technical outcomes are valid; and a shared "
          ++ "capability is separate only when it is itself an independently governable and "
          ++ "verifiable outcome.")
        "Work Item collection, Scope, and Outcome" "decomposition_risk" "Applicable"
    ∷ semantic_rule "SEM-ACCEPTANCE-CRITERIA" "1.0"
        ("Checks that Acceptance Criteria are observable, verifiable, and bounded, and "
          ++ "that Verification can prove the result rather than merely describe "
          ++ "implementation steps.")
        "Acceptance Criteria and Verification" "acceptance_criteria_gap" "Applicable"
    ∷ semantic_rule "SEM-ASSUMPTION-CLARITY" "1.0"
        ("Checks that User Asserted, Model Proposed, and Model Assumption values remain "
          ++ "distinct; unconfirmed facts affecting scope, acceptance, or relationships "
          ++ "must request clarification.")
        "Provenance and assumptions" "assumption_clarity_gap" "Applicable"
    ∷ semantic_rule "SEM-PARENT-SUBISSUE" "1.1"
        ("Checks that a child genuinely serves a distinct parent integration/system "
          ++ "outcome, that hierarchy is necessary, that parent acceptance is not merely "
          ++ "child completion, and that there is no tracking-only container, semantic "
          ++ "inversion, orphan child, or unreasonable depth.")
        "Parent/Sub-issue candidates and relationships" "relationship_risk" "Runtime"
    ∷ semantic_rule "SEM-DEPENDENCY" "1.0"
        ("Checks that dependency direction, blocking cause, and necessity have "
          ++ "evidence; implementation-order proximity alone is insufficient.")
        "Dependency candidates and relationships" "dependency_risk" "Runtime"
    ∷ semantic_rule "SEM-DUPLICATE-OVERLAP" "1.0"
        ("Uses current Remote Evidence to assess Duplicate, Partial Overlap, Related, "
          ++ "or other relationships; title, keyword overlap, or similarity alone cannot "
          ++ "establish duplication.")
        "Remote Evidence and Work Items" "duplicate_overlap_risk" "Runtime"
    ∷ []

unfoldable pub build_registry_v1 : RuleRegistry
unfolding gate_rule semantic_rule
build_registry_v1 = record {
  registry_version = "1.0";
  rules = append (map gate_rule runtime_rule_ids) semantic_definitions;
}

unfoldable pub is_semantic : RuleDefinition → Bool
is_semantic rule = elim rule.category [ semantic ↦ true | runtime_gate ↦ false ]

unfoldable pub keep_semantic : List RuleDefinition → List RuleDefinition
unfolding is_semantic
keep_semantic [] = []
keep_semantic (rule ∷ rules) =
    let rest = keep_semantic rules in if is_semantic rule then rule ∷ rest else rest

unfoldable pub semantic_rules : RuleRegistry → List RuleDefinition
unfolding keep_semantic
semantic_rules registry = keep_semantic registry.rules

-- `RuleRegistry.get`
unfoldable pub find_rule : List RuleDefinition → String → Result RuleDefinition
find_rule [] id = raise invalid_input
find_rule (rule ∷ rules) id = if rule.rule_id == id then ok rule else find_rule rules id
