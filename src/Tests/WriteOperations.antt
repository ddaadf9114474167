-- ===== src/Tests/WriteOperations.antt =====
-- The evaluation of concrete operations: two items, of which the second is to be a sub-issue of the
-- first.
use delivery_system.Base.{
  refl, ◌≡◌, ◌↔◌, [], ◌∷◌, List, String, true, all, String-discrete, List-discrete, ℕ_eq, String_eq,
  List_eq,
}
use delivery_system.Errors.{ok}
use delivery_system.Value.{
  Value, Values, Fields, text, list, dict, nil, cons, end, field, elements, keys, get,
  nonempty_text, as_dict, as_list, as_sequence, nonempty_texts, text_list,
}
use delivery_system.WriteOperations.{
  PlannedPair, planned_parent, OperationKind-discrete, WriteOperation-discrete,
  PlannedPair-discrete, OperationKind_eq, WriteOperation_eq, PlannedPair_eq, read_kind,
  normalize_operation, normalize_each, normalize_write_operations,
}
use delivery_system.WriteOperations.Evaluate.{
  WriteOperationEvaluation, rank, insert_blocker, sorted_set, relationship_shape_bad, kind_blockers,
  operation_blockers, client_refs_of, item_refs, read_relationship_kind, planned_pair, planned_each,
  planned_pairs, create_ref, create_refs, pair_of_refs, operation_pair, operation_pairs,
  create_operation, relationship_operation_kind, relationship_operation, expected_operations,
  loop_blockers, blockers_of, is_empty, evaluation_of, evaluate_write_operations,
}
use delivery_system.WriteOperations.Expected.{endpoints_known}
use delivery_system.WriteOperations.Eligible.{eligible-iff-expected}
use delivery_system.Tests.Fixtures.{result_or}

abbrev texts : List String → Values
texts [] = nil
texts (s ∷ ss) = cons (text s) (texts ss)

abbrev intent : String → List String → Value
intent kind refs = dict (
    field "operation_kind" (text kind)
      (field "client_refs" (list (texts refs)) (field "depends_on" (list nil) end)))

abbrev intents : Value
intents = list (
    cons (intent "create_issue" ("a" ∷ [])) (
      cons (intent "create_issue" ("b" ∷ [])) (cons (intent "add_sub_issue" ("a" ∷ "b" ∷ [])) nil)))

abbrev items : List Value
items = dict (field "client_ref" (text "a") end) ∷ dict (field "client_ref" (text "b") end) ∷ []

abbrev payload : Fields
payload =
    field "planned_relationships"
      (list (
        cons
          (dict (
            field "kind" (text "planned_parent")
              (field "from_client_ref" (text "a") (field "to_client_ref" (text "b") end))))
          nil))
      end

abbrev pairs : List PlannedPair
pairs = record { kind = planned_parent; source = "a"; target = "b" } ∷ []

abbrev evaluation : WriteOperationEvaluation
evaluation =
    result_or (record { operations = []; eligible = true; blockers = [] })
      (evaluate_write_operations intents items payload)

refs_read : item_refs items ≡ ok ("a" ∷ "b" ∷ [])
unfolding String-discrete List-discrete ℕ_eq String_eq List_eq elements keys get nonempty_text
    as_dict as_list as_sequence nonempty_texts text_list OperationKind-discrete
    WriteOperation-discrete PlannedPair-discrete OperationKind_eq WriteOperation_eq PlannedPair_eq
    read_kind normalize_operation normalize_each normalize_write_operations rank insert_blocker
    sorted_set relationship_shape_bad kind_blockers operation_blockers client_refs_of item_refs
    read_relationship_kind planned_pair planned_each planned_pairs create_ref create_refs
    pair_of_refs operation_pair operation_pairs create_operation relationship_operation_kind
    relationship_operation expected_operations loop_blockers blockers_of is_empty evaluation_of
    evaluate_write_operations
refs_read = refl

pairs_read : planned_pairs payload ≡ ok pairs
unfolding String-discrete List-discrete ℕ_eq String_eq List_eq elements keys get nonempty_text
    as_dict as_list as_sequence nonempty_texts text_list OperationKind-discrete
    WriteOperation-discrete PlannedPair-discrete OperationKind_eq WriteOperation_eq PlannedPair_eq
    read_kind normalize_operation normalize_each normalize_write_operations rank insert_blocker
    sorted_set relationship_shape_bad kind_blockers operation_blockers client_refs_of item_refs
    read_relationship_kind planned_pair planned_each planned_pairs create_ref create_refs
    pair_of_refs operation_pair operation_pairs create_operation relationship_operation_kind
    relationship_operation expected_operations loop_blockers blockers_of is_empty evaluation_of
    evaluate_write_operations
pairs_read = refl

evaluated : evaluate_write_operations intents items payload ≡ ok evaluation
unfolding String-discrete List-discrete ℕ_eq String_eq List_eq elements keys get nonempty_text
    as_dict as_list as_sequence nonempty_texts text_list OperationKind-discrete
    WriteOperation-discrete PlannedPair-discrete OperationKind_eq WriteOperation_eq PlannedPair_eq
    read_kind normalize_operation normalize_each normalize_write_operations rank insert_blocker
    sorted_set relationship_shape_bad kind_blockers operation_blockers client_refs_of item_refs
    read_relationship_kind planned_pair planned_each planned_pairs create_ref create_refs
    pair_of_refs operation_pair operation_pairs create_operation relationship_operation_kind
    relationship_operation expected_operations loop_blockers blockers_of is_empty evaluation_of
    evaluate_write_operations
evaluated = refl

evaluated_eligible : evaluation.eligible ≡ true
unfolding String-discrete List-discrete ℕ_eq String_eq List_eq elements keys get nonempty_text
    as_dict as_list as_sequence nonempty_texts text_list OperationKind-discrete
    WriteOperation-discrete PlannedPair-discrete OperationKind_eq WriteOperation_eq PlannedPair_eq
    read_kind normalize_operation normalize_each normalize_write_operations rank insert_blocker
    sorted_set relationship_shape_bad kind_blockers operation_blockers client_refs_of item_refs
    read_relationship_kind planned_pair planned_each planned_pairs create_ref create_refs
    pair_of_refs operation_pair operation_pairs create_operation relationship_operation_kind
    relationship_operation expected_operations loop_blockers blockers_of is_empty evaluation_of
    evaluate_write_operations
evaluated_eligible = refl

eligible-iff-expected_example : (evaluation.eligible ≡ true) ↔ (
    (evaluation.operations ≡ expected_operations ("a" ∷ "b" ∷ []) pairs)
    × (all (endpoints_known ("a" ∷ "b" ∷ [])) pairs ≡ true))
eligible-iff-expected_example =
    eligible-iff-expected intents items payload ("a" ∷ "b" ∷ []) pairs evaluation refs_read
      pairs_read evaluated
