-- ===== src/Tests/Endpoints.antt =====
-- The evaluation of a concrete V2 set: one new item, to be a sub-issue of an existing issue.
use delivery_system.Base.{
  refl, ◌≡◌, ◌++◌, map, true, some, List, [], ◌∷◌, String-discrete, List-discrete, ℕ_eq, String_eq,
  List_eq,
}
use delivery_system.Errors.{ok}
use delivery_system.Value.{
  Value, Fields, text, list, dict, nil, cons, end, field, elements, keys, get, nonempty_text,
  as_dict, as_list, as_sequence, nonempty_texts, text_list, hashes, is_unhashable, has_unhashable,
}
use delivery_system.WriteOperations.{planned_parent}
use delivery_system.WriteOperations.Evaluate.{read_relationship_kind}
use delivery_system.WriteOperations.Endpoints.{
  work_item, existing_issue, create_item, relate, EndpointPair, EndpointKind-discrete,
  RelationshipKind-discrete, Endpoint-discrete, EndpointOperation-discrete, EndpointPair-discrete,
  EndpointKind_eq, Endpoint_eq, EndpointOperation_eq, EndpointPair_eq, is_text, v2_endpoint,
  as_text, normalize_create, two_operands, normalize_relationship, normalize_operation_v2,
  normalize_each_v2, normalize_write_operations_v2,
}
use delivery_system.WriteOperations.Endpoints.Evaluate.{
  EndpointEvaluation, endpoint_rank, insert_endpoint_blocker, sorted_endpoint_set, refs_of,
  is_known, has_items, endpoint_operation_blockers, all_operation_blockers, created_refs,
  related_pairs, planned_endpoint_pair, planned_endpoint_each, planned_endpoint_pairs,
  pair_blockers, bound_issue, records_relationship, remote_kind, already_exists,
  expected_endpoint_operations, endpoint_blockers, no_blockers, evaluate_write_operations_v2,
}
use delivery_system.WriteOperations.Endpoints.Eligible.{AllJoin, evaluate_v2-eligible}
use delivery_system.Tests.Fixtures.{result_or}

abbrev new_item : Value
new_item = dict (field "endpoint_type" (text "work_item") (field "client_ref" (text "a") end))

abbrev old_issue : Value
old_issue =
    dict (field "endpoint_type" (text "existing_issue") (field "endpoint_ref" (text "old") end))

abbrev intents : Value
intents = list (
    cons
      (dict (
        field "operation_kind" (text "create_issue")
          (field "endpoint" new_item (field "depends_on" (list nil) end))))
      (cons
        (dict (
          field "operation_kind" (text "add_sub_issue") (
            field "operands" (list (cons old_issue (cons new_item nil)))
              (field "depends_on" (list nil) end))))
        nil))

abbrev items : List Value
items = dict (field "client_ref" (text "a") end) ∷ []

abbrev bindings : List Value
bindings = dict (field "endpoint_ref" (text "old") (field "issue_id" (text "7") end)) ∷ []

abbrev payload : Fields
payload =
    field "planned_relationships"
      (list (
        cons
          (dict (
            field "kind" (text "planned_parent")
              (field "from_endpoint" old_issue (field "to_endpoint" new_item end))))
          nil))
      end

abbrev pairs : List EndpointPair
pairs =
    (record {
      relationship = planned_parent;
      source = record { endpoint_kind = existing_issue; ref = "old" };
      target = record { endpoint_kind = work_item; ref = "a" };
    })
    ∷ []

abbrev evaluation : EndpointEvaluation
evaluation =
    result_or (record { operations = []; eligible = true; blockers = [] })
      (evaluate_write_operations_v2 intents items payload bindings [])

-- What the evaluation computes.
computed_evaluation :
    (refs_of "client_ref" items ≡ some ("a" ∷ []))
    × (planned_endpoint_pairs payload ≡ ok pairs)
    × (evaluate_write_operations_v2 intents items payload bindings [] ≡ ok evaluation)
    × (evaluation.eligible ≡ true)
unfolding String-discrete List-discrete ℕ_eq String_eq List_eq elements keys get nonempty_text
    as_dict as_list as_sequence nonempty_texts text_list hashes is_unhashable has_unhashable
    read_relationship_kind EndpointKind-discrete RelationshipKind-discrete Endpoint-discrete
    EndpointOperation-discrete EndpointPair-discrete EndpointKind_eq Endpoint_eq
    EndpointOperation_eq EndpointPair_eq is_text v2_endpoint as_text normalize_create two_operands
    normalize_relationship normalize_operation_v2 normalize_each_v2 normalize_write_operations_v2
    endpoint_rank insert_endpoint_blocker sorted_endpoint_set refs_of is_known has_items
    endpoint_operation_blockers all_operation_blockers created_refs related_pairs
    planned_endpoint_pair planned_endpoint_each planned_endpoint_pairs pair_blockers bound_issue
    records_relationship remote_kind already_exists expected_endpoint_operations endpoint_blockers
    no_blockers evaluate_write_operations_v2
computed_evaluation = ((refl), (refl), (refl), (refl))

refs_read : refs_of "client_ref" items ≡ some ("a" ∷ [])
refs_read = computed_evaluation.0

pairs_read : planned_endpoint_pairs payload ≡ ok pairs
pairs_read = computed_evaluation.1

evaluated : evaluate_write_operations_v2 intents items payload bindings [] ≡ ok evaluation
evaluated = computed_evaluation.2

found_eligible : evaluation.eligible ≡ true
found_eligible = computed_evaluation.3

evaluate_v2-eligible_example :
    (evaluation.operations
      ≡ map (λ ref. create_item (record { endpoint_kind = work_item; ref = ref }) []) ("a" ∷ [])
        ++ map (λ (p : EndpointPair). relate p.relationship p.source p.target []) pairs)
    × AllJoin pairs
evaluate_v2-eligible_example =
    evaluate_v2-eligible intents items payload bindings [] ("a" ∷ []) pairs evaluation refs_read
      pairs_read evaluated found_eligible
