-- ===== src/WriteOperations/Endpoints/Evaluate.antt =====
-- `evaluate_write_operations_v2` of write_operations.py.
use delivery_system.Base.{
  ℕ, ℕ_eq, String, String_eq, List_eq, Bool, true, false, not, ◌&&◌, ◌||◌, Option, none, some, List,
  [], ◌∷◌, ◌++◌, map, any, contains, distinct, same_set, ◌==◌, ◌!=◌, if◌then◌else◌, ltb,
}
use delivery_system.Errors.{
  raised, Result, ok, err, ◌>>=◌, ◌>>◌, raise_if, or_raise, write_operation_item_set_invalid,
  write_operation_endpoint_set_invalid, write_operation_reference_namespace_collision,
  write_operation_relationships_invalid,
}
use delivery_system.Value.{Value, dict, Fields, get, nonempty_text, as_dict, as_list, hashes}
use delivery_system.WriteOperations.{RelationshipKind, planned_parent, planned_dependency}
use delivery_system.WriteOperations.Evaluate.{read_relationship_kind}
use delivery_system.WriteOperations.Endpoints.{
  work_item, existing_issue, EndpointKind_eq, Endpoint, Endpoint_eq, EndpointOperation, create_item,
  relate, EndpointOperation_eq, EndpointPair, EndpointPair_eq, is_text, as_text, v2_endpoint,
  normalize_write_operations_v2,
}

-- The codes appended to `blockers`, in the order in which `sorted` puts them.
pub data EndpointBlocker : Type 0 where
  relationship_exists create_incomplete dependencies existing_to_existing : EndpointBlocker
  order relationships_incomplete relationship_shape unknown_endpoint : EndpointBlocker

unfoldable pub endpoint_rank : EndpointBlocker → ℕ
endpoint_rank relationship_exists = 0
endpoint_rank create_incomplete = 1
endpoint_rank dependencies = 2
endpoint_rank existing_to_existing = 3
endpoint_rank order = 4
endpoint_rank relationships_incomplete = 5
endpoint_rank relationship_shape = 6
endpoint_rank unknown_endpoint = 7

unfoldable pub insert_endpoint_blocker :
    EndpointBlocker → List EndpointBlocker → List EndpointBlocker
unfolding endpoint_rank
insert_endpoint_blocker b [] = b ∷ []
insert_endpoint_blocker b (c ∷ cs) =
    let rest = insert_endpoint_blocker b cs in
    if ltb (endpoint_rank b) (endpoint_rank c)
    then b ∷ c ∷ cs
    else if ltb (endpoint_rank c) (endpoint_rank b)
    then c ∷ rest
    else c ∷ cs

-- `tuple(sorted(set(blockers)))`
unfoldable pub sorted_endpoint_set : List EndpointBlocker → List EndpointBlocker
unfolding insert_endpoint_blocker
sorted_endpoint_set [] = []
sorted_endpoint_set (b ∷ bs) = insert_endpoint_blocker b (sorted_endpoint_set bs)

pub record EndpointEvaluation : Type 0 where
  pub operations : List EndpointOperation
  pub eligible : Bool
  pub blockers : List EndpointBlocker

abbrev pub append_if : Bool → EndpointBlocker → List EndpointBlocker
append_if test b = if test then b ∷ [] else []

-- The values of a key in the mappings of a list, if all are non-empty strings; what is no mapping is
-- passed over.
unfoldable pub refs_of : String → List Value → Option (List String)
unfolding get nonempty_text
refs_of key [] = some []
refs_of key (dict fs ∷ vs) = elim (nonempty_text (get fs key)) [
  | none ↦ none
  | some ref ↦ elim (refs_of key vs) [ none ↦ none | some refs ↦ some (ref ∷ refs) ]
]
refs_of key (v ∷ vs) = refs_of key vs

unfoldable pub is_known : List String → List String → Endpoint → Bool
is_known work existing e = elim e.endpoint_kind [
  | work_item ↦ contains work e.ref
  | existing_issue ↦ contains existing e.ref
]

unfoldable pub has_items : List String → Bool
has_items [] = false
has_items (x ∷ xs) = true

-- The loop over the operations.
unfoldable pub endpoint_operation_blockers :
    List String → List String → EndpointOperation → List EndpointBlocker
unfolding is_known has_items
endpoint_operation_blockers work existing (create_item e deps) =
    append_if (has_items deps) dependencies
    ++ append_if (e.endpoint_kind != work_item || not (contains work e.ref)) unknown_endpoint
endpoint_operation_blockers work existing (relate kind first second deps) =
    append_if (has_items deps) dependencies
    ++ (append_if (not (is_known work existing first)) unknown_endpoint
        ++ append_if (not (is_known work existing second)) unknown_endpoint)

unfoldable pub all_operation_blockers :
    List String → List String → List EndpointOperation → List EndpointBlocker
unfolding endpoint_operation_blockers
all_operation_blockers work existing [] = []
all_operation_blockers work existing (op ∷ ops) =
    endpoint_operation_blockers work existing op ++ all_operation_blockers work existing ops

unfoldable pub created_refs : List EndpointOperation → List String
created_refs [] = []
created_refs (create_item e deps ∷ ops) = e.ref ∷ created_refs ops
created_refs (relate kind first second deps ∷ ops) = created_refs ops

unfoldable pub related_pairs : List EndpointOperation → List EndpointPair
related_pairs [] = []
related_pairs (create_item e deps ∷ ops) = related_pairs ops
related_pairs (relate kind first second deps ∷ ops) =
    (record { relationship = kind; source = first; target = second }) ∷ related_pairs ops

-- The body of the loop over `planned`.
unfoldable pub planned_endpoint_pair : Value → Result EndpointPair
unfolding as_dict get hashes read_relationship_kind v2_endpoint
planned_endpoint_pair rel = do
  fields ← or_raise (as_dict (some rel)) write_operation_relationships_invalid
  elim (hashes (get fields "kind")) [ true ↦ ok tt | false ↦ err (raised "TypeError") ]
  kind ← or_raise (read_relationship_kind (get fields "kind")) write_operation_relationships_invalid
  source ← v2_endpoint (get fields "from_endpoint")
  target ← v2_endpoint (get fields "to_endpoint")
  ok (record { relationship = kind; source = source; target = target })

unfoldable pub planned_endpoint_each : List Value → Result (List EndpointPair)
unfolding planned_endpoint_pair
planned_endpoint_each [] = ok []
planned_endpoint_each (v ∷ vs) = do
  pair ← planned_endpoint_pair v
  rest ← planned_endpoint_each vs
  ok (pair ∷ rest)

-- Without the key the default is an empty list.
unfoldable pub planned_endpoint_pairs : Fields → Result (List EndpointPair)
unfolding get as_list planned_endpoint_each
planned_endpoint_pairs payload = elim (get payload "planned_relationships") [
  | none ↦ ok []
  | some v ↦
      (or_raise (as_list (some v)) write_operation_relationships_invalid >>= λ vs.
      planned_endpoint_each vs)
]

unfoldable pub pair_blockers : List EndpointPair → List EndpointBlocker
pair_blockers [] = []
pair_blockers (p ∷ ps) =
    append_if (p.source == p.target) relationship_shape
    ++ (append_if
          (p.source.endpoint_kind == existing_issue && p.target.endpoint_kind == existing_issue)
          existing_to_existing
        ++ pair_blockers ps)

-- `binding_ids.get(ref)`, where it is a string: the references of the bindings are distinct.
unfoldable pub bound_issue : List Value → String → Option String
unfolding get as_text is_text
bound_issue [] ref = none
bound_issue (dict fs ∷ vs) ref =
    let rest = bound_issue vs ref in
    if is_text (get fs "endpoint_ref") ref then as_text (get fs "issue_id") else rest
bound_issue (v ∷ vs) ref = bound_issue vs ref

unfoldable pub records_relationship : String → String → String → Value → Bool
unfolding get is_text
records_relationship kind source target (dict fs) =
    is_text (get fs "kind") kind && (is_text (get fs "from") source && is_text (get fs "to") target)
records_relationship kind source target v = false

unfoldable pub remote_kind : RelationshipKind → String
remote_kind planned_parent = "existing_parent"
remote_kind planned_dependency = "existing_dependency"

-- Whether the remote records hold a planned relationship of two existing issues already.
unfoldable pub already_exists : List Value → List Value → EndpointPair → Bool
unfolding bound_issue records_relationship remote_kind
already_exists bindings records p =
    p.source.endpoint_kind == existing_issue
    && (p.target.endpoint_kind == existing_issue && elim (bound_issue bindings p.source.ref) [
      | none ↦ false
      | some source ↦ elim (bound_issue bindings p.target.ref) [
        | none ↦ false
        | some target ↦
            any (records_relationship (remote_kind p.relationship) source target) records
      ]
    ])

unfoldable pub expected_endpoint_operations :
    List String → List EndpointPair → List EndpointOperation
expected_endpoint_operations refs pairs =
    map (λ ref. create_item (record { endpoint_kind = work_item; ref = ref }) []) refs
    ++ map (λ (p : EndpointPair). relate p.relationship p.source p.target []) pairs

unfoldable pub endpoint_blockers :
    List String
    → List String
    → List EndpointPair
    → List Value
    → List Value
    → List EndpointOperation
    → List EndpointBlocker
unfolding all_operation_blockers created_refs related_pairs pair_blockers already_exists
    expected_endpoint_operations
endpoint_blockers work existing pairs bindings records ops =
    let creates = created_refs ops in
    all_operation_blockers work existing ops
    ++ (append_if (not (distinct creates) || not (same_set creates work)) create_incomplete
        ++ (pair_blockers pairs
            ++ (append_if (not (same_set pairs (related_pairs ops))) relationships_incomplete
                ++ (append_if (any (already_exists bindings records) pairs) relationship_exists
                    ++ append_if (ops != expected_endpoint_operations work pairs) order))))

unfoldable pub no_blockers : List EndpointBlocker → Bool
no_blockers [] = true
no_blockers (b ∷ bs) = false

unfoldable pub evaluate_write_operations_v2 :
    Value → List Value → Fields → List Value → List Value → Result EndpointEvaluation
unfolding normalize_write_operations_v2 refs_of has_items planned_endpoint_pairs endpoint_blockers
    no_blockers sorted_endpoint_set
evaluate_write_operations_v2 operation_intents items payload bindings records = do
  operations ← normalize_write_operations_v2 operation_intents
  work ← or_raise (refs_of "client_ref" items) write_operation_item_set_invalid
  raise_if (not (has_items work) || not (distinct work)) write_operation_item_set_invalid
  existing ← or_raise (refs_of "endpoint_ref" bindings) write_operation_endpoint_set_invalid
  raise_if (not (distinct existing)) write_operation_endpoint_set_invalid
  raise_if (any (contains existing) work) write_operation_reference_namespace_collision
  pairs ← planned_endpoint_pairs payload
  let blockers = endpoint_blockers work existing pairs bindings records operations
  ok (record {
    operations = operations;
    eligible = no_blockers blockers;
    blockers = sorted_endpoint_set blockers;
  })
