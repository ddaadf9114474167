-- ===== src/WriteOperations/Endpoints.antt =====
-- The V2 contract of write_operations.py, whose operations name endpoints. A normalized endpoint, a
-- dictionary with exactly the two keys of its kind in the source, is a record.
pub mod Evaluate
pub mod Eligible
use delivery_system.Base.{
  ℕ, ℕ_eq, String, String_eq, List_eq, Bool, true, false, not, ◌&&◌, ◌||◌, Option, none, some, List,
  [], ◌∷◌, ◌++◌, map, length, any, contains, distinct, same_set, ◌==◌, ◌!=◌, if◌then◌else◌, ltb, Eq,
  String-discrete, List-discrete,
}
use delivery_system.Errors.{
  raised, Result, ok, err, ◌>>=◌, ◌>>◌, raise, raise_if, or_raise, write_operation_endpoint_invalid,
  write_operation_set_invalid, write_operation_shape_invalid,
  write_operation_create_endpoint_invalid, write_operation_relationship_shape_invalid,
  write_operation_kind_not_write_eligible, write_operation_item_set_invalid,
  write_operation_endpoint_set_invalid, write_operation_reference_namespace_collision,
  write_operation_relationships_invalid,
}
use delivery_system.Value.{
  Value, text, list, Fields, keys, get, nonempty_text, as_dict, as_list, as_sequence, text_list,
  hashes,
}
use delivery_system.WriteOperations.{RelationshipKind, planned_parent, planned_dependency}
use delivery_system.WriteOperations.Evaluate.{read_relationship_kind}

pub data EndpointKind : Type 0 where
  work_item existing_issue : EndpointKind

pub record Endpoint : Type 0 where
  pub endpoint_kind : EndpointKind
  pub ref : String

pub data EndpointOperation : Type 0 where
  create_item : Endpoint → List String → EndpointOperation
  relate : RelationshipKind → Endpoint → Endpoint → List String → EndpointOperation

-- An element of `planned_pairs` and of `operation_pairs`.
pub record EndpointPair : Type 0 where
  pub relationship : RelationshipKind
  pub source : Endpoint
  pub target : Endpoint

unfoldable pub EndpointKind-discrete : Discrete EndpointKind
EndpointKind-discrete = hlevel

unfoldable pub RelationshipKind-discrete : Discrete RelationshipKind
RelationshipKind-discrete = hlevel

unfoldable pub Endpoint-discrete : Discrete Endpoint
Endpoint-discrete = hlevel (EndpointKind-discrete, String-discrete)

unfoldable pub EndpointOperation-discrete : Discrete EndpointOperation
EndpointOperation-discrete =
    hlevel (RelationshipKind-discrete, Endpoint-discrete, List-discrete String-discrete)

unfoldable pub EndpointPair-discrete : Discrete EndpointPair
EndpointPair-discrete = hlevel (RelationshipKind-discrete, Endpoint-discrete)

instance unfoldable pub EndpointKind_eq : Eq EndpointKind
EndpointKind_eq = record { dec = EndpointKind-discrete }

instance unfoldable pub Endpoint_eq : Eq Endpoint
Endpoint_eq = record { dec = Endpoint-discrete }

instance unfoldable pub EndpointOperation_eq : Eq EndpointOperation
EndpointOperation_eq = record { dec = EndpointOperation-discrete }

instance unfoldable pub EndpointPair_eq : Eq EndpointPair
EndpointPair_eq = record { dec = EndpointPair-discrete }

-- `value == s`, of any value
unfoldable pub is_text : Option Value → String → Bool
is_text (some (text t)) s = t == s
is_text _ s = false

-- `_v2_endpoint`
unfoldable pub v2_endpoint : Option Value → Result Endpoint
unfolding as_dict keys get nonempty_text is_text
v2_endpoint value = do
  fields ← or_raise (as_dict value) write_operation_endpoint_invalid
  let by_client = same_set (keys fields) ("endpoint_type" ∷ "client_ref" ∷ [])
  let by_endpoint = same_set (keys fields) ("endpoint_type" ∷ "endpoint_ref" ∷ [])
  raise_if (not by_client && not by_endpoint) write_operation_endpoint_invalid
  let kind = get fields "endpoint_type"
  if is_text kind "work_item" && by_client
      then (or_raise (nonempty_text (get fields "client_ref")) write_operation_endpoint_invalid
          >>= λ ref. ok (record { endpoint_kind = work_item; ref = ref }))
      else if is_text kind "existing_issue" && by_endpoint
      then (or_raise (nonempty_text (get fields "endpoint_ref")) write_operation_endpoint_invalid
          >>= λ ref. ok (record { endpoint_kind = existing_issue; ref = ref }))
      else raise write_operation_endpoint_invalid

-- `isinstance(value, str)`
unfoldable pub as_text : Option Value → Option String
as_text (some (text s)) = some s
as_text _ = none

unfoldable pub normalize_create : Fields → List String → Result EndpointOperation
unfolding v2_endpoint keys get
normalize_create fields deps = do
  raise_if (not (same_set (keys fields) ("operation_kind" ∷ "endpoint" ∷ "depends_on" ∷ [])))
      write_operation_shape_invalid
  endpoint ← v2_endpoint (get fields "endpoint")
  raise_if (endpoint.endpoint_kind != work_item) write_operation_create_endpoint_invalid
  ok (create_item endpoint deps)

-- `len(operands) == 2`
unfoldable pub two_operands : Option (List Value) → Option (Value × Value)
two_operands (some (first ∷ second ∷ [])) = some (first, second)
two_operands _ = none

unfoldable pub normalize_relationship :
    RelationshipKind → Fields → List String → Result EndpointOperation
unfolding v2_endpoint keys get as_list two_operands
normalize_relationship kind fields deps = do
  raise_if (not (same_set (keys fields) ("operation_kind" ∷ "operands" ∷ "depends_on" ∷ [])))
      write_operation_shape_invalid
  (left, right) ←
      or_raise (two_operands (as_list (get fields "operands")))
        write_operation_relationship_shape_invalid
  first ← v2_endpoint (some left)
  second ← v2_endpoint (some right)
  raise_if (first == second) write_operation_relationship_shape_invalid
  ok (relate kind first second deps)

-- The body of the loop of `normalize_write_operations_v2`.
unfoldable pub normalize_operation_v2 : Value → Result EndpointOperation
unfolding normalize_create normalize_relationship as_dict get text_list as_text
normalize_operation_v2 operation = do
  fields ← or_raise (as_dict (some operation)) write_operation_shape_invalid
  kind ← or_raise (as_text (get fields "operation_kind")) write_operation_shape_invalid
  deps ← or_raise (text_list (get fields "depends_on")) write_operation_shape_invalid
  if kind == "create_issue"
      then normalize_create fields deps
      else if kind == "add_sub_issue"
      then normalize_relationship planned_parent fields deps
      else if kind == "add_dependency"
      then normalize_relationship planned_dependency fields deps
      else raise write_operation_kind_not_write_eligible

unfoldable pub normalize_each_v2 : List Value → Result (List EndpointOperation)
unfolding normalize_operation_v2
normalize_each_v2 [] = ok []
normalize_each_v2 (v ∷ vs) = do
  operation ← normalize_operation_v2 v
  rest ← normalize_each_v2 vs
  ok (operation ∷ rest)

unfoldable pub normalize_write_operations_v2 : Value → Result (List EndpointOperation)
unfolding as_sequence normalize_each_v2
normalize_write_operations_v2 operation_intents = do
  intents ← or_raise (as_sequence operation_intents) write_operation_set_invalid
  normalize_each_v2 intents
