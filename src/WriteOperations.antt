-- ===== src/WriteOperations.antt =====
-- write_operations.py, the V1 contract. A normalized operation, a dictionary with exactly three
-- keys in the source, is a record; an operation kind is the string that it was read from.
pub mod Evaluate
pub mod Expected
pub mod Eligible
pub mod Endpoints
use delivery_system.Base.{
  String, String_eq, Option, some, List, [], ◌∷◌, distinct, same_set, Eq, ◌==◌, if◌then◌else◌,
  String-discrete, List-discrete,
}
use delivery_system.Errors.{
  Result, ok, ◌>>=◌, ◌>>◌, require, or_raise, write_operation_set_invalid,
  write_operation_shape_invalid, write_operation_client_refs_duplicate,
}
use delivery_system.Value.{Value, keys, get, nonempty_text, as_dict, as_sequence, text_list}

-- `WRITE_OPERATION_KINDS`, and every other string.
pub data OperationKind : Type 0 where
  create_issue add_sub_issue add_dependency : OperationKind
  unsupported : String → OperationKind

pub data RelationshipKind : Type 0 where
  planned_parent planned_dependency : RelationshipKind

pub record WriteOperation : Type 0 where
  pub operation_kind : OperationKind
  pub client_refs : List String
  pub depends_on : List String

-- An element of `planned_pairs` and of `operation_pairs`.
pub record PlannedPair : Type 0 where
  pub kind : RelationshipKind
  pub source : String
  pub target : String

unfoldable pub OperationKind-discrete : Discrete OperationKind
OperationKind-discrete = hlevel String-discrete

unfoldable pub WriteOperation-discrete : Discrete WriteOperation
WriteOperation-discrete = hlevel (OperationKind-discrete, List-discrete String-discrete)

unfoldable pub PlannedPair-discrete : Discrete PlannedPair
PlannedPair-discrete = hlevel String-discrete

instance unfoldable pub OperationKind_eq : Eq OperationKind
OperationKind_eq = record { dec = OperationKind-discrete }

instance unfoldable pub WriteOperation_eq : Eq WriteOperation
WriteOperation_eq = record { dec = WriteOperation-discrete }

instance unfoldable pub PlannedPair_eq : Eq PlannedPair
PlannedPair_eq = record { dec = PlannedPair-discrete }

unfoldable pub read_kind : String → OperationKind
read_kind s =
    if s == "create_issue"
    then create_issue
    else if s == "add_sub_issue"
    then add_sub_issue
    else if s == "add_dependency"
    then add_dependency
    else unsupported s

-- `_OPERATION_FIELDS`
abbrev pub operation_fields : List String
operation_fields = "operation_kind" ∷ "client_refs" ∷ "depends_on" ∷ []

-- The body of the loop of `normalize_write_operations`.
unfoldable pub normalize_operation : Value → Result WriteOperation
unfolding read_kind keys get nonempty_text as_dict text_list
normalize_operation operation = do
  fields ← or_raise (as_dict (some operation)) write_operation_shape_invalid
  require (same_set (keys fields) operation_fields) write_operation_shape_invalid
  kind ← or_raise (nonempty_text (get fields "operation_kind")) write_operation_shape_invalid
  refs ← or_raise (text_list (get fields "client_refs")) write_operation_shape_invalid
  dependencies ← or_raise (text_list (get fields "depends_on")) write_operation_shape_invalid
  require (distinct refs) write_operation_client_refs_duplicate
  ok (record { operation_kind = read_kind kind; client_refs = refs; depends_on = dependencies })

unfoldable pub normalize_each : List Value → Result (List WriteOperation)
unfolding normalize_operation
normalize_each [] = ok []
normalize_each (v ∷ vs) = do
  operation ← normalize_operation v
  rest ← normalize_each vs
  ok (operation ∷ rest)

unfoldable pub normalize_write_operations : Value → Result (List WriteOperation)
unfolding as_sequence normalize_each
normalize_write_operations operation_intents = do
  intents ← or_raise (as_sequence operation_intents) write_operation_set_invalid
  normalize_each intents
