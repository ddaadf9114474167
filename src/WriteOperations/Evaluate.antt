-- ===== src/WriteOperations/Evaluate.antt =====
-- `evaluate_write_operations` of write_operations.py. The codes of `blockers` are a type of their
-- own; a relationship is a pair that the semantic payload plans.
use delivery_system.Base.{
  ℕ, ℕ_eq, String, String_eq, List_eq, Bool, true, false, not, ◌&&◌, ◌||◌, Option, none, some, List,
  [], ◌∷◌, ◌++◌, map, length, any, contains, distinct, same_set, ◌==◌, ◌!=◌, if◌then◌else◌, ltb,
}
use delivery_system.Errors.{
  raised, err, Result, ok, ◌>>=◌, ◌>>◌, require, or_raise, write_operation_item_set_invalid,
  write_operation_relationships_invalid,
}
use delivery_system.Value.{
  Value, Fields, is_unhashable, has_unhashable, hashes, get, nonempty_text, as_dict, as_list,
}
use delivery_system.WriteOperations.{
  OperationKind, create_issue, add_sub_issue, add_dependency, unsupported, RelationshipKind,
  planned_parent, planned_dependency, WriteOperation, WriteOperation_eq, PlannedPair,
  PlannedPair_eq, OperationKind_eq, normalize_write_operations,
}

-- The codes appended to `blockers`, in the order in which `sorted` puts them.
pub data Blocker : Type 0 where
  create_issue_incomplete create_issue_shape_invalid dependencies_unsupported : Blocker
  duplicate_create_issue kind_not_write_eligible order_invalid relationship_incomplete : Blocker
  relationship_shape_invalid relationship_unplanned unknown_client_ref : Blocker

-- The place of a code among the sorted codes.
unfoldable pub rank : Blocker → ℕ
rank create_issue_incomplete = 0
rank create_issue_shape_invalid = 1
rank dependencies_unsupported = 2
rank duplicate_create_issue = 3
rank kind_not_write_eligible = 4
rank order_invalid = 5
rank relationship_incomplete = 6
rank relationship_shape_invalid = 7
rank relationship_unplanned = 8
rank unknown_client_ref = 9

unfoldable pub insert_blocker : Blocker → List Blocker → List Blocker
unfolding rank
insert_blocker b [] = b ∷ []
insert_blocker b (c ∷ cs) =
    let rest = insert_blocker b cs in
    if ltb (rank b) (rank c) then b ∷ c ∷ cs else if ltb (rank c) (rank b) then c ∷ rest else c ∷ cs

-- `tuple(sorted(set(blockers)))`
unfoldable pub sorted_set : List Blocker → List Blocker
unfolding insert_blocker
sorted_set [] = []
sorted_set (b ∷ bs) = insert_blocker b (sorted_set bs)

pub record WriteOperationEvaluation : Type 0 where
  pub operations : List WriteOperation
  pub eligible : Bool
  pub blockers : List Blocker

-- `blockers.append(b)` under a test
abbrev pub block_if : Bool → Blocker → List Blocker
block_if c b = if c then b ∷ [] else []

-- `len(refs) != 2 or refs[0] == refs[1]`
unfoldable pub relationship_shape_bad : List String → Bool
relationship_shape_bad (a ∷ b ∷ []) = a == b
relationship_shape_bad _ = true

unfoldable pub kind_blockers : OperationKind → List String → List Blocker
unfolding relationship_shape_bad
kind_blockers create_issue refs = block_if (length refs != 1) create_issue_shape_invalid
kind_blockers add_sub_issue refs = block_if (relationship_shape_bad refs) relationship_shape_invalid
kind_blockers add_dependency refs =
    block_if (relationship_shape_bad refs) relationship_shape_invalid
kind_blockers (unsupported s) refs = kind_not_write_eligible ∷ []

-- The body of the first loop of `evaluate_write_operations`.
unfoldable pub operation_blockers : List String → WriteOperation → List Blocker
unfolding kind_blockers
operation_blockers known_refs op =
    block_if (any (λ ref. not (contains known_refs ref)) op.client_refs) unknown_client_ref
    ++ (block_if (op.depends_on != []) dependencies_unsupported
        ++ kind_blockers op.operation_kind op.client_refs)

-- The items' `client_ref`s; every item is a mapping with a non-empty one.
unfoldable pub client_refs_of : List Value → Option (List String)
unfolding as_dict get nonempty_text
client_refs_of [] = some []
client_refs_of (item ∷ items) = elim (as_dict (some item)) [
  | none ↦ none
  | some fields ↦ elim (nonempty_text (get fields "client_ref")) [
    | none ↦ none
    | some ref ↦ elim (client_refs_of items) [ none ↦ none | some refs ↦ some (ref ∷ refs) ]
  ]
]

unfoldable pub item_refs : List Value → Result (List String)
unfolding client_refs_of
item_refs items = do
  refs ← or_raise (client_refs_of items) write_operation_item_set_invalid
  require (refs != []) write_operation_item_set_invalid
  require (distinct refs) write_operation_item_set_invalid
  ok refs

unfoldable pub read_relationship_kind : Option Value → Option RelationshipKind
unfolding nonempty_text
read_relationship_kind v = elim (nonempty_text v) [
  | none ↦ none
  | some s ↦
      if s == "planned_parent"
      then some planned_parent
      else if s == "planned_dependency"
      then some planned_dependency
      else none
]

-- The body of the loop over `planned`.
unfoldable pub planned_pair : Value → Result PlannedPair
unfolding as_dict get nonempty_text read_relationship_kind is_unhashable has_unhashable hashes
planned_pair relationship = do
  fields ← or_raise (as_dict (some relationship)) write_operation_relationships_invalid
  elim (hashes (get fields "kind")) [ true ↦ ok tt | false ↦ err (raised "TypeError") ]
  kind ← or_raise (read_relationship_kind (get fields "kind")) write_operation_relationships_invalid
  source ←
      or_raise (nonempty_text (get fields "from_client_ref")) write_operation_relationships_invalid
  target ←
      or_raise (nonempty_text (get fields "to_client_ref")) write_operation_relationships_invalid
  ok (record { kind = kind; source = source; target = target })

unfoldable pub planned_each : List Value → Result (List PlannedPair)
unfolding planned_pair
planned_each [] = ok []
planned_each (v ∷ vs) = do pair ← planned_pair v; rest ← planned_each vs; ok (pair ∷ rest)

-- Without the key the default is a tuple, and no list.
unfoldable pub planned_pairs : Fields → Result (List PlannedPair)
unfolding get as_list planned_each
planned_pairs semantic_payload = do
  planned ←
      or_raise (as_list (get semantic_payload "planned_relationships"))
        write_operation_relationships_invalid
  planned_each planned

unfoldable pub create_ref : WriteOperation → List String
create_ref op =
    if op.operation_kind == create_issue && length op.client_refs == 1 then op.client_refs else []

-- `create_refs`
unfoldable pub create_refs : List WriteOperation → List String
unfolding create_ref
create_refs [] = []
create_refs (op ∷ ops) = create_ref op ++ create_refs ops

unfoldable pub pair_of_refs : RelationshipKind → List String → List PlannedPair
pair_of_refs kind (a ∷ b ∷ []) = record { kind = kind; source = a; target = b } ∷ []
pair_of_refs kind _ = []

unfoldable pub operation_pair : OperationKind → List String → List PlannedPair
unfolding pair_of_refs
operation_pair add_sub_issue refs = pair_of_refs planned_parent refs
operation_pair add_dependency refs = pair_of_refs planned_dependency refs
operation_pair _ refs = []

-- `operation_pairs`
unfoldable pub operation_pairs : List WriteOperation → List PlannedPair
unfolding operation_pair
operation_pairs [] = []
operation_pairs (op ∷ ops) = operation_pair op.operation_kind op.client_refs ++ operation_pairs ops

unfoldable pub create_operation : String → WriteOperation
create_operation ref = record {
  operation_kind = create_issue;
  client_refs = ref ∷ [];
  depends_on = [];
}

unfoldable pub relationship_operation_kind : RelationshipKind → OperationKind
relationship_operation_kind planned_parent = add_sub_issue
relationship_operation_kind planned_dependency = add_dependency

unfoldable pub relationship_operation : PlannedPair → WriteOperation
unfolding relationship_operation_kind
relationship_operation pair = record {
  operation_kind = relationship_operation_kind pair.kind;
  client_refs = pair.source ∷ pair.target ∷ [];
  depends_on = [];
}

-- `expected`: the creations in the order of the items, then the planned relationships.
unfoldable pub expected_operations : List String → List PlannedPair → List WriteOperation
unfolding create_operation relationship_operation
expected_operations refs pairs = map create_operation refs ++ map relationship_operation pairs

unfoldable pub loop_blockers : List String → List WriteOperation → List Blocker
unfolding operation_blockers
loop_blockers known_refs [] = []
loop_blockers known_refs (op ∷ ops) =
    operation_blockers known_refs op ++ loop_blockers known_refs ops

-- `blockers` before it is sorted.
unfoldable pub blockers_of : List String → List PlannedPair → List WriteOperation → List Blocker
unfolding loop_blockers create_refs operation_pairs expected_operations
blockers_of refs pairs ops =
    let creates = create_refs ops in
    let stated = operation_pairs ops in
    loop_blockers refs ops
    ++ (block_if (not (distinct creates)) duplicate_create_issue
        ++ (block_if (not (same_set creates refs) || length creates != length refs)
              create_issue_incomplete
            ++ (block_if (any (λ pair. not (contains stated pair)) pairs) relationship_incomplete
                ++ (block_if (any (λ pair. not (contains pairs pair)) stated) relationship_unplanned
                    ++ block_if (ops != expected_operations refs pairs) order_invalid))))

unfoldable pub is_empty : List Blocker → Bool
is_empty [] = true
is_empty (b ∷ bs) = false

unfoldable pub evaluation_of :
    List String → List PlannedPair → List WriteOperation → WriteOperationEvaluation
unfolding blockers_of is_empty sorted_set
evaluation_of refs pairs operations =
    let blockers = blockers_of refs pairs operations in
    record { operations = operations; eligible = is_empty blockers; blockers = sorted_set blockers }

unfoldable pub evaluate_write_operations :
    Value → List Value → Fields → Result WriteOperationEvaluation
evaluate_write_operations operation_intents items semantic_payload = do
  operations ← normalize_write_operations operation_intents
  refs ← item_refs items
  pairs ← planned_pairs semantic_payload
  ok (evaluation_of refs pairs operations)
