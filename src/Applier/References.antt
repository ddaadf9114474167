-- ===== src/Applier/References.antt =====
-- applier.py: which remote issue an operand of a relationship stands for.
use Prim.Native.Char.{code}
use delivery_system.Base.{
  ℕ, ◌+◌, ℕ_eq, String, String_eq, List_eq, List, [], ◌∷◌, not, ◌||◌, Option, none, some, ◌==◌,
  ◌!=◌, get_elem?, if◌then◌else◌,
}
use delivery_system.Errors.{
  value_error, raised, integrity_error, Result, ok, err, ◌>>=◌, ◌>>◌, raise, raise_if, or_raise,
  write_reference_unavailable, write_reference_invalid, repository_identity_invalid,
}
use delivery_system.Value.{Value, integer, pos, Fields, get, as_dict, is_unhashable}
use delivery_system.WriteOperations.{OperationKind, OperationKind_eq, WriteOperation, create_issue}
use delivery_system.Identity.{operation_identity}
use delivery_system.Receipts.{Digests, OperationReceipt}
use delivery_system.Context.{ExecutionContext, context_application_id}
use delivery_system.Store.{Database}
use delivery_system.Store.Read.{get_operation_receipt}
use delivery_system.Applier.Commands.{
  TextLibrary, RemoteIssueReference, RemoteIssueReference_eq, remote_issue_reference,
  normalize_repository_identity,
}
use delivery_system.Applier.Render.{is_text_value}

-- A binding of the sealed preview, whose three texts were checked when it was sealed.
pub record EndpointBinding : Type 0 where
  pub endpoint_ref : String
  pub issue_id : String
  pub remote_record_digest : String

-- What the execution context knows of the sealed preview; `issue_records` is `none` where it holds no
-- snapshot. `revalidate` is what `revalidate_existing_endpoint` comes to.
pub record SealedContent : Type 0 where
  pub repository_identity : String
  pub canonical_items : List Fields
  pub canonical_version : String
  pub bindings : List EndpointBinding
  pub issue_records : Option (List Fields)
  pub revalidate : String → OperationKind → List RemoteIssueReference → Result (Unit {0})

-- `payload[key]`
unfoldable pub at_key : Fields → String → Result Value
at_key payload key = elim (get payload key) [ none ↦ err (raised "KeyError") | some v ↦ ok v ]

-- A key of a dictionary is hashed.
unfoldable pub check_hashable : Value → Result (Unit {0})
unfolding is_unhashable
check_hashable key = if is_unhashable key then err (raised "TypeError") else ok tt

-- `{item["client_ref"]: item for item in canonical_items}.get(ref)`: the last item of a reference.
unfoldable pub item_of : List Fields → String → Result (Option Fields)
unfolding at_key is_text_value check_hashable
item_of [] ref = ok none
item_of (item ∷ items) ref = do
  key ← at_key item "client_ref"
  check_hashable key
  later ← item_of items ref
  ok (elim later [
    | some found ↦ some found
    | none ↦ if is_text_value (some key) ref then some item else none
  ])

-- What follows a prefix of a text.
unfoldable pub after_prefix : String → String → Option String
after_prefix String.[] s = some s
after_prefix (String.◌∷◌ c p) String.[] = none
after_prefix (String.◌∷◌ c p) (String.◌∷◌ d s) =
    let rest = after_prefix p s in if code c == code d then rest else none

-- An operand of a V2 relationship.
pub data OperandReference : Type 0 where
  work_item : String → OperandReference
  existing_issue : String → OperandReference

unfoldable pub resolve_reference : String → Result OperandReference
unfolding after_prefix
resolve_reference ref = elim (after_prefix "work_item:" ref) [
  | some name ↦ ok (work_item name)
  | none ↦ elim (after_prefix "existing_issue:" ref) [
    | some name ↦ ok (existing_issue name)
    | none ↦ raise write_reference_unavailable
  ]
]

unfoldable pub resolve_references : List String → Result (List OperandReference)
unfolding resolve_reference
resolve_references [] = ok []
resolve_references (ref ∷ refs) = do
  resolved ← resolve_reference ref
  rest ← resolve_references refs
  ok (resolved ∷ rest)

-- `[ref for kind, ref in resolved_refs if kind == "existing_issue"]`
unfoldable pub existing_refs : List OperandReference → List String
existing_refs [] = []
existing_refs (work_item name ∷ rest) = existing_refs rest
existing_refs (existing_issue name ∷ rest) = name ∷ existing_refs rest

-- `sequence[index]`; past the end Python raises `IndexError`.
unfoldable pub element_at {ℓ} : {A : Type ℓ} → List A → ℕ → Result A
element_at xs index = elim (get_elem? xs index) [ none ↦ err (raised "IndexError") | some x ↦ ok x ]

-- `next((… for value in records if value.get("issue_id") == issue_id), None)`
unfoldable pub record_of : List Fields → String → Option Fields
unfolding is_text_value
record_of [] issue_id = none
record_of (r ∷ rs) issue_id =
    if is_text_value (get r "issue_id") issue_id then some r else record_of rs issue_id

unfoldable pub binding_of : List EndpointBinding → String → Option EndpointBinding
binding_of [] ref = none
binding_of (b ∷ bs) ref = if b.endpoint_ref == ref then some b else binding_of bs ref

-- `except (KeyError, TypeError, ValueError): raise ValueError("write_reference_unavailable")`
unfoldable pub unavailable {ℓ} : {A : Type ℓ} → Result A → Result A
unavailable (ok a) = ok a
unavailable (err (value_error code)) = raise write_reference_unavailable
unavailable (err (raised name)) =
    if name == "KeyError" || name == "TypeError"
    then raise write_reference_unavailable
    else err (raised name)
unavailable (err integrity_error) = err integrity_error

module _ (digests : Digests) (texts : TextLibrary) (context : ExecutionContext)
    (content : SealedContent) where
  -- `RemoteIssueReference(…)` of JSON values
  unfoldable pub reference_of_values : Value → Value → Value → Value → Result RemoteIssueReference
  reference_of_values (Value.text repository) (integer (pos number)) (Value.text id)
        (Value.text node) =
      remote_issue_reference texts repository number id node
  reference_of_values (Value.text repository) number id node = do
    normalized ← normalize_repository_identity texts repository
    raise write_reference_invalid
  reference_of_values repository number id node = raise repository_identity_invalid

  -- What the receipt of a creation refers to; a receipt of another kind or repository is no reference.
  unfoldable pub reference_of_receipt : OperationReceipt → Result RemoteIssueReference
  unfolding reference_of_values at_key is_text_value
  reference_of_receipt receipt = do
    payload ← elim (as_dict (some receipt.remote_result.result_payload)) [
      | none ↦ err (raised "TypeError")
      | some fields ↦ ok fields
    ]
    raise_if
        (receipt.remote_result.result_kind != "github.create_issue.v1"
          || not (is_text_value (get payload "repository_identity") content.repository_identity))
        write_reference_unavailable
    repository ← at_key payload "repository_identity"
    number ← at_key payload "issue_number"
    id ← at_key payload "numeric_issue_id"
    node ← at_key payload "node_id"
    reference_of_values repository number id node

  unfoldable pub stored_reference : ℕ → WriteOperation → Database → Result RemoteIssueReference
  unfolding reference_of_receipt context_application_id
  stored_reference index operation db = do
    let id = context_application_id digests context
    receipt ←
        get_operation_receipt digests context.identity.workspace_identity id
          (operation_identity digests.states.identities id index operation) db
    reference_of_receipt receipt

  -- The loop of `_reference_from_receipt`, from an index on.
  unfoldable pub reference_from_receipt :
      ℕ → List WriteOperation → String → Database → Result RemoteIssueReference
  unfolding stored_reference
  reference_from_receipt index [] client_ref db = raise write_reference_unavailable
  reference_from_receipt index (operation ∷ operations) client_ref db =
      let rest = reference_from_receipt (index + 1) operations client_ref db in
      if operation.operation_kind != create_issue || operation.client_refs != client_ref ∷ []
      then rest
      else stored_reference index operation db

  -- `_reference_from_existing_binding(…, revalidate=False)`
  unfoldable pub reference_from_existing_binding : String → Result RemoteIssueReference
  unfolding binding_of record_of is_text_value unavailable reference_of_values at_key
  reference_from_existing_binding endpoint_ref = do
    raise_if (content.canonical_version != "2") write_reference_unavailable
    binding ← or_raise (binding_of content.bindings endpoint_ref) write_reference_unavailable
    records ← or_raise content.issue_records write_reference_unavailable
    found ← or_raise (record_of records binding.issue_id) write_reference_unavailable
    raise_if (digests.result_payload_digest (Value.dict found) != binding.remote_record_digest)
        write_reference_unavailable
    raise_if
        (not (is_text_value (get found "repository_identity") content.repository_identity)
          || not (is_text_value (get found "item_type") "issue"))
        write_reference_unavailable
    unavailable (do
      number ← at_key found "issue_number"
      id ← at_key found "numeric_issue_id"
      node ← at_key found "issue_id"
      reference_of_values (Value.text content.repository_identity) number
          (Value.text (texts.str id)) node)
