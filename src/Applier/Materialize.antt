-- ===== src/Applier/Materialize.antt =====
-- `_materialize` of applier.py: the command of a claimed operation. A normalized operation has the keys
-- `operation_kind`, `client_refs` and `depends_on` only, so the branch on `operands` or `endpoint` is
-- not taken.
use delivery_system.Base.{
  ℕ_eq, String, String_eq, List_eq, List, [], ◌∷◌, none, some, ◌==◌, if◌then◌else◌,
}
use delivery_system.Errors.{
  raised, Result, ok, err, ◌>>=◌, ◌>>◌, raise, raise_if, or_raise, write_reference_unavailable,
  write_operation_kind_invalid,
}
use delivery_system.WriteOperations.{
  OperationKind, OperationKind_eq, create_issue, add_sub_issue, add_dependency, unsupported,
}
use delivery_system.Execution.{OperationAttempt}
use delivery_system.Receipts.{Digests}
use delivery_system.Context.{ExecutionContext}
use delivery_system.Store.{Database}
use delivery_system.Applier.Commands.{
  TextLibrary, RemoteIssueReference, RemoteIssueReference_eq, Command, create_issue_command,
  relationship_command,
}
use delivery_system.Applier.Render.{render_create_issue}
use delivery_system.Applier.References.{
  SealedContent, item_of, OperandReference, resolve_references, existing_refs, element_at,
  reference_from_receipt, reference_from_existing_binding, work_item, existing_issue,
}

module _ (digests : Digests) (texts : TextLibrary) (context : ExecutionContext)
    (content : SealedContent) where
  -- `any(ref not in items for ref in refs)`
  unfoldable pub check_items : List String → Result (Unit {0})
  unfolding item_of
  check_items [] = ok tt
  check_items (ref ∷ refs) = do
    item ← item_of content.canonical_items ref
    found ← or_raise item write_reference_unavailable
    check_items refs

  unfoldable pub receipt_references : List String → Database → Result (List RemoteIssueReference)
  unfolding reference_from_receipt
  receipt_references [] db = ok []
  receipt_references (ref ∷ refs) db = do
    reference ←
        reference_from_receipt digests texts context content 0 context.expected_operations ref db
    rest ← receipt_references refs db
    ok (reference ∷ rest)

  unfoldable pub reference_of_operand : OperandReference → Database → Result RemoteIssueReference
  unfolding reference_from_receipt reference_from_existing_binding
  reference_of_operand (work_item ref) db =
      reference_from_receipt digests texts context content 0 context.expected_operations ref db
  reference_of_operand (existing_issue ref) db =
      reference_from_existing_binding digests texts context content ref

  unfoldable pub operand_references :
      List OperandReference → Database → Result (List RemoteIssueReference)
  unfolding reference_of_operand
  operand_references [] db = ok []
  operand_references (operand ∷ operands) db = do
    reference ← reference_of_operand operand db
    rest ← operand_references operands db
    ok (reference ∷ rest)

  unfoldable pub revalidate_each :
      List String → OperationKind → List RemoteIssueReference → Result (Unit {0})
  revalidate_each [] kind references = ok tt
  revalidate_each (ref ∷ refs) kind references = do
    content.revalidate ref kind references
    revalidate_each refs kind references

  unfoldable pub materialize_creation : OperationAttempt → Result Command
  unfolding item_of element_at
  materialize_creation attempt = do
    built ← item_of content.canonical_items ""
    ref ← element_at attempt.operation.client_refs 0
    item ← item_of content.canonical_items ref
    fields ← elim item [ none ↦ err (raised "KeyError") | some found ↦ ok found ]
    (title, body) ← render_create_issue texts fields
    create_issue_command texts content.repository_identity ref title body attempt.request_identity

  unfoldable pub materialize_relationship_v1 : OperationAttempt → Database → Result Command
  unfolding check_items receipt_references element_at
  materialize_relationship_v1 attempt db = do
    check_items attempt.operation.client_refs
    references ← receipt_references attempt.operation.client_refs db
    first ← element_at references 0
    second ← element_at references 1
    relationship_command texts content.repository_identity first second

  unfoldable pub materialize_relationship_v2 : OperationAttempt → Database → Result Command
  unfolding resolve_references operand_references element_at revalidate_each existing_refs
  materialize_relationship_v2 attempt db = do
    operands ← resolve_references attempt.operation.client_refs
    references ← operand_references operands db
    first ← element_at references 0
    second ← element_at references 1
    raise_if (first == second) write_reference_unavailable
    revalidate_each (existing_refs operands) attempt.operation.operation_kind references
    relationship_command texts content.repository_identity first second

  unfoldable pub materialize_relationship : OperationAttempt → Database → Result Command
  unfolding materialize_relationship_v1 materialize_relationship_v2
  materialize_relationship attempt db = do
    built ← item_of content.canonical_items ""
    if content.canonical_version == "2"
        then materialize_relationship_v2 attempt db
        else materialize_relationship_v1 attempt db

  -- `_materialize`
  unfoldable pub materialize : OperationAttempt → Database → Result Command
  unfolding materialize_creation materialize_relationship
  materialize attempt db = elim attempt.operation.operation_kind [
    | create_issue ↦ materialize_creation attempt
    | add_sub_issue ↦ materialize_relationship attempt db
    | add_dependency ↦ materialize_relationship attempt db
    | unsupported kind ↦ raise write_operation_kind_invalid
  ]
