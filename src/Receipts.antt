-- ===== src/Receipts.antt =====
-- receipts.py: the evidence of one completed operation and of a completed application.
use delivery_system.Base.{
  ℕ, ◌+◌, ℕ_eq, String, String_eq, List_eq, Eq, List, [], ◌∷◌, Bool, true, false, not, ◌&&◌, ◌||◌,
  any, distinct, ◌==◌, ◌!=◌, length, String-discrete,
}
use delivery_system.Errors.{
  Result, ◌>>◌, raise_if, remote_result_invalid, operation_receipt_invalid,
  operation_receipt_binding_invalid, application_receipt_invalid,
  application_receipt_binding_invalid,
}
use delivery_system.Value.{Value}
use delivery_system.WriteOperations.{WriteOperation, WriteOperation_eq}
use delivery_system.Identity
use delivery_system.Identity.{
  ApplicationIdentity, AuthorityProvenance, IdentityDigests, operation_identity, request_identity,
  operation_receipt_id, application_receipt_id,
}
use delivery_system.Execution.{StateDigests, Status, applied, Status_eq}

pub record RemoteResult : Type 0 where
  pub result_kind : String
  pub result_identity : String
  pub result_digest : String
  pub result_payload : Value

pub record OperationReceipt : Type 0 where
  pub operation_receipt_id : String
  pub application_id : String
  pub identity : ApplicationIdentity
  pub operation_identity : String
  pub operation_index : ℕ
  pub canonical_operation : WriteOperation
  pub request_identity : String
  pub authority_binding : AuthorityProvenance
  pub remote_result : RemoteResult
  pub started_at : String
  pub completed_at : String
  pub receipt_digest : String

pub record ReceiptRef : Type 0 where
  pub operation_receipt_id : String
  pub operation_receipt_digest : String

unfoldable pub ReceiptRef-discrete : Discrete ReceiptRef
ReceiptRef-discrete = hlevel String-discrete

instance unfoldable pub ReceiptRef_eq : Eq ReceiptRef
ReceiptRef_eq = record { dec = ReceiptRef-discrete }

pub record ApplicationReceipt : Type 0 where
  pub application_receipt_id : String
  pub application_id : String
  pub identity : ApplicationIdentity
  pub operation_set_digest : String
  pub operation_receipt_refs : List ReceiptRef
  pub status : Status
  pub started_at : String
  pub completed_at : String
  pub receipt_digest : String

-- `canonical.digest` of the payloads of all execution records.
pub record Digests : Type 0 where
  pub states : StateDigests
  pub receipt_payload_digest : OperationReceipt → String
  pub application_receipt_payload_digest : ApplicationReceipt → String
  pub result_payload_digest : Value → String

module _ (digests : Digests) where
  abbrev identities : IdentityDigests
  identities = digests.states.identities

  -- `_remote_result`
  unfoldable pub check_remote_result : RemoteResult → Result (Unit {0})
  check_remote_result r = do
    raise_if (r.result_kind == "" || (r.result_identity == "" || r.result_digest == ""))
        remote_result_invalid
    raise_if (r.result_digest != digests.result_payload_digest r.result_payload)
        remote_result_invalid

  -- `OperationReceipt.__post_init__`
  unfoldable pub check_receipt : OperationReceipt → Result (Unit {0})
  unfolding check_remote_result
  check_receipt r = do
    check_remote_result r.remote_result
    let owner = Identity.application_id identities r.identity
    raise_if
        (r.application_id != owner
          || (r.authority_binding.application_id != owner
              || r.operation_identity
                != operation_identity identities r.application_id r.operation_index
                    r.canonical_operation))
        operation_receipt_binding_invalid
    raise_if (r.request_identity != request_identity identities r.operation_identity)
        operation_receipt_binding_invalid
    raise_if (r.operation_receipt_id != operation_receipt_id identities r.operation_identity)
        operation_receipt_invalid
    raise_if (r.started_at == "" || r.completed_at == "") operation_receipt_invalid

  unfoldable pub receipt_payload : OperationReceipt → OperationReceipt
  receipt_payload r = record r { receipt_digest = "" }

  unfoldable pub with_receipt_digest : OperationReceipt → OperationReceipt
  unfolding receipt_payload
  with_receipt_digest r = record r {
    receipt_digest = digests.receipt_payload_digest (receipt_payload r);
  }

  unfoldable pub verify_receipt : OperationReceipt → Bool
  unfolding receipt_payload
  verify_receipt r =
      r.receipt_digest != ""
      && r.receipt_digest == digests.receipt_payload_digest (receipt_payload r)

  -- `ApplicationReceipt.__post_init__`
  unfoldable pub check_application_receipt : ApplicationReceipt → Result (Unit {0})
  check_application_receipt r = do
    raise_if
        (r.application_id != Identity.application_id identities r.identity
          || r.operation_set_digest == "")
        application_receipt_binding_invalid
    raise_if
        (r.application_receipt_id != application_receipt_id identities r.application_id
          || (r.status != applied || r.operation_receipt_refs == []))
        application_receipt_invalid
    raise_if (not (distinct r.operation_receipt_refs)) application_receipt_invalid
    raise_if
        (any (λ ref. ref.operation_receipt_id == "" || ref.operation_receipt_digest == "")
          r.operation_receipt_refs)
        application_receipt_invalid

  unfoldable pub application_receipt_payload : ApplicationReceipt → ApplicationReceipt
  application_receipt_payload r = record r { receipt_digest = "" }

  unfoldable pub with_application_receipt_digest : ApplicationReceipt → ApplicationReceipt
  unfolding application_receipt_payload
  with_application_receipt_digest r = record r {
    receipt_digest = digests.application_receipt_payload_digest (application_receipt_payload r);
  }

  unfoldable pub verify_application_receipt : ApplicationReceipt → Bool
  unfolding application_receipt_payload
  verify_application_receipt r =
      r.status == applied
      && (r.receipt_digest != ""
          && r.receipt_digest
            == digests.application_receipt_payload_digest (application_receipt_payload r))

  -- The loop of `validate_against`, over the three sequences at once.
  unfoldable pub receipts_match :
      String → ℕ → List WriteOperation → List OperationReceipt → List ReceiptRef → Bool
  unfolding verify_receipt
  receipts_match app index (op ∷ ops) (r ∷ rs) (ref ∷ refs) =
      verify_receipt r
      && (r.application_id == app
          && (r.operation_index == index
              && (r.operation_identity == operation_identity identities app index op
                  && (r.canonical_operation == op
                      && (r.operation_receipt_id == ref.operation_receipt_id
                          && (r.receipt_digest == ref.operation_receipt_digest
                              && receipts_match app (index + 1) ops rs refs))))))
  receipts_match app index [] [] [] = true
  receipts_match app index _ _ _ = false

  -- `ApplicationReceipt.validate_against`
  unfoldable pub validate_against :
      ApplicationReceipt → List WriteOperation → List OperationReceipt → Bool
  unfolding receipts_match
  validate_against receipt operations actual =
      receipt.operation_set_digest == receipt.identity.operation_set_digest
      && (length operations == length actual
          && (length actual == length receipt.operation_receipt_refs
              && receipts_match receipt.application_id 0 operations actual
                  receipt.operation_receipt_refs))
