-- ===== src/Store/Read/Stored.antt =====
-- What a completion stores is what a later read returns.
use delivery_system.Base.{String, String_eq, ◌≡◌, refl, true, false, ◌!=◌, ◌≢◌, arith, some}
use delivery_system.Errors.{ok}
use delivery_system.Execution.{ApplicationExecution}
use delivery_system.Receipts.{
  Digests, OperationReceipt, with_receipt_digest, receipt_payload, verify_receipt,
}
use delivery_system.Context.{ExecutionContext, Currentness}
use delivery_system.Table.{OperationKey_eq, loads, lookup, read_row}
use delivery_system.Store.{Database, Caller, Clock, Live}
use delivery_system.Store.Outcome.{complete_operation_success}
use delivery_system.Store.Outcome.Facts.{attempt_key, complete_operation_success-eq-ok}
use delivery_system.Store.Completion.{complete_operation_success-Advances}
use delivery_system.Store.Read.{get_operation_receipt, recode}

read_stored :
    (digests : Digests) (workspace_identity application_id operation_id : String) (db : Database)
    (receipt : OperationReceipt)
    → lookup (attempt_key application_id operation_id) db.operation_receipts ≡ some (loads receipt)
    → (receipt.application_id != application_id) ≡ false
    → (receipt.operation_identity != operation_id) ≡ false
    → (receipt.identity.workspace_identity != workspace_identity) ≡ false
    → verify_receipt digests receipt ≡ true
    → get_operation_receipt digests workspace_identity application_id operation_id db ≡ ok receipt
unfolding get_operation_receipt recode read_row
read_stored digests workspace_identity application_id operation_id db receipt found a o w v =
    rw found (rw a (rw o (rw w (rw v refl))))

!=-of : (x y : String) → x ≡ y → (x != y) ≡ false
!=-of x y h = ground arith

sealed :
    (digests : Digests) (receipt : OperationReceipt)
    → digests.receipt_payload_digest (receipt_payload digests receipt) ≢ ""
    → verify_receipt digests (with_receipt_digest digests receipt) ≡ true
unfolding verify_receipt with_receipt_digest receipt_payload
sealed digests receipt nonempty = ground arith

-- After a completion that returns, a read of the operation's receipt returns the receipt that was
-- completed with its digest, where the receipt is of the store's workspace and its digest is not empty.
pub complete-get_operation_receipt :
    (digests : Digests) (clock : Clock) (caller : Caller) (context : ExecutionContext)
    (workspace_identity : String) (current : Currentness)
    (application_id state_digest attempt_id attempt_digest owner_id : String)
    (live : Live OperationReceipt) (now : String) (db : Database) (state : ApplicationExecution)
    (db' : Database)
    → live.artifact.identity.workspace_identity ≡ workspace_identity
    → digests.receipt_payload_digest (receipt_payload digests live.artifact) ≢ ""
    → complete_operation_success digests clock caller context current application_id state_digest
        attempt_id attempt_digest owner_id live now db
      ≡ ok (state, db')
    → get_operation_receipt digests workspace_identity application_id
        live.artifact.operation_identity db'
      ≡ ok (with_receipt_digest digests live.artifact)
unfolding with_receipt_digest
complete-get_operation_receipt digests clock caller context workspace_identity current
      application_id state_digest attempt_id attempt_digest owner_id live now db state db' here
      nonempty h =
    let facts =
      complete_operation_success-eq-ok digests clock caller context current application_id
        state_digest attempt_id attempt_digest owner_id live now db state db' h in
    let advances =
      complete_operation_success-Advances digests clock caller context current application_id
        state_digest attempt_id attempt_digest owner_id live now db state db' h in
    let receipt = live.artifact in
    read_stored digests workspace_identity application_id receipt.operation_identity db'
      (with_receipt_digest digests receipt) advances.receipt_stored
      (!=-of receipt.application_id application_id facts.receipt_application)
      (!=-of receipt.operation_identity receipt.operation_identity refl)
      (!=-of receipt.identity.workspace_identity workspace_identity here)
      (sealed digests receipt nonempty)
