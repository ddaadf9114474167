-- ===== src/Store/Finalization.antt =====
-- How execution_store.py finishes an application on the receipts of its operations.
use delivery_system.Base.{
  sym, ap, ◌∙◌, ℕ, ℕ_eq, ◌+◌, String, String_eq, List, [], ◌∷◌, none, some, true, ◌≡◌, length, map,
  ||-eq-false, not-eq-false, !=-eq-false, not, ◌||◌, ◌!=◌,
}
use delivery_system.Errors.{
  Result, ok, >>=-eq-ok, raise_if-then-eq-ok, or_raise, or_raise-eq-ok, ok-injective,
  application_receipt_incomplete, application_receipt_integrity_invalid,
}
use delivery_system.WriteOperations.{WriteOperation}
use delivery_system.Identity.{operation_identity}
use delivery_system.Execution.{partially_applied, applied, ApplicationExecution, with_state_digest}
use delivery_system.Receipts.{
  Digests, OperationReceipt, ApplicationReceipt, verify_receipt, with_application_receipt_digest,
  check_application_receipt, ReceiptRef,
}
use delivery_system.Context.{ExecutionContext, Currentness, continued, new_application_receipt}
use delivery_system.Table.{OperationKey_eq, loads, lookup, insert-eq-ok, read_row, read_row-eq-ok}
use delivery_system.Store.{Database, Caller, Clock, execution_timestamp, require_clock_not_before}
use delivery_system.Store.Outcome.Facts.{attempt_key}
use delivery_system.Store.Finalize.{
  collect_receipt, collect_receipts, receipt_ref, finalize_application,
}
use delivery_system.Store.Finalize.Facts.{finalize_application-eq-ok}
use delivery_system.Store.Exclusion.{lookup-update-same}
use delivery_system.Store.Run.{lookup-head}

module _ (digests : Digests) (clock : Clock) (caller : Caller) (context : ExecutionContext) where
  -- The receipts that finalization collects: for each operation in order, the intact row of its
  -- identity, at its index.
  pub data Collected (application_id : String) (db : Database)
      : ℕ → List WriteOperation → List OperationReceipt → Type 0 where
    none_left : {index : ℕ} → Collected application_id db index [] []
    next_one :
        {index : ℕ} {operation : WriteOperation} {operations : List WriteOperation}
        {receipt : OperationReceipt} {receipts : List OperationReceipt}
        → lookup
            (attempt_key application_id
              (operation_identity digests.states.identities application_id index operation))
            db.operation_receipts
          ≡ some (loads receipt)
        → verify_receipt digests receipt ≡ true
        → receipt.operation_index ≡ index
        → Collected application_id db (index + 1) operations receipts
        → Collected application_id db index (operation ∷ operations) (receipt ∷ receipts)

  collect_receipt-eq-ok :
      (application_id now : String) (index : ℕ) (operation : WriteOperation) (db : Database)
      (receipt : OperationReceipt)
      → collect_receipt digests clock caller context application_id now index operation db
        ≡ ok receipt
      → (lookup
            (attempt_key application_id
              (operation_identity digests.states.identities application_id index operation))
            db.operation_receipts
          ≡ some (loads receipt))
        × (verify_receipt digests receipt ≡ true)
        × (receipt.operation_index ≡ index)
  unfolding collect_receipt
  collect_receipt-eq-ok application_id now index operation db receipt h =
      let id = operation_identity digests.states.identities application_id index operation in
      let (row, at_row, h1) =
        >>=-eq-ok
          (or_raise (lookup (attempt_key application_id id) db.operation_receipts)
            application_receipt_incomplete)
          _ h in
      let (r, reads, h2) = >>=-eq-ok (read_row row) _ h1 in
      let (f1, h3) =
        raise_if-then-eq-ok (not (verify_receipt digests r) || r.operation_index != index)
          application_receipt_integrity_invalid _ h2 in
      let (t1, e1, h4) = >>=-eq-ok (execution_timestamp clock r.started_at) _ h3 in
      let (t2, e2, h5) = >>=-eq-ok (execution_timestamp clock r.completed_at) _ h4 in
      let (u, e3, h6) = >>=-eq-ok (require_clock_not_before clock now (r.completed_at ∷ [])) _ h5 in
      let same : r ≡ receipt = ok-injective _ _ h6 in
      let (g1, g2) = ||-eq-false _ _ f1 in
      (
        or_raise-eq-ok _ _ at_row ∙ ap some (read_row-eq-ok row reads ∙ ap loads same),
        ap (verify_receipt digests) (sym same) ∙ not-eq-false _ g1,
        ap (λ (x : OperationReceipt). x.operation_index) (sym same)
            ∙ !=-eq-false r.operation_index _ g2,
      )

  collect_receipts-Collected :
      (application_id now : String) (index : ℕ) (operations : List WriteOperation) (db : Database)
      (receipts : List OperationReceipt)
      → collect_receipts digests clock caller context application_id now index operations db
        ≡ ok receipts
      → Collected application_id db index operations receipts
  unfolding collect_receipts
  collect_receipts-Collected application_id now index [] db receipts h =
      rw (sym (ok-injective [] receipts h)) none_left
  collect_receipts-Collected application_id now index (operation ∷ operations) db receipts h =
      let (r, one, h1) =
        >>=-eq-ok
          (collect_receipt digests clock caller context application_id now index operation db) _
          h in
      let (rs, others, h2) =
        >>=-eq-ok
          (collect_receipts digests clock caller context application_id now (index + 1) operations
            db)
          _ h1 in
      let (found, intact, at_index) =
        collect_receipt-eq-ok application_id now index operation db r one in
      let rest =
        collect_receipts-Collected application_id now (index + 1) operations db rs others in
      let all_of : Collected application_id db index (operation ∷ operations) (r ∷ rs) =
        next_one found intact at_index rest in
      rw (sym (ok-injective (r ∷ rs) receipts h2)) all_of

  new_application_receipt-refs :
      (current : Result (Unit {0})) (refs : List ReceiptRef) (now : String)
      (receipt : ApplicationReceipt)
      → new_application_receipt digests context current refs now ≡ ok receipt
      → (receipt.operation_receipt_refs ≡ refs) × (receipt.status ≡ applied)
  unfolding new_application_receipt with_application_receipt_digest
  new_application_receipt-refs current refs now receipt h =
      let (u, e, h1) = >>=-eq-ok current _ h in
      let (v, checked, h2) = >>=-eq-ok (check_application_receipt digests _) _ h1 in
      let same = ok-injective _ _ h2 in
      (
        ap (λ (r : ApplicationReceipt). r.operation_receipt_refs) (sym same),
        ap (λ (r : ApplicationReceipt). r.status) (sym same),
      )

  -- A finalization that finishes the application on the receipts of all its operations.
  pub record Finishes (application_id now : String) (db : Database) (state : ApplicationExecution)
      (db' : Database) : Type 0 where
    pub previous : ApplicationExecution
    pub found : lookup application_id db.application_execution ≡ some (loads previous)
    pub was_partly_applied : previous.state ≡ partially_applied
    pub all_done : previous.next_operation_index ≡ length context.expected_operations
    pub receipts : List OperationReceipt
    pub collected : Collected application_id db 0 context.expected_operations receipts
    pub state_after : state.state ≡ applied
    pub completed : state.completed_at ≡ some now
    pub state_stored : lookup application_id db'.application_execution ≡ some (loads state)
    pub receipt : ApplicationReceipt
    pub status : receipt.status ≡ applied
    pub refs : receipt.operation_receipt_refs ≡ map receipt_ref receipts
    pub no_receipt : lookup application_id db.application_receipts ≡ none
    pub receipt_stored : lookup application_id db'.application_receipts ≡ some (loads receipt)

  -- A finalization that returns found the application partly applied with every expected operation
  -- done; it collects, for each operation in order, the intact stored receipt of its identity and
  -- index, stores an application receipt that refers to exactly these in that order, where there was
  -- none, and stores the record as applied and completed at the given time.
  pub finalize_application-Finishes :
      (current : Currentness) (application_id state_digest now : String) (db : Database)
      (state : ApplicationExecution) (db' : Database)
      → finalize_application digests clock caller context current application_id state_digest now db
        ≡ ok (state, db')
      → Finishes application_id now db state db'
  unfolding continued with_state_digest
  finalize_application-Finishes current application_id state_digest now db state db' h =
      let facts =
        finalize_application-eq-ok digests clock caller context current application_id state_digest
          now db state db' h in
      let (absent, added) =
        insert-eq-ok application_id facts.receipt db.application_receipts facts.application_receipts
          facts.inserted in
      let (refs, status) =
        new_application_receipt-refs facts.current (map receipt_ref facts.stored) now facts.receipt
          facts.receipt_made in
      let built : state
          ≡ with_state_digest digests.states (continued digests context facts.previous _) =
        facts.state_eq ∙ ap (with_state_digest digests.states) facts.continues.built in
      record {
        previous = facts.previous;
        found = facts.found;
        was_partly_applied = facts.partly;
        all_done = facts.complete;
        receipts = facts.stored;
        collected =
            collect_receipts-Collected application_id now 0 context.expected_operations db
              facts.stored facts.collected;
        state_after = ap (λ (s : ApplicationExecution). s.state) built;
        completed = ap (λ (s : ApplicationExecution). s.completed_at) built;
        state_stored =
            ap (λ (d : Database). lookup application_id d.application_execution) facts.written
            ∙ (lookup-update-same application_id (with_state_digest digests.states facts.candidate)
                  (loads facts.previous) db.application_execution facts.found
                ∙ ap (λ s. some (loads s)) (sym facts.state_eq));
        receipt = facts.receipt;
        status = status;
        refs = refs;
        no_receipt = absent;
        receipt_stored =
            ap (λ (d : Database). lookup application_id d.application_receipts) facts.written
            ∙ (ap (lookup application_id) added
                ∙ lookup-head application_id facts.receipt db.application_receipts);
      }
