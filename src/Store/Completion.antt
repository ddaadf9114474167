-- ===== src/Store/Completion.antt =====
-- How execution_store.py completes an operation.
use delivery_system.Base.{
  sym, ap, ◌∙◌, ℕ_eq, ◌+◌, String, String_eq, [], ◌∷◌, ◌++◌, none, some, ◌≡◌,
}
use delivery_system.Errors.{ok}
use delivery_system.Execution.{applying, partially_applied, ApplicationExecution, with_state_digest}
use delivery_system.Receipts.{Digests, OperationReceipt, with_receipt_digest}
use delivery_system.Context.{ExecutionContext, Currentness, continued, unchanged}
use delivery_system.Table.{OperationKey_eq, loads, lookup, insert-eq-ok}
use delivery_system.Store.{Database, Caller, Clock, Live}
use delivery_system.Store.Outcome.{complete_operation_success}
use delivery_system.Store.Outcome.Facts.{attempt_key, complete_operation_success-eq-ok}
use delivery_system.Store.Exclusion.{lookup-update-same}
use delivery_system.Store.Run.{lookup-head}

module _ (digests : Digests) (clock : Clock) (caller : Caller) (context : ExecutionContext) where
  -- A completion that advances the application by one operation.
  pub record Advances (application_id owner_id : String) (receipt : OperationReceipt)
      (db : Database) (state : ApplicationExecution) (db' : Database) : Type 0 where
    pub previous : ApplicationExecution
    pub found : lookup application_id db.application_execution ≡ some (loads previous)
    pub was_applying : previous.state ≡ applying
    pub was_owned : previous.owner_id ≡ some owner_id
    pub state_after : state.state ≡ partially_applied
    pub index : state.next_operation_index ≡ previous.next_operation_index + 1
    pub receipts :
        state.operation_receipt_refs
        ≡ previous.operation_receipt_refs ++ receipt.operation_receipt_id ∷ []
    pub released : state.owner_id ≡ none
    pub no_attempt : state.current_attempt_id ≡ none
    pub state_stored : lookup application_id db'.application_execution ≡ some (loads state)
    pub no_receipt :
        lookup (attempt_key application_id receipt.operation_identity) db.operation_receipts ≡ none
    pub receipt_stored :
        lookup (attempt_key application_id receipt.operation_identity) db'.operation_receipts
        ≡ some (loads (with_receipt_digest digests receipt))

  -- A completion that returns found the application applying and owned by the given owner; it advances
  -- the index by one, adds the receipt at the end of the references, releases the application and
  -- stores the record and the receipt, of which the tables had none.
  pub complete_operation_success-Advances :
      (current : Currentness)
      (application_id state_digest attempt_id attempt_digest owner_id : String)
      (live : Live OperationReceipt) (now : String) (db : Database) (state : ApplicationExecution)
      (db' : Database)
      → complete_operation_success digests clock caller context current application_id state_digest
          attempt_id attempt_digest owner_id live now db
        ≡ ok (state, db')
      → Advances application_id owner_id live.artifact db state db'
  unfolding continued unchanged with_state_digest
  complete_operation_success-Advances current application_id state_digest attempt_id attempt_digest
        owner_id live now db state db' h =
      let facts =
        complete_operation_success-eq-ok digests clock caller context current application_id
          state_digest attempt_id attempt_digest owner_id live now db state db' h in
      let key = attempt_key application_id live.artifact.operation_identity in
      let stored = with_receipt_digest digests live.artifact in
      let (absent, added) =
        insert-eq-ok key stored db.operation_receipts facts.receipts facts.inserted in
      let built : state
          ≡ with_state_digest digests.states (continued digests context facts.previous _) =
        facts.state_eq ∙ ap (with_state_digest digests.states) facts.continues.built in
      record {
        previous = facts.previous;
        found = facts.held.found;
        was_applying = facts.held.is_applying;
        was_owned = facts.held.held;
        state_after = ap (λ (s : ApplicationExecution). s.state) built;
        index = ap (λ (s : ApplicationExecution). s.next_operation_index) built;
        receipts = ap (λ (s : ApplicationExecution). s.operation_receipt_refs) built;
        released = ap (λ (s : ApplicationExecution). s.owner_id) built;
        no_attempt = ap (λ (s : ApplicationExecution). s.current_attempt_id) built;
        state_stored =
            ap (λ (d : Database). lookup application_id d.application_execution) facts.written
            ∙ (lookup-update-same application_id (with_state_digest digests.states facts.candidate)
                  (loads facts.previous) db.application_execution facts.held.found
                ∙ ap (λ s. some (loads s)) (sym facts.state_eq));
        no_receipt = absent;
        receipt_stored =
            ap (λ (d : Database). lookup key d.operation_receipts) facts.written
            ∙ (ap (lookup key) added ∙ lookup-head key stored db.operation_receipts);
      }
