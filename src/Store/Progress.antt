-- ===== src/Store/Progress.antt =====
-- How execution_store.py takes an application from its first operation to its receipt.
use delivery_system.Base.{sym, ap, ◌∙◌, ℕ_eq, String, String_eq, none, some, ◌≡◌, get_elem?}
use delivery_system.WriteOperations.{WriteOperation}
use delivery_system.Execution.{
  applying, ApplicationExecution, OperationAttempt, with_state_digest, with_attempt_digest,
}
use delivery_system.Receipts.{Digests}
use delivery_system.Context.{ExecutionContext, continued, unchanged, first_attempt}
use delivery_system.Table.{OperationKey_eq, loads, lookup}
use delivery_system.Store.{Database, Caller, Clock}
use delivery_system.Store.Claim.Facts.{claim_next_operation-eq-ok}
use delivery_system.Store.Exclusion.{Claims, lookup-update-same}
use delivery_system.Store.Run.{key_of, claim-new_row}

module _ (digests : Digests) (clock : Clock) (caller : Caller) (context : ExecutionContext) where
  -- A claim that takes the operation at the index that the application has reached.
  pub record TakesNext (application_id : String) (db db' : Database)
      (c : Claims digests clock caller context application_id db db') : Type 0 where
    pub previous : ApplicationExecution
    pub operation : WriteOperation
    pub found : lookup application_id db.application_execution ≡ some (loads previous)
    pub fresh : previous.state_digest ≡ c.digest
    pub next : get_elem? context.expected_operations previous.next_operation_index ≡ some operation
    pub taken : c.attempt.operation ≡ operation
    pub taken_at : c.attempt.operation_index ≡ previous.next_operation_index
    pub attempt_state : c.attempt.state ≡ applying
    pub state : c.state.state ≡ applying
    pub owned : c.state.owner_id ≡ some c.owner_id
    pub current_attempt : c.state.current_attempt_id ≡ some c.attempt.operation_identity
    pub index : c.state.next_operation_index ≡ previous.next_operation_index
    pub receipts : c.state.operation_receipt_refs ≡ previous.operation_receipt_refs
    pub no_attempt : lookup (key_of digests clock c.attempt) db.operation_attempts ≡ none
    pub state_stored : lookup application_id db'.application_execution ≡ some (loads c.state)
    pub attempt_stored :
        lookup (key_of digests clock c.attempt) db'.operation_attempts ≡ some (loads c.attempt)

  -- A claim that returns takes the expected operation at the index that the stored record, of the
  -- digest that the caller gave, has reached; there was no attempt at it, and the tables now hold the
  -- returned attempt and the returned record, which is applying under the given owner with that
  -- attempt as its current one, at the same index and with the same receipts.
  pub claim-TakesNext :
      (application_id : String) (db db' : Database)
      (c : Claims digests clock caller context application_id db db')
      → TakesNext application_id db db' c
  unfolding continued unchanged with_state_digest with_attempt_digest first_attempt
  claim-TakesNext application_id db db' c =
      let facts =
        claim_next_operation-eq-ok digests clock caller context c.current application_id c.digest
          c.owner_id c.now db c.state c.attempt db' c.returns in
      let (absent, stored, keeps) =
        claim-new_row digests clock caller context application_id db db' c in
      let built : c.state
          ≡ with_state_digest digests.states (continued digests context facts.previous _) =
        facts.state_eq ∙ ap (with_state_digest digests.states) facts.claimed.built in
      let made : c.attempt
          ≡ with_attempt_digest digests.states (
              first_attempt digests context facts.previous.next_operation_index
                facts.first.operation c.now) =
        facts.attempt_eq ∙ ap (with_attempt_digest digests.states) facts.first.built in
      record {
        previous = facts.previous;
        operation = facts.first.operation;
        found = facts.found;
        fresh = facts.fresh;
        next = facts.first.at_index;
        taken = ap (λ (a : OperationAttempt). a.operation) made;
        taken_at = ap (λ (a : OperationAttempt). a.operation_index) made;
        attempt_state = ap (λ (a : OperationAttempt). a.state) made;
        state = ap (λ (s : ApplicationExecution). s.state) built;
        owned = ap (λ (s : ApplicationExecution). s.owner_id) built;
        current_attempt =
            ap (λ (s : ApplicationExecution). s.current_attempt_id) built
            ∙ ap (λ (a : OperationAttempt). some a.operation_identity) (sym facts.attempt_eq);
        index = ap (λ (s : ApplicationExecution). s.next_operation_index) built;
        receipts = ap (λ (s : ApplicationExecution). s.operation_receipt_refs) built;
        no_attempt = absent;
        state_stored =
            ap (λ (d : Database). lookup application_id d.application_execution) facts.written
            ∙ (lookup-update-same application_id (with_state_digest digests.states facts.candidate)
                  (loads facts.previous) db.application_execution facts.found
                ∙ ap (λ s. some (loads s)) (sym facts.state_eq));
        attempt_stored = stored;
      }
