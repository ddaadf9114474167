-- ===== src/Store/Claim/Facts.antt =====
-- What a successful claim of execution_store.py has checked and written.
use delivery_system.Base.{
  sym, ap, ◌∙◌, ℕ, String, String_eq, List_eq, Option_eq, [], ◌∷◌, true, false, some, leb, length,
  get_elem?, ◌≡◌, arith, ||-eq-false, not-eq-false, !=-eq-false,
}
use delivery_system.Errors.{
  Result, ok, raise_if-then-eq-ok, >>=-eq-ok, or_raise, or_raise-eq-ok, application_not_found,
  ok-injective,
}
use delivery_system.WriteOperations.{WriteOperation}
use delivery_system.Execution.{
  applying, ApplicationExecution, OperationAttempt, is_claimable, with_state_digest,
  with_attempt_digest, verify_execution, check_execution, check_attempt,
}
use delivery_system.Receipts.{Digests}
use delivery_system.Context.{
  ExecutionContext, Currentness, ExecutionChange, unchanged, context_application_id, continued,
  first_attempt, continue_execution_state, new_attempt, operation_at,
}
use delivery_system.Table.{
  OperationKey, OperationKey_eq, Table, loads, lookup, update, insert, read_row, read_row-eq-ok,
}
use delivery_system.Store.{
  Database, Caller, Clock, require_clock_not_before, require_orchestration, is_owner_id,
}
use delivery_system.Store.Claim.{claim_next_operation, is_managed}

-- What the claim changes in the application's record.
abbrev pub claim_change : ApplicationExecution → String → String → String → ExecutionChange
claim_change previous owner_id attempt_id now = record (unchanged previous) {
  state = applying;
  owner_id = some owner_id;
  current_attempt_id = some attempt_id;
  updated_at = now;
}

module _ (digests : Digests) (context : ExecutionContext) where
  -- A continued record is the one asked for, of the same application.
  pub record IsContinued (historical : ApplicationExecution) (change : ExecutionChange)
      (candidate : ApplicationExecution) : Type 0 where
    pub built : candidate ≡ continued digests context historical change
    pub intact : verify_execution digests.states historical ≡ true
    pub same_application : historical.application_id ≡ context_application_id digests context

  pub continue_execution_state-eq-ok :
      (current : Result (Unit {0})) (historical candidate : ApplicationExecution)
      (change : ExecutionChange)
      → continue_execution_state digests context current historical change ≡ ok candidate
      → IsContinued historical change candidate
  unfolding continue_execution_state
  continue_execution_state-eq-ok current historical candidate change h =
      let (u, e, h1) = >>=-eq-ok current _ h in
      let (f1, h2) = raise_if-then-eq-ok _ _ _ h1 in
      let (f2, h3) = raise_if-then-eq-ok _ _ _ h2 in
      let (v, checked, built) =
        >>=-eq-ok (check_execution digests.states (continued digests context historical change)) _
          h3 in
      let (g1, g2) = ||-eq-false _ _ f2 in
      let (g3, g4) = ||-eq-false _ _ g2 in
      record {
        built = sym (ok-injective _ _ built);
        intact = not-eq-false _ f1;
        same_application = !=-eq-false historical.application_id _ g3;
      }

  pub record IsFirstAttempt (index : ℕ) (now : String) (attempt : OperationAttempt) : Type 0 where
    pub operation : WriteOperation
    pub at_index : get_elem? context.expected_operations index ≡ some operation
    pub built : attempt ≡ first_attempt digests context index operation now

  operation_at-eq-ok :
      (index : ℕ) (operation : WriteOperation)
      → operation_at digests context index ≡ ok operation
      → get_elem? context.expected_operations index ≡ some operation
  unfolding operation_at
  operation_at-eq-ok index operation h = ground arith

  pub new_attempt-eq-ok :
      (current : Result (Unit {0})) (index : ℕ) (now : String) (attempt : OperationAttempt)
      → new_attempt digests context current index now ≡ ok attempt
      → IsFirstAttempt index now attempt
  unfolding new_attempt
  new_attempt-eq-ok current index now attempt h =
      let (u, e, h1) = >>=-eq-ok current _ h in
      let (operation, found, h2) = >>=-eq-ok (operation_at digests context index) _ h1 in
      let (v, checked, built) =
        >>=-eq-ok (check_attempt digests.states (first_attempt digests context index operation now))
          _ h2 in
      record {
        operation = operation;
        at_index = operation_at-eq-ok index operation found;
        built = sym (ok-injective _ _ built);
      }

module _ (digests : Digests) (clock : Clock) (caller : Caller) (context : ExecutionContext) where
  -- The claim of an application's next operation, by what it found and what it wrote.
  pub record IsClaim (application_id expected_digest owner_id now : String) (db : Database)
      (state : ApplicationExecution) (attempt : OperationAttempt) (db' : Database) : Type 0 where
    pub previous : ApplicationExecution
    pub found : lookup application_id db.application_execution ≡ some (loads previous)
    pub owner_form : is_owner_id owner_id ≡ true
    pub managed : is_managed previous ≡ true
    pub fresh : previous.state_digest ≡ expected_digest
    pub claimable : is_claimable previous.state ≡ true
    pub room : leb (length context.expected_operations) previous.next_operation_index ≡ false
    pub of_context : application_id ≡ context_application_id digests context
    pub draft : OperationAttempt
    pub first : IsFirstAttempt digests context previous.next_operation_index now draft
    pub attempt_eq : attempt ≡ with_attempt_digest digests.states draft
    pub candidate : ApplicationExecution
    pub claimed :
        IsContinued digests context previous
          (claim_change previous owner_id draft.operation_identity now)
          candidate
    pub state_eq : state ≡ with_state_digest digests.states candidate
    pub clock_ok :
        require_clock_not_before clock now (previous.started_at ∷ previous.updated_at ∷ []) ≡ ok tt
    pub attempts : Table OperationKey OperationAttempt
    pub inserted :
        insert
          (record { application = draft.application_id; operation = draft.operation_identity })
          (with_attempt_digest digests.states draft)
          db.operation_attempts
        ≡ ok attempts
    pub written : db' ≡ record db {
      application_execution =
          update application_id
            (with_state_digest digests.states candidate)
            db.application_execution;
      operation_attempts = attempts;
    }

  pub claim_next_operation-eq-ok :
      (current : Currentness) (application_id expected_digest owner_id now : String) (db : Database)
      (state : ApplicationExecution) (attempt : OperationAttempt) (db' : Database)
      → claim_next_operation digests clock caller context current application_id expected_digest
          owner_id now db
        ≡ ok (state, attempt, db')
      → IsClaim application_id expected_digest owner_id now db state attempt db'
  unfolding claim_next_operation
  claim_next_operation-eq-ok current application_id expected_digest owner_id now db state attempt
        db' h =
      let (u0, e0, h0) = >>=-eq-ok (require_orchestration caller) _ h in
      let (f1, h1) = raise_if-then-eq-ok _ _ _ h0 in
      let (u1, e1, h2) = >>=-eq-ok (current 0) _ h1 in
      let (f2, h3) = raise_if-then-eq-ok _ _ _ h2 in
      let (row, at_row, h4) =
        >>=-eq-ok (or_raise (lookup application_id db.application_execution) application_not_found)
          _ h3 in
      let (previous, reads, h5) = >>=-eq-ok (read_row row) _ h4 in
      let (f3, h6) = raise_if-then-eq-ok _ _ _ h5 in
      let (f4, h7) = raise_if-then-eq-ok _ _ _ h6 in
      let (f5, h8) = raise_if-then-eq-ok _ _ _ h7 in
      let (f6, h9) = raise_if-then-eq-ok _ _ _ h8 in
      let (u2, clock_ok, h10) =
        >>=-eq-ok
          (require_clock_not_before clock now (previous.started_at ∷ previous.updated_at ∷ [])) _
          h9 in
      let (draft, made, h11) =
        >>=-eq-ok (new_attempt digests context (current 1) previous.next_operation_index now) _
          h10 in
      let (u3, e3, h12) =
        >>=-eq-ok (require_clock_not_before clock draft.updated_at (draft.started_at ∷ [])) _ h11 in
      let change = claim_change previous owner_id draft.operation_identity now in
      let (candidate, continues, h13) =
        >>=-eq-ok (continue_execution_state digests context (current 2) previous change) _ h12 in
      let (u4, e4, h14) = >>=-eq-ok (current 3) _ h13 in
      let (u5, e5, h15) = >>=-eq-ok (current 4) _ h14 in
      let key : OperationKey = record {
        application = draft.application_id;
        operation = draft.operation_identity;
      } in
      let (attempts, inserted, h16) =
        >>=-eq-ok (insert key (with_attempt_digest digests.states draft) db.operation_attempts) _
          h15 in
      let result = ok-injective _ _ h16 in
      let (g1, g2) = ||-eq-false _ _ f4 in
      let (g3, g4) = ||-eq-false _ _ f5 in
      record {
        previous = previous;
        found = or_raise-eq-ok _ _ at_row ∙ ap some (read_row-eq-ok row reads);
        owner_form = not-eq-false _ f1;
        managed = not-eq-false _ f3;
        fresh = !=-eq-false previous.state_digest _ g2;
        claimable = not-eq-false _ g3;
        room = f6;
        of_context = !=-eq-false application_id _ f2;
        draft = draft;
        first = new_attempt-eq-ok digests context _ _ now draft made;
        attempt_eq =
            sym (ap (λ (r : ApplicationExecution × OperationAttempt × Database). r.1) result);
        candidate = candidate;
        claimed =
            continue_execution_state-eq-ok digests context _ previous candidate change continues;
        state_eq =
            sym (ap (λ (r : ApplicationExecution × OperationAttempt × Database). r.0) result);
        clock_ok = clock_ok;
        attempts = attempts;
        inserted = inserted;
        written = sym (ap (λ (r : ApplicationExecution × OperationAttempt × Database). r.2) result);
      }
