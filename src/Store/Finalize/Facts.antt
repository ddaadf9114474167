-- ===== src/Store/Finalize/Facts.antt =====
-- What creation and finalization in execution_store.py have checked and written.
use delivery_system.Base.{
  sym, ap, ◌∙◌, ℕ_eq, String, String_eq, List_eq, Option_eq, List, [], ◌∷◌, not, Option, none, some,
  ◌≡◌, ||-eq-false, !=-eq-false, length, map, arith,
}
use delivery_system.Errors.{
  Result, ok, raise_if-then-eq-ok, >>=-eq-ok, or_raise, or_raise-eq-ok, ok-injective,
  application_not_found, application_initial_state_invalid, runtime_authority_required,
}
use delivery_system.Execution.{
  partially_applied, applied, Status_eq, ApplicationExecution, with_state_digest,
}
use delivery_system.Receipts.{Digests, ApplicationReceipt, OperationReceipt}
use delivery_system.Context.{
  ExecutionContext, Currentness, ExecutionChange, unchanged, continue_execution_state,
  new_application_receipt,
}
use delivery_system.Table.{Table, Row, loads, lookup, update, insert, read_row, read_row-eq-ok}
use delivery_system.Store.{
  Database, Caller, Clock, execution_timestamp, require_clock_not_before, require_orchestration,
  Live,
}
use delivery_system.Store.Claim.{
  is_initial, create_execution_if_absent, insert_execution, accept_existing,
}
use delivery_system.Store.Claim.Facts.{IsContinued, continue_execution_state-eq-ok}
use delivery_system.Store.Finalize.{collect_receipts, receipt_ref, finalize_application}

-- What finalization changes in the application's record.
abbrev pub finalization_change : ApplicationExecution → String → ExecutionChange
finalization_change previous now = record (unchanged previous) {
  state = applied;
  completed_at = some now;
  updated_at = now;
}

module _ (digests : Digests) (clock : Clock) (caller : Caller) (context : ExecutionContext) where
  -- A finalized application, by what finalization found and what it wrote.
  pub record IsFinalization (application_id state_digest now : String) (db : Database)
      (state : ApplicationExecution) (db' : Database) : Type 0 where
    pub previous : ApplicationExecution
    pub found : lookup application_id db.application_execution ≡ some (loads previous)
    pub fresh : previous.state_digest ≡ state_digest
    pub partly : previous.state ≡ partially_applied
    pub complete : previous.next_operation_index ≡ length context.expected_operations
    pub stored : List OperationReceipt
    pub collected :
        collect_receipts digests clock caller context application_id now 0
          context.expected_operations db
        ≡ ok stored
    pub clock_ok :
        require_clock_not_before clock now (previous.started_at ∷ previous.updated_at ∷ []) ≡ ok tt
    pub receipt : ApplicationReceipt
    pub current : Result (Unit {0})
    pub receipt_made :
        new_application_receipt digests context current (map receipt_ref stored) now ≡ ok receipt
    pub candidate : ApplicationExecution
    pub continues :
        IsContinued digests context previous (finalization_change previous now) candidate
    pub state_eq : state ≡ with_state_digest digests.states candidate
    pub application_receipts : Table String ApplicationReceipt
    pub inserted : insert application_id receipt db.application_receipts ≡ ok application_receipts
    pub written : db' ≡ record db {
      application_execution =
          update application_id
            (with_state_digest digests.states candidate)
            db.application_execution;
      application_receipts = application_receipts;
    }

  pub finalize_application-eq-ok :
      (current : Currentness) (application_id state_digest now : String) (db : Database)
      (state : ApplicationExecution) (db' : Database)
      → finalize_application digests clock caller context current application_id state_digest now db
        ≡ ok (state, db')
      → IsFinalization application_id state_digest now db state db'
  unfolding finalize_application
  finalize_application-eq-ok current application_id state_digest now db state db' h =
      let (u0, e0, h1) = >>=-eq-ok (require_orchestration caller) _ h in
      let (u1, e1, h2) = >>=-eq-ok (current 0) _ h1 in
      let (row, at_row, h3) =
        >>=-eq-ok (or_raise (lookup application_id db.application_execution) application_not_found)
          _ h2 in
      let (previous, reads, h4) = >>=-eq-ok (read_row row) _ h3 in
      let (f1, h5) = raise_if-then-eq-ok _ _ _ h4 in
      let (f2, h6) = raise_if-then-eq-ok _ _ _ h5 in
      let (t1, e2, h7) = >>=-eq-ok (execution_timestamp clock previous.started_at) _ h6 in
      let (t2, e3, h8) = >>=-eq-ok (execution_timestamp clock previous.updated_at) _ h7 in
      let (stored, collected, h9) =
        >>=-eq-ok
          (collect_receipts digests clock caller context application_id now 0
            context.expected_operations db)
          _ h8 in
      let (u2, clock_ok, h10) =
        >>=-eq-ok
          (require_clock_not_before clock now (previous.started_at ∷ previous.updated_at ∷ [])) _
          h9 in
      let (receipt, made, h11) =
        >>=-eq-ok (new_application_receipt digests context (current 1) (map receipt_ref stored) now)
          _ h10 in
      let (u3, e5, h12) = >>=-eq-ok (current 2) _ h11 in
      let change = finalization_change previous now in
      let (candidate, continues, h13) =
        >>=-eq-ok (continue_execution_state digests context (current 3) previous change) _ h12 in
      let (u4, e6, h14) = >>=-eq-ok (current 4) _ h13 in
      let (receipts, inserted, h15) =
        >>=-eq-ok (insert application_id receipt db.application_receipts) _ h14 in
      let result = ok-injective _ _ h15 in
      let (g1, r1) = ||-eq-false _ _ f2 in
      let (g2, r2) = ||-eq-false _ _ r1 in
      let (g3, r3) = ||-eq-false _ _ r2 in
      let (g4, r4) = ||-eq-false _ _ r3 in
      record {
        previous = previous;
        found = or_raise-eq-ok _ _ at_row ∙ ap some (read_row-eq-ok row reads);
        fresh = !=-eq-false previous.state_digest _ g2;
        partly = !=-eq-false previous.state _ g3;
        complete = !=-eq-false previous.next_operation_index _ g4;
        stored = stored;
        collected = collected;
        clock_ok = clock_ok;
        receipt = receipt;
        current = current 1;
        receipt_made = made;
        candidate = candidate;
        continues =
            continue_execution_state-eq-ok digests context _ previous candidate change continues;
        state_eq = sym (ap (λ (r : ApplicationExecution × Database). r.0) result);
        application_receipts = receipts;
        inserted = inserted;
        written = sym (ap (λ (r : ApplicationExecution × Database). r.1) result);
      }

  insert_execution-attempts :
      (candidate : ApplicationExecution) (db : Database) (state : ApplicationExecution)
      (db' : Database)
      → insert_execution digests clock caller context candidate db ≡ ok (state, db')
      → db'.operation_attempts ≡ db.operation_attempts
  unfolding insert_execution
  insert_execution-attempts candidate db state db' h =
      let (table, inserted, h1) =
        >>=-eq-ok
          (insert candidate.application_id (with_state_digest digests.states candidate)
            db.application_execution)
          _ h in
      sym
        (ap (λ (r : ApplicationExecution × Database). r.1.operation_attempts) (ok-injective _ _ h1))

  accept_existing-db :
      (candidate : ApplicationExecution) (row : Row ApplicationExecution) (db : Database)
      (state : ApplicationExecution) (db' : Database)
      → accept_existing digests clock caller context candidate row db ≡ ok (state, db')
      → db' ≡ db
  unfolding accept_existing
  accept_existing-db candidate row db state db' h = ground arith

  created-attempts :
      (candidate : ApplicationExecution) (db : Database) (found : Option (Row ApplicationExecution))
      (state : ApplicationExecution) (db' : Database)
      → elim found [
        | none ↦ insert_execution digests clock caller context candidate db
        | some row ↦ accept_existing digests clock caller context candidate row db
      ]
        ≡ ok (state, db')
      → db'.operation_attempts ≡ db.operation_attempts
  created-attempts candidate db none state db' h =
      insert_execution-attempts candidate db state db' h
  created-attempts candidate db (some row) state db' h =
      ap (λ (d : Database). d.operation_attempts) (accept_existing-db candidate row db state db' h)

  -- Creation leaves the attempts of every application as they are.
  pub create_execution_if_absent-attempts :
      (current : Currentness) (live : Live ApplicationExecution) (db : Database)
      (state : ApplicationExecution) (db' : Database)
      → create_execution_if_absent digests clock caller context current live db ≡ ok (state, db')
      → db'.operation_attempts ≡ db.operation_attempts
  unfolding create_execution_if_absent
  create_execution_if_absent-attempts current live db state db' h =
      let (u0, e0, h1) = >>=-eq-ok (require_orchestration caller) _ h in
      let (f1, h2) =
        raise_if-then-eq-ok (not (is_initial live.artifact)) application_initial_state_invalid _
          h1 in
      let (f2, h3) = raise_if-then-eq-ok (not live.owned) runtime_authority_required _ h2 in
      let (u1, e1, h4) = >>=-eq-ok (current 0) _ h3 in
      let (f3, h5) = raise_if-then-eq-ok (not live.registered) runtime_authority_required _ h4 in
      created-attempts live.artifact db
        (lookup live.artifact.application_id db.application_execution) state db' h5
