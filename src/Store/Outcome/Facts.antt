-- ===== src/Store/Outcome/Facts.antt =====
-- What ending a claimed operation in execution_store.py has checked and written.
use delivery_system.Base.{
  sym, ap, ◌∙◌, ℕ_eq, ◌+◌, String, String_eq, List_eq, Option_eq, [], ◌∷◌, ◌++◌, true, none, some,
  ◌≡◌, ||-eq-false, not-eq-false, !=-eq-false,
}
use delivery_system.Errors.{
  Code, ok, raise_if-then-eq-ok, >>=-eq-ok, or_raise, or_raise-eq-ok, ok-injective,
  application_claim_stale,
}
use delivery_system.Execution.{
  Status, applying, partially_applied, applied, Status_eq, ApplicationExecution, OperationAttempt,
  with_state_digest, with_attempt_digest,
}
use delivery_system.Receipts.{Digests, OperationReceipt, with_receipt_digest}
use delivery_system.Context.{
  ExecutionContext, Currentness, ExecutionChange, unchanged, continue_execution_state,
  continue_attempt,
}
use delivery_system.Table.{
  OperationKey, OperationKey_eq, Table, loads, lookup, update, insert, read_row, read_row-eq-ok,
}
use delivery_system.Store.{
  Database, Caller, Clock, require_clock_not_before, require_orchestration, Live,
}
use delivery_system.Store.Claim.Facts.{IsContinued, continue_execution_state-eq-ok}
use delivery_system.Store.Outcome.{
  is_settlement, load_claim, complete_operation_success, settle_operation,
}

abbrev pub attempt_key : String → String → OperationKey
attempt_key application_id attempt_id = record {
  application = application_id;
  operation = attempt_id;
}

-- What a completed operation changes in the application's record.
abbrev pub completion_change : ApplicationExecution → String → String → ExecutionChange
completion_change previous receipt_id now = record (unchanged previous) {
  state = partially_applied;
  next_operation_index = previous.next_operation_index + 1;
  operation_receipt_refs = previous.operation_receipt_refs ++ receipt_id ∷ [];
  owner_id = none;
  current_attempt_id = none;
  updated_at = now;
}

-- What an operation that ended without success changes in the application's record.
abbrev pub settlement_change : ApplicationExecution → Status → Code → String → ExecutionChange
settlement_change previous state_name code now = record (unchanged previous) {
  state = state_name;
  owner_id = none;
  recovery_code = some code;
  updated_at = now;
}

module _ (digests : Digests) (clock : Clock) (caller : Caller) (context : ExecutionContext) where
  -- The claim that an outcome ends, as the tables hold it.
  pub record IsHeld (application_id state_digest attempt_id attempt_digest owner_id : String)
      (db : Database) (previous : ApplicationExecution) (attempt : OperationAttempt) : Type 0 where
    pub found : lookup application_id db.application_execution ≡ some (loads previous)
    pub attempt_found :
        lookup (attempt_key application_id attempt_id) db.operation_attempts ≡ some (loads attempt)
    pub fresh : previous.state_digest ≡ state_digest
    pub is_applying : previous.state ≡ applying
    pub held : previous.owner_id ≡ some owner_id
    pub current_attempt : previous.current_attempt_id ≡ some attempt_id
    pub attempt_fresh : attempt.attempt_digest ≡ attempt_digest
    pub attempt_applying : attempt.state ≡ applying

  pub load_claim-eq-ok :
      (application_id state_digest attempt_id attempt_digest owner_id : String) (db : Database)
      (previous : ApplicationExecution) (attempt : OperationAttempt)
      → load_claim digests clock caller context application_id state_digest attempt_id
          attempt_digest owner_id db
        ≡ ok (previous, attempt)
      → IsHeld application_id state_digest attempt_id attempt_digest owner_id db previous attempt
  unfolding load_claim
  load_claim-eq-ok application_id state_digest attempt_id attempt_digest owner_id db previous
        attempt h =
      let (row, at_row, h1) =
        >>=-eq-ok
          (or_raise (lookup application_id db.application_execution) application_claim_stale) _ h in
      let (row', at_row', h2) =
        >>=-eq-ok
          (or_raise (lookup (attempt_key application_id attempt_id) db.operation_attempts)
            application_claim_stale)
          _ h1 in
      let (p, reads, h3) = >>=-eq-ok (read_row row) _ h2 in
      let (a, reads', h4) = >>=-eq-ok (read_row row') _ h3 in
      let (f1, h5) = raise_if-then-eq-ok _ _ _ h4 in
      let (f2, h6) = raise_if-then-eq-ok _ _ _ h5 in
      let (g1, r1) = ||-eq-false _ _ f2 in
      let (g2, r2) = ||-eq-false _ _ r1 in
      let (g3, r3) = ||-eq-false _ _ r2 in
      let (g4, r4) = ||-eq-false _ _ r3 in
      let (g5, r5) = ||-eq-false _ _ r4 in
      let (g6, r6) = ||-eq-false _ _ r5 in
      let (g7, g8) = ||-eq-false _ _ r6 in
      let result = ok-injective _ _ h6 in
      let same : p ≡ previous = ap (λ (r : ApplicationExecution × OperationAttempt). r.0) result in
      let same' : a ≡ attempt = ap (λ (r : ApplicationExecution × OperationAttempt). r.1) result in
      record {
        found = or_raise-eq-ok _ _ at_row ∙ ap some (read_row-eq-ok row reads ∙ ap loads same);
        attempt_found =
            or_raise-eq-ok _ _ at_row' ∙ ap some (read_row-eq-ok row' reads' ∙ ap loads same');
        fresh =
            ap (λ (s : ApplicationExecution). s.state_digest) (sym same)
            ∙ !=-eq-false p.state_digest _ g2;
        is_applying =
            ap (λ (s : ApplicationExecution). s.state) (sym same) ∙ !=-eq-false p.state _ g3;
        held =
            ap (λ (s : ApplicationExecution). s.owner_id) (sym same) ∙ !=-eq-false p.owner_id _ g4;
        current_attempt =
            ap (λ (s : ApplicationExecution). s.current_attempt_id) (sym same)
            ∙ !=-eq-false p.current_attempt_id _ g5;
        attempt_fresh =
            ap (λ (s : OperationAttempt). s.attempt_digest) (sym same')
            ∙ !=-eq-false a.attempt_digest _ g7;
        attempt_applying =
            ap (λ (s : OperationAttempt). s.state) (sym same') ∙ !=-eq-false a.state _ g8;
      }

  -- A completed operation, by what it found and what it wrote.
  pub record IsCompletion (application_id state_digest attempt_id attempt_digest owner_id : String)
      (receipt : OperationReceipt) (now : String) (db : Database) (state : ApplicationExecution)
      (db' : Database) : Type 0 where
    pub previous : ApplicationExecution
    pub attempt : OperationAttempt
    pub held :
        IsHeld application_id state_digest attempt_id attempt_digest owner_id db previous attempt
    pub receipt_application : receipt.application_id ≡ application_id
    pub receipt_index : receipt.operation_index ≡ attempt.operation_index
    pub receipt_operation : receipt.operation_identity ≡ attempt.operation_identity
    pub clock_ok :
        require_clock_not_before clock now
          (previous.started_at ∷ previous.updated_at ∷ attempt.started_at ∷ attempt.updated_at ∷ [])
        ≡ ok tt
    pub next_attempt : OperationAttempt
    pub candidate : ApplicationExecution
    pub continues :
        IsContinued digests context previous
          (completion_change previous receipt.operation_receipt_id now)
          candidate
    pub state_eq : state ≡ with_state_digest digests.states candidate
    pub receipts : Table OperationKey OperationReceipt
    pub inserted :
        insert
          (attempt_key application_id receipt.operation_identity)
          (with_receipt_digest digests receipt)
          db.operation_receipts
        ≡ ok receipts
    pub written : db' ≡ record db {
      application_execution =
          update application_id
            (with_state_digest digests.states candidate)
            db.application_execution;
      operation_attempts =
          update
            (attempt_key application_id attempt_id)
            (with_attempt_digest digests.states next_attempt)
            db.operation_attempts;
      operation_receipts = receipts;
    }

  pub complete_operation_success-eq-ok :
      (current : Currentness)
      (application_id state_digest attempt_id attempt_digest owner_id : String)
      (live : Live OperationReceipt) (now : String) (db : Database) (state : ApplicationExecution)
      (db' : Database)
      → complete_operation_success digests clock caller context current application_id state_digest
          attempt_id attempt_digest owner_id live now db
        ≡ ok (state, db')
      → IsCompletion application_id state_digest attempt_id attempt_digest owner_id live.artifact
          now db state db'
  unfolding complete_operation_success with_receipt_digest
  complete_operation_success-eq-ok current application_id state_digest attempt_id attempt_digest
        owner_id live now db state db' h =
      let receipt = live.artifact in
      let (u0, e0, h1) = >>=-eq-ok (require_orchestration caller) _ h in
      let (u1, e1, h2) = >>=-eq-ok (current 0) _ h1 in
      let ((previous, attempt), loaded, h3) =
        >>=-eq-ok
          (load_claim digests clock caller context application_id state_digest attempt_id
            attempt_digest owner_id db)
          _ h2 in
      let (f1, h4) = raise_if-then-eq-ok _ _ _ h3 in
      let (u2, clock_ok, h5) =
        >>=-eq-ok
          (require_clock_not_before clock now (
            previous.started_at ∷ previous.updated_at ∷ attempt.started_at ∷ attempt.updated_at
            ∷ []))
          _ h4 in
      let (u3, e3, h6) =
        >>=-eq-ok
          (require_clock_not_before clock now (receipt.started_at ∷ receipt.completed_at ∷ [])) _
          h5 in
      let (u4, e4, h7) = >>=-eq-ok (current 1) _ h6 in
      let (f2, h8) = raise_if-then-eq-ok _ _ _ h7 in
      let (next_attempt, e5, h9) =
        >>=-eq-ok
          (continue_attempt digests context (current 2) attempt applied now attempt.failure_code) _
          h8 in
      let change = completion_change previous receipt.operation_receipt_id now in
      let (candidate, continues, h10) =
        >>=-eq-ok (continue_execution_state digests context (current 3) previous change) _ h9 in
      let (u6, e6, h11) = >>=-eq-ok (current 4) _ h10 in
      let (u7, e7, h12) = >>=-eq-ok (current 5) _ h11 in
      let (receipts, inserted, h13) =
        >>=-eq-ok
          (insert (attempt_key application_id receipt.operation_identity)
            (with_receipt_digest digests receipt) db.operation_receipts)
          _ h12 in
      let result = ok-injective _ _ h13 in
      let (g1, r1) = ||-eq-false _ _ f1 in
      let (g2, r2) = ||-eq-false _ _ r1 in
      let (g3, g4) = ||-eq-false _ _ r2 in
      record {
        previous = previous;
        attempt = attempt;
        held =
            load_claim-eq-ok application_id state_digest attempt_id attempt_digest owner_id db
              previous attempt loaded;
        receipt_application = !=-eq-false receipt.application_id _ g2;
        receipt_index = !=-eq-false receipt.operation_index _ g3;
        receipt_operation = !=-eq-false receipt.operation_identity _ g4;
        clock_ok = clock_ok;
        next_attempt = next_attempt;
        candidate = candidate;
        continues =
            continue_execution_state-eq-ok digests context _ previous candidate change continues;
        state_eq = sym (ap (λ (r : ApplicationExecution × Database). r.0) result);
        receipts = receipts;
        inserted = inserted;
        written = sym (ap (λ (r : ApplicationExecution × Database). r.1) result);
      }

  -- An operation that was settled without success, by what the settlement found and wrote.
  pub record IsSettlement (application_id state_digest attempt_id attempt_digest owner_id : String)
      (state_name : Status) (code : Code) (now : String) (db : Database)
      (state : ApplicationExecution) (db' : Database) : Type 0 where
    pub allowed : is_settlement state_name ≡ true
    pub previous : ApplicationExecution
    pub attempt : OperationAttempt
    pub held :
        IsHeld application_id state_digest attempt_id attempt_digest owner_id db previous attempt
    pub next_attempt : OperationAttempt
    pub candidate : ApplicationExecution
    pub continues :
        IsContinued digests context previous
          (settlement_change previous state_name code now)
          candidate
    pub state_eq : state ≡ with_state_digest digests.states candidate
    pub written : db' ≡ record db {
      application_execution =
          update application_id
            (with_state_digest digests.states candidate)
            db.application_execution;
      operation_attempts =
          update
            (attempt_key application_id attempt_id)
            (with_attempt_digest digests.states next_attempt)
            db.operation_attempts;
    }

  pub settle_operation-eq-ok :
      (current : Currentness)
      (application_id state_digest attempt_id attempt_digest owner_id : String)
      (state_name : Status) (code : Code) (now : String) (db : Database)
      (state : ApplicationExecution) (db' : Database)
      → settle_operation digests clock caller context current application_id state_digest attempt_id
          attempt_digest owner_id state_name code now db
        ≡ ok (state, db')
      → IsSettlement application_id state_digest attempt_id attempt_digest owner_id state_name code
          now db state db'
  unfolding settle_operation
  settle_operation-eq-ok current application_id state_digest attempt_id attempt_digest owner_id
        state_name code now db state db' h =
      let (u0, e0, h1) = >>=-eq-ok (require_orchestration caller) _ h in
      let (f1, h2) = raise_if-then-eq-ok _ _ _ h1 in
      let (u1, e1, h3) = >>=-eq-ok (current 0) _ h2 in
      let ((previous, attempt), loaded, h4) =
        >>=-eq-ok
          (load_claim digests clock caller context application_id state_digest attempt_id
            attempt_digest owner_id db)
          _ h3 in
      let (next_attempt, e2, h5) =
        >>=-eq-ok (continue_attempt digests context (current 1) attempt state_name now (some code))
          _ h4 in
      let change = settlement_change previous state_name code now in
      let (candidate, continues, h6) =
        >>=-eq-ok (continue_execution_state digests context (current 2) previous change) _ h5 in
      let (u3, e3, h7) = >>=-eq-ok (current 3) _ h6 in
      let (u4, e4, h8) = >>=-eq-ok (current 4) _ h7 in
      let result = ok-injective _ _ h8 in
      record {
        allowed = not-eq-false _ f1;
        previous = previous;
        attempt = attempt;
        held =
            load_claim-eq-ok application_id state_digest attempt_id attempt_digest owner_id db
              previous attempt loaded;
        next_attempt = next_attempt;
        candidate = candidate;
        continues =
            continue_execution_state-eq-ok digests context _ previous candidate change continues;
        state_eq = sym (ap (λ (r : ApplicationExecution × Database). r.0) result);
        written = sym (ap (λ (r : ApplicationExecution × Database). r.1) result);
      }
