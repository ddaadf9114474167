-- ===== src/Status/Written.antt =====
-- The records that execution_store.py writes, read back by runtime.py.
use delivery_system.Base.{
  sym, ap, ◌∙◌, ℕ_eq, String, String_eq, [], ◌∷◌, some, false, ◌==◌, ◌≡◌, refl, arith, length,
  length-append, inl, inr,
}
use delivery_system.Errors.{Code, ok}
use delivery_system.Execution.{
  Status, ApplicationExecution, OperationAttempt, is_none, with_state_digest,
}
use delivery_system.Execution.Transitions.{is_missing}
use delivery_system.Receipts.{Digests, OperationReceipt}
use delivery_system.Context.{
  ExecutionContext, Currentness, context_application_id, continued, unchanged, first_attempt,
}
use delivery_system.Table.{Table, loads, lookup, update}
use delivery_system.Store.{Database, Caller, Clock, Live, require_clock_not_before}
use delivery_system.Store.Claim.Facts.{claim_change, claim_next_operation-eq-ok}
use delivery_system.Store.Outcome.{complete_operation_success, settle_operation}
use delivery_system.Store.Outcome.Facts.{
  completion_change, settlement_change, complete_operation_success-eq-ok, settle_operation-eq-ok,
}
use delivery_system.Store.Finalize.{finalize_application}
use delivery_system.Store.Finalize.Facts.{finalization_change, finalize_application-eq-ok}
use delivery_system.Store.Exclusion.{Claims, lookup-update-same}
use delivery_system.Status.{fields_valid, is_code_missing}
use delivery_system.Status.Kept.{IsValid, require_clock-NotBefore, IsValid-fields, updated-IsValid}
use delivery_system.Status.Fields.{
  nonempty_owner, nonempty_operation, claimable-fields, applying-fields, claimed-fields,
  finished-fields, settled-fields, leb-room,
}

module _ (digests : Digests) (clock : Clock) (caller : Caller) (context : ExecutionContext) where
  -- The application's row, where there is one, holds a record that a status read accepts.
  abbrev pub ValidRow : String → Database → Type 0
  ValidRow application_id db =
      (s : ApplicationExecution)
      → lookup application_id db.application_execution ≡ some (loads s)
      → IsValid clock context.expected_operations s

  -- An updated row is valid if the record written is.
  ValidRow-update :
      (application_id : String) (previous written : ApplicationExecution)
      (t : Table String ApplicationExecution) (db' : Database)
      → lookup application_id t ≡ some (loads previous)
      → db'.application_execution ≡ update application_id written t
      → IsValid clock context.expected_operations written
      → ValidRow application_id db'
  ValidRow-update application_id previous written t db' found stored valid s found' =
      let same : some (loads written) ≡ some (loads s) =
        sym (lookup-update-same application_id written (loads previous) t found)
        ∙ (ap (lookup application_id) (sym stored) ∙ found') in
      let equal : written ≡ s = cc in rw (sym equal) valid

  -- A claim that returns keeps the record in the application's row one that a
  -- status read accepts.
  pub claim-ValidRow :
      (application_id : String) (db db' : Database)
      → ValidRow application_id db
      → Claims digests clock caller context application_id db db'
      → (s : ApplicationExecution)
      → lookup application_id db'.application_execution ≡ some (loads s)
      → IsValid clock context.expected_operations s
  unfolding with_state_digest continued unchanged fields_valid is_none is_missing first_attempt
  claim-ValidRow application_id db db' valid c =
      let facts =
        claim_next_operation-eq-ok digests clock caller context c.current application_id c.digest
          c.owner_id c.now db c.state c.attempt db' c.returns in
      let previous = facts.previous in
      let (counted, fields) =
        IsValid-fields clock context.expected_operations previous (valid previous facts.found) in
      let (no_code, not_done) =
        claimable-fields previous.state (length context.expected_operations) previous
          facts.claimable fields in
      let room =
        leb-room (length context.expected_operations) previous.next_operation_index facts.room in
      let candidate =
        continued digests context previous
          (claim_change previous c.owner_id facts.draft.operation_identity c.now) in
      let written : db'.application_execution
          ≡ update application_id (with_state_digest digests.states candidate)
              db.application_execution =
        ap (λ (d : Database). d.application_execution) facts.written
        ∙ ap
            (λ s.
              update application_id (with_state_digest digests.states s) db.application_execution)
            facts.claimed.built in
      ValidRow-update application_id previous (with_state_digest digests.states candidate)
        db.application_execution db' facts.found written
        (updated-IsValid clock context.expected_operations
          (with_state_digest digests.states candidate)
          (require_clock-NotBefore clock c.now previous.started_at (previous.updated_at ∷ [])
            facts.clock_ok)
          (inl not_done) (omega (arith, room)) counted
          (claimed-fields previous.next_operation_index (length context.expected_operations)
            c.owner_id facts.draft.operation_identity previous.recovery_code previous.completed_at
            room (nonempty_owner c.owner_id facts.owner_form)
            (ap (λ (a : OperationAttempt). a.operation_identity == "") facts.first.built
              ∙ nonempty_operation digests (context_application_id digests context)
                  previous.next_operation_index facts.first.operation)
            no_code not_done))

  -- A completion that returns keeps the record in the application's row one that a
  -- status read accepts.
  pub complete-ValidRow :
      (current : Currentness)
      (application_id state_digest attempt_id attempt_digest owner_id : String)
      (live : Live OperationReceipt) (now : String) (db : Database) (state : ApplicationExecution)
      (db' : Database)
      → ValidRow application_id db
      → complete_operation_success digests clock caller context current application_id state_digest
          attempt_id attempt_digest owner_id live now db
        ≡ ok (state, db')
      → (s : ApplicationExecution)
      → lookup application_id db'.application_execution ≡ some (loads s)
      → IsValid clock context.expected_operations s
  unfolding with_state_digest continued unchanged fields_valid is_none
  complete-ValidRow current application_id state_digest attempt_id attempt_digest owner_id live now
        db state db' valid h =
      let facts =
        complete_operation_success-eq-ok digests clock caller context current application_id
          state_digest attempt_id attempt_digest owner_id live now db state db' h in
      let previous = facts.previous in
      let (counted, fields) =
        IsValid-fields clock context.expected_operations previous
          (valid previous facts.held.found) in
      let (room, no_code, not_done) =
        applying-fields (length context.expected_operations) previous
          (rw facts.held.is_applying at fields) in
      let id = live.artifact.operation_receipt_id in
      let candidate = continued digests context previous (completion_change previous id now) in
      let written : db'.application_execution
          ≡ update application_id (with_state_digest digests.states candidate)
              db.application_execution =
        ap (λ (d : Database). d.application_execution) facts.written
        ∙ ap
            (λ s.
              update application_id (with_state_digest digests.states s) db.application_execution)
            facts.continues.built in
      ValidRow-update application_id previous (with_state_digest digests.states candidate)
        db.application_execution db' facts.held.found written
        (updated-IsValid clock context.expected_operations
          (with_state_digest digests.states candidate)
          (require_clock-NotBefore clock now previous.started_at _ facts.clock_ok) (inl not_done)
          (omega (arith, room))
          (omega (arith, counted, length-append previous.operation_receipt_refs (id ∷ [])))
          (rw no_code (rw not_done (ground arith))))

  -- A finalization that returns keeps the record in the application's row one that a
  -- status read accepts.
  pub finalize-ValidRow :
      (current : Currentness) (application_id state_digest now : String) (db : Database)
      (state : ApplicationExecution) (db' : Database)
      → ValidRow application_id db
      → finalize_application digests clock caller context current application_id state_digest now db
        ≡ ok (state, db')
      → (s : ApplicationExecution)
      → lookup application_id db'.application_execution ≡ some (loads s)
      → IsValid clock context.expected_operations s
  unfolding with_state_digest continued unchanged fields_valid is_none
  finalize-ValidRow current application_id state_digest now db state db' valid h =
      let facts =
        finalize_application-eq-ok digests clock caller context current application_id state_digest
          now db state db' h in
      let previous = facts.previous in
      let (counted, fields) =
        IsValid-fields clock context.expected_operations previous (valid previous facts.found) in
      let candidate = continued digests context previous (finalization_change previous now) in
      let written : db'.application_execution
          ≡ update application_id (with_state_digest digests.states candidate)
              db.application_execution =
        ap (λ (d : Database). d.application_execution) facts.written
        ∙ ap
            (λ s.
              update application_id (with_state_digest digests.states s) db.application_execution)
            facts.continues.built in
      ValidRow-update application_id previous (with_state_digest digests.states candidate)
        db.application_execution db' facts.found written
        (updated-IsValid clock context.expected_operations
          (with_state_digest digests.states candidate)
          (require_clock-NotBefore clock now previous.started_at _ facts.clock_ok) (inr refl)
          (omega (arith, facts.complete)) counted
          (finished-fields (length context.expected_operations) previous (rw facts.partly at fields)
            facts.complete))

  -- A settlement that returns keeps the record in the application's row one that a
  -- status read accepts, where the
  -- code is not empty and the given time is not before the stored times, which the settlement itself
  -- does not check.
  pub settle-ValidRow :
      (current : Currentness)
      (application_id state_digest attempt_id attempt_digest owner_id : String)
      (state_name : Status) (code : Code) (now : String) (db : Database)
      (state : ApplicationExecution) (db' : Database)
      → ValidRow application_id db
      → is_code_missing (some code) ≡ false
      → ((s : ApplicationExecution)
          → lookup application_id db.application_execution ≡ some (loads s)
          → require_clock_not_before clock now (s.started_at ∷ s.updated_at ∷ []) ≡ ok tt)
      → settle_operation digests clock caller context current application_id state_digest attempt_id
          attempt_digest owner_id state_name code now db
        ≡ ok (state, db')
      → (s : ApplicationExecution)
      → lookup application_id db'.application_execution ≡ some (loads s)
      → IsValid clock context.expected_operations s
  unfolding with_state_digest continued unchanged
  settle-ValidRow current application_id state_digest attempt_id attempt_digest owner_id state_name
        code now db state db' valid named clock_ok h =
      let facts =
        settle_operation-eq-ok digests clock caller context current application_id state_digest
          attempt_id attempt_digest owner_id state_name code now db state db' h in
      let previous = facts.previous in
      let (counted, fields) =
        IsValid-fields clock context.expected_operations previous
          (valid previous facts.held.found) in
      let applying_fields = rw facts.held.is_applying at fields in
      let (room, no_code, not_done) =
        applying-fields (length context.expected_operations) previous applying_fields in
      let candidate =
        continued digests context previous (settlement_change previous state_name code now) in
      let written : db'.application_execution
          ≡ update application_id (with_state_digest digests.states candidate)
              db.application_execution =
        ap (λ (d : Database). d.application_execution) facts.written
        ∙ ap
            (λ s.
              update application_id (with_state_digest digests.states s) db.application_execution)
            facts.continues.built in
      ValidRow-update application_id previous (with_state_digest digests.states candidate)
        db.application_execution db' facts.held.found written
        (updated-IsValid clock context.expected_operations
          (with_state_digest digests.states candidate)
          (require_clock-NotBefore clock now previous.started_at (previous.updated_at ∷ [])
            (clock_ok previous facts.held.found))
          (inl not_done) (omega (arith, room)) counted
          (settled-fields state_name (length context.expected_operations) previous
            (with_state_digest digests.states candidate) code facts.allowed applying_fields refl
            refl refl refl refl named))
