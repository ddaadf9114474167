-- ===== src/Store/Exclusion.antt =====
-- Who holds an application: a claim of execution_store.py shuts out every other, and a claim that has
-- ended ends no second time.
use delivery_system.Base.{
  sym, ap, ◌≢◌, ◌∙◌, String, String_eq, some, true, ◌≡◌, refl, arith, ◌⊎◌, inl, inr, eq_refl,
}
use delivery_system.Errors.{Code, ok}
use delivery_system.Execution.{
  Status, applying, partially_applied, ApplicationExecution, OperationAttempt, is_claimable,
  with_state_digest,
}
use delivery_system.Receipts.{Digests, OperationReceipt}
use delivery_system.Context.{ExecutionContext, Currentness, continued}
use delivery_system.Table.{Table, Row, loads, lookup, update, lookup-update}
use delivery_system.Store.{Database, Caller, Clock, Live}
use delivery_system.Store.Claim.{claim_next_operation}
use delivery_system.Store.Claim.Facts.{claim_next_operation-eq-ok}
use delivery_system.Store.Outcome.{is_settlement, complete_operation_success, settle_operation}
use delivery_system.Store.Outcome.Facts.{complete_operation_success-eq-ok, settle_operation-eq-ok}

-- The record that an update leaves behind, where there was one.
pub lookup-update-same {ℓ} :
    {A : Type ℓ} (k : String) (a : A) (row : Row A) (t : Table String A)
    → lookup k t ≡ some row
    → lookup k (update k a t) ≡ some (loads a)
lookup-update-same k a row t h = rw (lookup-update k k a t) (rw (eq_refl k) (rw h refl))

claimable-not-applying : (s : Status) → is_claimable s ≡ true → s ≢ applying
unfolding is_claimable
claimable-not-applying s h e = ground arith

settlement-not-applying : (s : Status) → is_settlement s ≡ true → s ≢ applying
unfolding is_settlement
settlement-not-applying s h e = ground arith

partially_applied-not-applying : partially_applied ≢ applying
partially_applied-not-applying e = cc

-- The row of an application, by the state that its record is in.
pub IsIn : String → Status → Database → Type 0
IsIn application_id status db =
    (s : ApplicationExecution) × (lookup application_id db.application_execution ≡ some (loads s))
    × (s.state ≡ status)

module _ (digests : Digests) (clock : Clock) (caller : Caller) (context : ExecutionContext) where
  -- A claim of an application's next operation that returns.
  pub record Claims (application_id : String) (db db' : Database) : Type 0 where
    pub current : Currentness
    pub digest : String
    pub owner_id : String
    pub now : String
    pub state : ApplicationExecution
    pub attempt : OperationAttempt
    pub returns :
        claim_next_operation digests clock caller context current application_id digest owner_id now
          db
        ≡ ok (state, attempt, db')

  -- An end of a claimed operation that returns, with success or without.
  pub data Ends (application_id : String) (db db' : Database) : Type 0 where
    completed :
        (current : Currentness) (state_digest attempt_id attempt_digest owner_id : String)
        (live : Live OperationReceipt) (now : String) (state : ApplicationExecution)
        → complete_operation_success digests clock caller context current application_id
            state_digest attempt_id attempt_digest owner_id live now db
          ≡ ok (state, db')
        → Ends application_id db db'
    settled :
        (current : Currentness) (state_digest attempt_id attempt_digest owner_id : String)
        (state_name : Status) (code : Code) (now : String) (state : ApplicationExecution)
        → settle_operation digests clock caller context current application_id state_digest
            attempt_id attempt_digest owner_id state_name code now db
          ≡ ok (state, db')
        → Ends application_id db db'

  pub claim-IsIn :
      (application_id : String) (db db' : Database)
      → Claims application_id db db'
      → IsIn application_id applying db'
  unfolding continued with_state_digest IsIn
  claim-IsIn application_id db db' c =
      let facts =
        claim_next_operation-eq-ok digests clock caller context c.current application_id c.digest
          c.owner_id c.now db c.state c.attempt db' c.returns in
      (
        with_state_digest digests.states facts.candidate,
        ap (λ (d : Database). lookup application_id d.application_execution) facts.written
            ∙ lookup-update-same application_id (with_state_digest digests.states facts.candidate)
                (loads facts.previous) db.application_execution facts.found,
        ap (λ (s : ApplicationExecution). s.state) facts.claimed.built,
      )

  pub claim-finds :
      (application_id : String) (db db' : Database)
      → Claims application_id db db'
      → (s : ApplicationExecution) × (lookup application_id db.application_execution
          ≡ some (loads s))
        × (is_claimable s.state ≡ true)
  claim-finds application_id db db' c =
      let facts =
        claim_next_operation-eq-ok digests clock caller context c.current application_id c.digest
          c.owner_id c.now db c.state c.attempt db' c.returns in
      (facts.previous, facts.found, facts.claimable)

  -- The state that an end leaves.
  pub ends-IsIn :
      (application_id : String) (db db' : Database)
      → Ends application_id db db'
      → (status : Status) × IsIn application_id status db'
        × ((status ≡ partially_applied) ⊎ (is_settlement status ≡ true))
  unfolding continued with_state_digest IsIn
  ends-IsIn application_id db db'
        (completed current state_digest attempt_id attempt_digest owner_id live now state h) =
      let facts =
        complete_operation_success-eq-ok digests clock caller context current application_id
          state_digest attempt_id attempt_digest owner_id live now db state db' h in
      (
        partially_applied,
        (
          with_state_digest digests.states facts.candidate,
          ap (λ (d : Database). lookup application_id d.application_execution) facts.written
              ∙ lookup-update-same application_id (with_state_digest digests.states facts.candidate)
                  (loads facts.previous) db.application_execution facts.held.found,
          ap (λ (s : ApplicationExecution). s.state) facts.continues.built,
        ),
        inl refl,
      )
  ends-IsIn application_id db db'
        (settled current state_digest attempt_id attempt_digest owner_id state_name code now state
          h) =
      let facts =
        settle_operation-eq-ok digests clock caller context current application_id state_digest
          attempt_id attempt_digest owner_id state_name code now db state db' h in
      (
        state_name,
        (
          with_state_digest digests.states facts.candidate,
          ap (λ (d : Database). lookup application_id d.application_execution) facts.written
              ∙ lookup-update-same application_id (with_state_digest digests.states facts.candidate)
                  (loads facts.previous) db.application_execution facts.held.found,
          ap (λ (s : ApplicationExecution). s.state) facts.continues.built,
        ),
        inr facts.allowed,
      )

  pub ends-finds :
      (application_id : String) (db db' : Database)
      → Ends application_id db db'
      → IsIn application_id applying db
  unfolding IsIn
  ends-finds application_id db db'
        (completed current state_digest attempt_id attempt_digest owner_id live now state h) =
      let facts =
        complete_operation_success-eq-ok digests clock caller context current application_id
          state_digest attempt_id attempt_digest owner_id live now db state db' h in
      (facts.previous, facts.held.found, facts.held.is_applying)
  ends-finds application_id db db'
        (settled current state_digest attempt_id attempt_digest owner_id state_name code now state
          h) =
      let facts =
        settle_operation-eq-ok digests clock caller context current application_id state_digest
          attempt_id attempt_digest owner_id state_name code now db state db' h in
      (facts.previous, facts.held.found, facts.held.is_applying)

IsIn-unique :
    (application_id : String) (first second : Status) (db : Database)
    → IsIn application_id first db
    → IsIn application_id second db
    → first ≡ second
unfolding IsIn
IsIn-unique application_id first second db (s, found, e) (s', found', e') = cc

-- Two callers of the store, each with an execution context of its own.
module _ (digests : Digests) (clock clock' : Clock) (caller caller' : Caller)
    (context context' : ExecutionContext) where
  -- A claim that succeeded shuts out every other: on the tables that it leaves, no claim of the same
  -- application succeeds, whoever makes it, and whatever its context, digest, owner and time are.
  pub claim_excludes :
      (application_id : String) (db db' db'' : Database)
      → Claims digests clock caller context application_id db db'
      → ¬ Claims digests clock' caller' context' application_id db' db''
  unfolding IsIn is_claimable
  claim_excludes application_id db db' db'' first second =
      let (s, found, e) = claim-IsIn digests clock caller context application_id db db' first in
      let (s', found', claimable) =
        claim-finds digests clock' caller' context' application_id db' db'' second in
      claimable-not-applying s'.state claimable
        (IsIn-unique application_id s'.state applying db' (s', found', refl) (s, found, e))

  -- A claimed operation ends once: on the tables that an end leaves, success or not, no further end
  -- of an operation of the same application succeeds, whoever makes it and whatever its context is.
  pub ends_once :
      (application_id : String) (db db' db'' : Database)
      → Ends digests clock caller context application_id db db'
      → ¬ Ends digests clock' caller' context' application_id db' db''
  unfolding is_settlement
  ends_once application_id db db' db'' first second =
      let (status, here, kind) =
        ends-IsIn digests clock caller context application_id db db' first in
      let same =
        IsIn-unique application_id status applying db' here
          (ends-finds digests clock' caller' context' application_id db' db'' second) in
      elim kind [
        | inl e ↦ partially_applied-not-applying (sym e ∙ same)
        | inr settles ↦ settlement-not-applying status settles same
      ]
