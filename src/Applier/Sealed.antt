-- ===== src/Applier/Sealed.antt =====
-- applier.py: how the index of the application moves through the calls of one round, whoever else uses
-- the tables in between.
use delivery_system.Base.{
  ◌≡◌, refl, sym, ap, ◌∙◌, ◌+◌, ℕ_eq, String, String_eq, true, some, get_elem?, &&-eq-true,
  ==-eq-true,
}
use delivery_system.Errors.{Code, ok}
use delivery_system.Execution.{
  Status, applying, ApplicationExecution, OperationAttempt, execution_payload, with_state_digest,
  with_attempt_digest, verify_execution,
}
use delivery_system.Receipts.{Digests, OperationReceipt}
use delivery_system.Context.{ExecutionContext, Currentness, continued, unchanged, first_attempt}
use delivery_system.Store.{Database, Caller, Clock, Live}
use delivery_system.Store.Claim.{claim_next_operation}
use delivery_system.Store.Claim.Facts.{claim_next_operation-eq-ok}
use delivery_system.Store.Outcome.{complete_operation_success, settle_operation}
use delivery_system.Store.Outcome.Facts.{complete_operation_success-eq-ok, settle_operation-eq-ok}

module _ (digests : Digests) where
  -- Records of one digest have one index, as those of a digest without collisions have.
  abbrev pub DistinguishesIndex : Type 0
  DistinguishesIndex =
      (a b : ApplicationExecution)
      → digests.states.execution_digest a ≡ digests.states.execution_digest b
      → a.next_operation_index ≡ b.next_operation_index

  -- A record whose digest is the one of its payload.
  abbrev pub Sealed : ApplicationExecution → Type 0
  Sealed s = s.state_digest ≡ digests.states.execution_digest (execution_payload digests.states s)

  pub verify_execution-Sealed :
      (s : ApplicationExecution) → verify_execution digests.states s ≡ true → Sealed s
  unfolding verify_execution
  verify_execution-Sealed s h = let (f, g) = &&-eq-true _ _ h in ==-eq-true s.state_digest _ g

  pub with_state_digest-Sealed :
      (s : ApplicationExecution) → Sealed (with_state_digest digests.states s)
  unfolding with_state_digest execution_payload
  with_state_digest-Sealed s = refl

  module _ (distinguishes : DistinguishesIndex) where
    pub Sealed-same_index :
        (a b : ApplicationExecution)
        → Sealed a
        → Sealed b
        → a.state_digest ≡ b.state_digest
        → a.next_operation_index ≡ b.next_operation_index
    unfolding execution_payload
    Sealed-same_index a b sa sb h =
        distinguishes (execution_payload digests.states a) (execution_payload digests.states b)
          (sym sa ∙ (h ∙ sb))

  module _ (clock : Clock) (caller : Caller) (context : ExecutionContext) where
    -- A claim of the operation at the index that the claimant knows.
    pub record ClaimsAt (state claimed : ApplicationExecution) (attempt : OperationAttempt)
        : Type 0 where
      pub still_sealed : Sealed claimed
      pub is_applying : claimed.state ≡ applying
      pub index : claimed.next_operation_index ≡ state.next_operation_index
      pub attempt_index : attempt.operation_index ≡ state.next_operation_index
      pub operation :
          get_elem? context.expected_operations state.next_operation_index ≡ some attempt.operation

    pub claim-ClaimsAt :
        DistinguishesIndex
        → (current : Currentness) (application_id owner_id now : String)
          (state : ApplicationExecution) (db : Database) (claimed : ApplicationExecution)
          (attempt : OperationAttempt) (db' : Database)
        → Sealed state
        → claim_next_operation digests clock caller context current application_id
            state.state_digest owner_id now db
          ≡ ok (claimed, attempt, db')
        → ClaimsAt state claimed attempt
    unfolding continued unchanged with_state_digest with_attempt_digest first_attempt
    claim-ClaimsAt distinguishes current application_id owner_id now state db claimed attempt db'
          is_sealed h =
        let facts =
          claim_next_operation-eq-ok digests clock caller context current application_id
            state.state_digest owner_id now db claimed attempt db' h in
        let built : claimed
            ≡ with_state_digest digests.states (continued digests context facts.previous _) =
          facts.state_eq ∙ ap (with_state_digest digests.states) facts.claimed.built in
        let made : attempt
            ≡ with_attempt_digest digests.states (
                first_attempt digests context facts.previous.next_operation_index
                  facts.first.operation now) =
          facts.attempt_eq ∙ ap (with_attempt_digest digests.states) facts.first.built in
        let same : facts.previous.next_operation_index ≡ state.next_operation_index =
          Sealed-same_index distinguishes facts.previous state
            (verify_execution-Sealed facts.previous facts.claimed.intact) is_sealed facts.fresh in
        record {
          still_sealed =
              ap (λ (s : ApplicationExecution). s.state_digest) facts.state_eq
              ∙ (with_state_digest-Sealed facts.candidate
                  ∙ ap (λ s. digests.states.execution_digest (execution_payload digests.states s))
                      (sym facts.state_eq));
          is_applying = ap (λ (s : ApplicationExecution). s.state) built;
          index = ap (λ (s : ApplicationExecution). s.next_operation_index) built ∙ same;
          attempt_index = ap (λ (a : OperationAttempt). a.operation_index) made ∙ same;
          operation =
              ap (get_elem? context.expected_operations) (sym same)
              ∙ (facts.first.at_index ∙ ap (λ (a : OperationAttempt). some a.operation) (sym made));
        }

    -- A completion of the operation that was claimed.
    pub record CompletesAt (claimed state : ApplicationExecution) : Type 0 where
      pub still_sealed : Sealed state
      pub index : state.next_operation_index ≡ claimed.next_operation_index + 1

    pub complete-CompletesAt :
        DistinguishesIndex
        → (current : Currentness) (application_id attempt_id attempt_digest owner_id : String)
          (live : Live OperationReceipt) (now : String) (claimed : ApplicationExecution)
          (db : Database) (state : ApplicationExecution) (db' : Database)
        → Sealed claimed
        → complete_operation_success digests clock caller context current application_id
            claimed.state_digest attempt_id attempt_digest owner_id live now db
          ≡ ok (state, db')
        → CompletesAt claimed state
    unfolding continued unchanged with_state_digest
    complete-CompletesAt distinguishes current application_id attempt_id attempt_digest owner_id
          live now claimed db state db' is_sealed h =
        let facts =
          complete_operation_success-eq-ok digests clock caller context current application_id
            claimed.state_digest attempt_id attempt_digest owner_id live now db state db' h in
        let built : state
            ≡ with_state_digest digests.states (continued digests context facts.previous _) =
          facts.state_eq ∙ ap (with_state_digest digests.states) facts.continues.built in
        let same : facts.previous.next_operation_index ≡ claimed.next_operation_index =
          Sealed-same_index distinguishes facts.previous claimed
            (verify_execution-Sealed facts.previous facts.continues.intact) is_sealed
            facts.held.fresh in
        record {
          still_sealed =
              ap (λ (s : ApplicationExecution). s.state_digest) facts.state_eq
              ∙ (with_state_digest-Sealed facts.candidate
                  ∙ ap (λ s. digests.states.execution_digest (execution_payload digests.states s))
                      (sym facts.state_eq));
          index =
              ap (λ (s : ApplicationExecution). s.next_operation_index) built
              ∙ ap (λ i. i + 1) same;
        }

    -- The state that a settlement returns.
    pub settle-state :
        (current : Currentness)
        (application_id state_digest attempt_id attempt_digest owner_id : String) (target : Status)
        (code : Code) (now : String) (db : Database) (state : ApplicationExecution) (db' : Database)
        → settle_operation digests clock caller context current application_id state_digest
            attempt_id attempt_digest owner_id target code now db
          ≡ ok (state, db')
        → state.state ≡ target
    unfolding continued unchanged with_state_digest
    settle-state current application_id state_digest attempt_id attempt_digest owner_id target code
          now db state db' h =
        let facts =
          settle_operation-eq-ok digests clock caller context current application_id state_digest
            attempt_id attempt_digest owner_id target code now db state db' h in
        ap (λ (s : ApplicationExecution). s.state)
          (facts.state_eq ∙ ap (with_state_digest digests.states) facts.continues.built)
