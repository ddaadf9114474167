-- ===== src/Applier/Trace.antt =====
-- What a run of the loop of applier.py may come to, by the commands that it dispatches: an abstract
-- account of `_apply` that leaves out the tables, the clock and the owners.
use delivery_system.Base.{
  ◌≡◌, ℕ, ◌+◌, suc, List, [], ◌∷◌, true, false, Option, none, some, get_elem?, length, ltb,
}
use delivery_system.Errors.{
  Code, Error, value_error, Result, ok, err, application_recovery_required,
}
use delivery_system.Execution.{applying, blocked, ApplicationExecution, OperationAttempt}
use delivery_system.Receipts.{Digests, RemoteResult}
use delivery_system.Context.{ExecutionContext, context_application_id}
use delivery_system.Store.{Database, Caller, Clock}
use delivery_system.Applier.Commands.{TextLibrary, WriteObservation, definitive_success}
use delivery_system.Applier.Evidence.{trusted_success_result}
use delivery_system.Applier.References.{SealedContent}
use delivery_system.Applier.Round.{ApplyResult, Round, Dispatch, Outcome, Continuation}
use delivery_system.Applier.Materialize.{materialize}
use delivery_system.Applier.Settlement.{RefusingCode, SettledAs}
use delivery_system.Store.Claim.{claim_next_operation}
use delivery_system.Store.Read.{validate_claim}
use delivery_system.Applier.Sealed.{Sealed}

-- What is reported after the last dispatch of a run that was not followed by another.
pub data Reported (d : Dispatch) : Result ApplyResult → Type 0 where
  raises : (e : Error) → Reported d (err e)
  -- the operation stays claimed
  recovers :
      (r : ApplyResult)
      → r.state ≡ applying
      → r.recovery_code ≡ some application_recovery_required
      → Reported d (ok r)
  -- the credential was refused before anything was written
  refuses :
      (r : ApplyResult) (code : Code)
      → d.answer ≡ err (value_error code)
      → RefusingCode code
      → r.state ≡ blocked
      → r.recovery_code ≡ some code
      → Reported d (ok r)
  settles :
      (r : ApplyResult) (observation : WriteObservation)
      → d.answer ≡ ok observation
      → SettledAs observation r
      → Reported d (ok r)

module _ (digests : Digests) (clock : Clock) (texts : TextLibrary) (caller : Caller)
    (context : ExecutionContext) (content : SealedContent) where
  -- A dispatch in a round, of the operation expected at an index: on tables that others have left, the
  -- claim of the next operation succeeded and returned what the dispatch stands on; on what others
  -- then made of the claim's tables, `validate_claim` read the claim back, and after that the command
  -- was made from the operation; the context was current, and the answer is the executor's.
  pub record IsNext (round : Round) (index : ℕ) (d : Dispatch) : Type 0 where
    pub operation : get_elem? context.expected_operations index ≡ some d.attempt.operation
    pub attempt_index : d.attempt.operation_index ≡ index
    pub claimed_index : d.claimed.next_operation_index ≡ index
    pub is_applying : d.claimed.state ≡ applying
    pub previous : ApplicationExecution
    pub tables : Database
    pub tables_claimed : Database
    pub claims :
        claim_next_operation digests clock caller context round.claim_current
          (context_application_id digests context)
          previous.state_digest
          round.owner
          round.claim_time
          tables
        ≡ ok (d.claimed, d.attempt, tables_claimed)
    pub held : ApplicationExecution × OperationAttempt
    pub read_back :
        validate_claim digests context.identity.workspace_identity caller round.validate_current
          (context_application_id digests context)
          d.claimed.state_digest
          d.attempt.operation_identity
          d.attempt.attempt_digest
          round.owner
          (round.before_validation tables_claimed)
        ≡ ok held
    pub made :
        materialize digests texts context
          (record content { revalidate = round.revalidate })
          d.attempt
          (round.before_materialization (round.before_validation tables_claimed))
        ≡ ok d.command
    pub current : round.before_dispatch ≡ ok tt
    pub sent : d.answer ≡ round.dispatch d.attempt.operation.operation_kind d.command

  -- A dispatch whose answer is a definitive success with evidence that is trusted.
  pub record Succeeded (d : Dispatch) : Type 0 where
    pub observation : WriteObservation
    pub answered_so : d.answer ≡ ok observation
    pub definitive : observation.kind ≡ definitive_success
    pub remote : RemoteResult
    pub trusted :
        trusted_success_result digests.result_payload_digest content.repository_identity
          d.attempt.operation.operation_kind observation
        ≡ ok remote

  module _ (rounds : ℕ → Round) where
    -- The runs from a round and an index on, of at most so many rounds, by their dispatches and their
    -- result, `none` where the rounds are used up.
    pub data Trace : ℕ → ℕ → ℕ → List Dispatch → Option (Result ApplyResult) → Type 0 where
      unfinished : {k index : ℕ} → Trace k 0 index [] none
      -- nothing is left: the application is finalized
      finalizes :
          {k fuel index : ℕ} (result : Result ApplyResult)
          → ltb index (length context.expected_operations) ≡ false
          → Trace k (suc fuel) index [] (some result)
      -- the next operation is not dispatched
      stops :
          {k fuel index : ℕ} (result : Result ApplyResult)
          → ltb index (length context.expected_operations) ≡ true
          → Trace k (suc fuel) index [] (some result)
      -- the next operation is dispatched, and no other
      ends :
          {k fuel index : ℕ} (d : Dispatch) (result : Result ApplyResult)
          → IsNext (rounds k) index d
          → Reported d result
          → Trace k (suc fuel) index (d ∷ []) (some result)
      -- the next operation is dispatched and succeeds
      goes_on :
          {k fuel index : ℕ} (d : Dispatch) (ds : List Dispatch)
          (result : Option (Result ApplyResult))
          → IsNext (rounds k) index d
          → Succeeded d
          → Trace (k + 1) fuel (index + 1) ds result
          → Trace k (suc fuel) index (d ∷ ds) result

    -- The trace of an outcome, after a dispatch where there was one.
    abbrev pub TraceOf : ℕ → ℕ → ℕ → Outcome → Type 0
    TraceOf k fuel index o = Trace k fuel index o.dispatched o.result

    abbrev pub TraceAfter : ℕ → ℕ → ℕ → Dispatch → Outcome → Type 0
    TraceAfter k fuel index d o = Trace k (suc fuel) index (d ∷ o.dispatched) o.result

    -- What the loop's next round owes to this one.
    abbrev pub Continues : ℕ → ℕ → ℕ → Continuation → Type 0
    Continues k fuel index next =
        (state : ApplicationExecution) (db : Database)
        → Sealed digests state
        → state.next_operation_index ≡ index + 1
        → TraceOf (k + 1) fuel (index + 1) (next state db)
