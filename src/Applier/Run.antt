-- ===== src/Applier/Run.antt =====
-- A whole run of `_apply` of applier.py keeps to its abstract account.
use delivery_system.Base.{
  ◌≡◌, refl, sym, ap, ◌∙◌, inl, inr, ℕ, ◌+◌, zero, suc, true, false, get_elem?, length, ltb,
  Bool-cases,
}
use delivery_system.Errors.{
  Code, Error, value_error, raised, integrity_error, Result, ok, err, >>=-eq-ok,
}
use delivery_system.Execution.{ApplicationExecution, OperationAttempt}
use delivery_system.Receipts.{Digests}
use delivery_system.Context.{ExecutionContext, context_application_id}
use delivery_system.Store.{Database, Caller, Clock}
use delivery_system.Applier.Commands.{TextLibrary, Command}
use delivery_system.Applier.References.{SealedContent}
use delivery_system.Applier.Round.{
  Round, Dispatch, Continuation, stop, dispatching, is_authority_invalid, is_contention,
  out_of_fuel,
}
use delivery_system.Applier.Loop.{
  recover, conclude, dispatch_command, materialized, checked_command, after_claim, attempt_next,
  after_finalization, finish, apply_loop,
}
use delivery_system.Applier.Sealed.{DistinguishesIndex, Sealed, claim-ClaimsAt}
use delivery_system.Applier.Trace.{unfinished, finalizes, stops, TraceOf, Continues}
use delivery_system.Store.Claim.{claim_next_operation}
use delivery_system.Store.Read.{validate_claim}
use delivery_system.Applier.Materialize.{materialize}
use delivery_system.Applier.Refinement.{guarded-elim, answered-Trace}

module _ (digests : Digests) (clock : Clock) (texts : TextLibrary) (caller : Caller)
    (context : ExecutionContext) (content : SealedContent) (fuel : ℕ) (rounds : ℕ → Round)
    (k : ℕ) where
  abbrev round : Round
  round = rounds k

  abbrev IsLeft : ℕ → Type 0
  IsLeft index = ltb index (length context.expected_operations) ≡ true

  recover-stops :
      (index : ℕ) (claimed : ApplicationExecution) (db : Database) (e : Error)
      → IsLeft index
      → TraceOf digests clock texts caller context content rounds k
          (suc fuel)
          index
          (recover digests clock texts caller context content claimed db e)
  unfolding recover stop
  recover-stops index claimed db e left = elim (Bool-cases (is_authority_invalid e)) [
    | inl h ↦ rw h (stops _ left)
    | inr h ↦ rw h (stops _ left)
  ]

  conclude-stops :
      (code : Code) (index : ℕ) (db : Database) (settled : Result (ApplicationExecution × Database))
      → IsLeft index
      → TraceOf digests clock texts caller context content rounds k
          (suc fuel)
          index
          (conclude digests clock texts caller context content code db settled)
  unfolding conclude stop
  conclude-stops code index db (ok (state, db')) left = stops _ left
  conclude-stops code index db (err e) left = stops _ left

  module _ (distinguishes : DistinguishesIndex digests) where
    -- What a command was made from.
    checked_command-made :
        (r : Round) (claimed : ApplicationExecution) (attempt : OperationAttempt) (db : Database)
        (command : Command)
        → checked_command digests clock texts caller context content r claimed attempt db
          ≡ ok command
        → (held : ApplicationExecution × OperationAttempt) × (validate_claim digests
              context.identity.workspace_identity caller r.validate_current
              (context_application_id digests context)
              claimed.state_digest
              attempt.operation_identity
              attempt.attempt_digest
              r.owner
              (r.before_validation db)
            ≡ ok held)
          × (materialize digests texts context
                (record content { revalidate = r.revalidate })
                attempt
                (r.before_materialization (r.before_validation db))
              ≡ ok command)
    unfolding checked_command
    checked_command-made r claimed attempt db command h = >>=-eq-ok _ _ h

    materialized-Trace :
        (made : Result Command) (index : ℕ) (next : Continuation)
        (state claimed : ApplicationExecution) (attempt : OperationAttempt)
        (tables tables_claimed : Database)
        → IsLeft index
        → Continues digests clock texts caller context content rounds k fuel index next
        → state.next_operation_index ≡ index
        → Sealed digests state
        → claim_next_operation digests clock caller context round.claim_current
            (context_application_id digests context)
            state.state_digest
            round.owner
            round.claim_time
            tables
          ≡ ok (claimed, attempt, tables_claimed)
        → checked_command digests clock texts caller context content round claimed attempt
            tables_claimed
          ≡ made
        → TraceOf digests clock texts caller context content rounds k (suc fuel) index (
            materialized digests clock texts caller context content round next claimed attempt
              (round.before_materialization (round.before_validation tables_claimed))
              made)
    unfolding materialized dispatch_command dispatching stop
    materialized-Trace (ok command) index next state claimed attempt tables tables_claimed left
          continues at is_sealed claims checked =
        let db = round.before_materialization (round.before_validation tables_claimed) in
        let at_claim =
          claim-ClaimsAt digests clock caller context distinguishes round.claim_current _
            round.owner round.claim_time state tables claimed attempt tables_claimed is_sealed
            claims in
        let (held, read_back, made) =
          checked_command-made round claimed attempt tables_claimed command checked in
        let d : Dispatch = record {
          claimed = claimed;
          attempt = attempt;
          command = command;
          answer = round.dispatch attempt.operation.operation_kind command;
        } in
        guarded-elim digests clock texts caller context content fuel rounds k
          (TraceOf digests clock texts caller context content rounds k (suc fuel) index)
          round.before_dispatch claimed db _ (λ e. recover-stops index claimed db e left)
          (λ is_current.
            answered-Trace digests clock texts caller context content fuel rounds k distinguishes
              (round.dispatch attempt.operation.operation_kind command) index round next d db
              continues
              (record {
                operation =
                    ap (get_elem? context.expected_operations) (sym at) ∙ at_claim.operation;
                attempt_index = at_claim.attempt_index ∙ at;
                claimed_index = at_claim.index ∙ at;
                is_applying = at_claim.is_applying;
                previous = state;
                tables = tables;
                tables_claimed = tables_claimed;
                claims = claims;
                held = held;
                read_back = read_back;
                made = made;
                current = is_current;
                sent = refl;
              })
              at_claim.still_sealed refl)
    materialized-Trace (err (value_error code)) index next state claimed attempt tables
          tables_claimed left continues at is_sealed claims checked =
        conclude-stops code index
          (round.before_end (round.before_materialization (round.before_validation tables_claimed)))
          _ left
    materialized-Trace (err integrity_error) index next state claimed attempt tables tables_claimed
          left continues at is_sealed claims checked =
        stops _ left
    materialized-Trace (err (raised name)) index next state claimed attempt tables tables_claimed
          left continues at is_sealed claims checked =
        stops _ left

    after_claim-Trace :
        (claim : Result (ApplicationExecution × OperationAttempt × Database)) (index : ℕ)
        (next : Continuation) (state : ApplicationExecution) (db : Database)
        → IsLeft index
        → Continues digests clock texts caller context content rounds k fuel index next
        → Sealed digests state
        → state.next_operation_index ≡ index
        → claim_next_operation digests clock caller context round.claim_current
            (context_application_id digests context)
            state.state_digest
            round.owner
            round.claim_time
            db
          ≡ claim
        → TraceOf digests clock texts caller context content rounds k
            (suc fuel)
            index
            (after_claim digests clock texts caller context content round next state db claim)
    unfolding after_claim stop
    after_claim-Trace (ok (claimed, attempt, db')) index next state db left continues is_sealed at
          h =
        materialized-Trace
          (checked_command digests clock texts caller context content round claimed attempt db')
          index next state claimed attempt db db' left continues at is_sealed h refl
    after_claim-Trace (err (value_error code)) index next state db left continues is_sealed at h =
        elim (Bool-cases (is_contention code)) [
          | inl k ↦ rw k (stops _ left)
          | inr k ↦ rw k (stops _ left)
        ]
    after_claim-Trace (err integrity_error) index next state db left continues is_sealed at h =
        stops _ left
    after_claim-Trace (err (raised name)) index next state db left continues is_sealed at h =
        stops _ left

    after_finalization-Trace :
        (index : ℕ) (db : Database) (finalized : Result (ApplicationExecution × Database))
        → ltb index (length context.expected_operations) ≡ false
        → TraceOf digests clock texts caller context content rounds k
            (suc fuel)
            index
            (after_finalization digests clock texts caller context content round db finalized)
    unfolding after_finalization stop
    after_finalization-Trace index db (ok (state, db')) none_left = finalizes _ none_left
    after_finalization-Trace index db (err e) none_left = finalizes _ none_left

module _ (digests : Digests) (clock : Clock) (texts : TextLibrary) (caller : Caller)
    (context : ExecutionContext) (content : SealedContent)
    (distinguishes : DistinguishesIndex digests) where
  -- With digests that tell records of different indices apart, the loop of `_apply`, from a record
  -- with its own digest, on any fuel and with any answers of the rest of the world, whatever others
  -- make of the tables between its calls, is a run of the abstract account from the record's index:
  -- it dispatches the expected operations one by one from that index on, each in a round of its own
  -- that claimed it, read the claim back and made the command from it, goes on only after a definitive
  -- success with trusted evidence, and reports the last dispatch as the account says: as an error, as
  -- still claimed and to be recovered, or settled by the code of the refusal or of the observation.
  pub apply_loop-Trace :
      (fuel : ℕ) (rounds : ℕ → Round) (k : ℕ) (state : ApplicationExecution) (db : Database)
      → Sealed digests state
      → TraceOf digests clock texts caller context content rounds k fuel state.next_operation_index
          (apply_loop digests clock texts caller context content fuel rounds k state db)
  unfolding apply_loop attempt_next finish out_of_fuel
  apply_loop-Trace zero rounds k state db is_sealed = unfinished
  apply_loop-Trace (suc fuel) rounds k state db is_sealed =
      let continues : Continues digests clock texts caller context content rounds k fuel
          state.next_operation_index
          (apply_loop digests clock texts caller context content fuel rounds (k + 1)) =
        λ state' db' is_sealed' at.
          rw⁻¹ at (apply_loop-Trace fuel rounds (k + 1) state' db' is_sealed') in
      elim (Bool-cases (ltb state.next_operation_index (length context.expected_operations))) [
        | inl left ↦ rw left (
            after_claim-Trace digests clock texts caller context content fuel rounds k distinguishes
              _ state.next_operation_index _ state ((rounds k).before_claim db) left continues
              is_sealed refl refl)
        | inr none_left ↦ rw none_left (
            after_finalization-Trace digests clock texts caller context content fuel rounds k
              distinguishes state.next_operation_index ((rounds k).before_end db) _ none_left)
      ]
