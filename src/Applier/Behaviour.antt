-- ===== src/Applier/Behaviour.antt =====
-- What `_apply` of applier.py does, whatever the rest of the world answers and whatever others make of
-- the tables between its calls.
use delivery_system.Base.{
  ◌≡◌, refl, ◌≢◌, ℕ, ◌+◌, ◌≤◌, suc, String, String_eq, none, some, length, arith,
}
use delivery_system.Errors.{Result, ok, err, >>=-eq-ok}
use delivery_system.Execution.{
  Status, pending, applying, partially_applied, failed, blocked, outcome_unknown, applied,
  ApplicationExecution,
}
use delivery_system.Receipts.{Digests}
use delivery_system.Context.{ExecutionContext, Currentness}
use delivery_system.Store.{Database, Caller, Clock}
use delivery_system.Applier.Commands.{TextLibrary}
use delivery_system.Applier.References.{SealedContent}
use delivery_system.Applier.Round.{ApplyResult, Round, stop}
use delivery_system.Applier.Start.{after_creation, apply, new_execution_state, resume}
use delivery_system.Applier.Loop.{apply_loop}
use delivery_system.Applier.Sealed.{DistinguishesIndex, Sealed}
use delivery_system.Applier.Creation.{create-Sealed}
use delivery_system.Applier.Run.{apply_loop-Trace}
use delivery_system.Applier.Promises.{Trace-enough, Trace-bound, AllSucceeded, Trace-applied}

module _ (digests : Digests) (clock : Clock) (texts : TextLibrary) (caller : Caller)
    (context : ExecutionContext) (content : SealedContent)
    (distinguishes : DistinguishesIndex digests) (rounds : ℕ → Round) (k : ℕ)
    (state : ApplicationExecution) (db : Database) (is_sealed : Sealed digests state) where
  -- Fuel for one round more than there are operations left is enough for the loop to return or to
  -- raise, from a record with its own digest, where digests tell records of different indices
  -- apart.
  pub apply_loop-enough :
      (fuel : ℕ)
      → length context.expected_operations ≤ state.next_operation_index + fuel
      → (apply_loop digests clock texts caller context content (suc fuel) rounds k state db).result
        ≢ none
  apply_loop-enough fuel enough =
      Trace-enough digests clock texts caller context content rounds k fuel
        state.next_operation_index _ _
        (apply_loop-Trace digests clock texts caller context content distinguishes (suc fuel) rounds
          k state db is_sealed)
        enough

  -- From an index that is not past the end, the loop dispatches no more commands than there are
  -- operations left: the index and the number of dispatches together stay within the expected
  -- operations, where digests tell records of different indices apart.
  pub apply_loop-bound :
      (fuel : ℕ)
      → state.next_operation_index ≤ length context.expected_operations
      → state.next_operation_index
          + length
              (apply_loop digests clock texts caller context content fuel rounds k state
                db).dispatched
        ≤ length context.expected_operations
  apply_loop-bound fuel start =
      Trace-bound digests clock texts caller context content rounds k fuel
        state.next_operation_index _ _
        (apply_loop-Trace digests clock texts caller context content distinguishes fuel rounds k
          state db is_sealed)
        start

  -- A loop whose result is an applied application has had a definitive success with trusted
  -- evidence for every command that it dispatched, where digests tell records of different indices
  -- apart.
  pub apply_loop-applied :
      (fuel : ℕ) (r : ApplyResult)
      → (apply_loop digests clock texts caller context content fuel rounds k state db).result
        ≡ some (ok r)
      → r.state ≡ applied
      → AllSucceeded digests clock texts caller context content
          (apply_loop digests clock texts caller context content fuel rounds k state db).dispatched
  apply_loop-applied fuel r h is_applied =
      Trace-applied digests clock texts caller context content rounds k fuel
        state.next_operation_index _ r
        (rw⁻¹ h (
          apply_loop-Trace digests clock texts caller context content distinguishes fuel rounds k
            state db is_sealed))
        is_applied

module _ (digests : Digests) (clock : Clock) (texts : TextLibrary) (caller : Caller)
    (context : ExecutionContext) (content : SealedContent) where
  module _ (distinguishes : DistinguishesIndex digests) where
    resume-returns :
        (status : Status) (rounds : ℕ → Round) (state : ApplicationExecution) (db : Database)
        → Sealed digests state
        → (resume digests clock texts caller context content status
            (suc (length context.expected_operations))
            rounds
            state
            db).result
          ≢ none
    unfolding resume stop
    resume-returns applied rounds state db is_sealed h = cc
    resume-returns applying rounds state db is_sealed h = cc
    resume-returns failed rounds state db is_sealed h = cc
    resume-returns blocked rounds state db is_sealed h = cc
    resume-returns outcome_unknown rounds state db is_sealed h = cc
    resume-returns pending rounds state db is_sealed h =
        apply_loop-enough digests clock texts caller context content distinguishes rounds 0 state db
          is_sealed (length context.expected_operations) (omega arith) h
    resume-returns partially_applied rounds state db is_sealed h =
        apply_loop-enough digests clock texts caller context content distinguishes rounds 0 state db
          is_sealed (length context.expected_operations) (omega arith) h

    after_creation-returns :
        (rounds : ℕ → Round) (db : Database) (created : Result (ApplicationExecution × Database))
        → ((state : ApplicationExecution) (db' : Database)
            → created ≡ ok (state, db')
            → Sealed digests state)
        → (after_creation digests clock texts caller context content
            (suc (length context.expected_operations))
            rounds
            db
            created).result
          ≢ none
    unfolding after_creation stop
    after_creation-returns rounds db (err e) sealed_so h = cc
    after_creation-returns rounds db (ok (state, db')) sealed_so h =
        resume-returns state.state rounds state db' (sealed_so state db' refl) h

    -- Where digests tell records of different indices apart, a whole run of `_apply` with one round
    -- more than there are operations returns or raises, whatever the tables hold at first, whatever
    -- others make of them in between, and whatever the clock, the executor and the registry answer.
    pub apply-returns :
        (rounds : ℕ → Round) (current : Currentness) (new_current : Result (Unit {0}))
        (now : String) (db : Database)
        → (apply digests clock texts caller context content
            (suc (length context.expected_operations))
            rounds
            current
            new_current
            now
            db).result
          ≢ none
    unfolding apply
    apply-returns rounds current new_current now db =
        after_creation-returns rounds db _ (λ state db' h.
          let (initial, made, created) =
            >>=-eq-ok
              (new_execution_state digests clock texts caller context content new_current now) _
              h in
          create-Sealed digests clock caller context current _ db state db' created)
