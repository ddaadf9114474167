-- ===== src/Applier/Round.antt =====
-- applier.py: the results of `_apply`, and the rest of the world in one round of its loop. The store is
-- used by others too: between any two of its calls they may change the tables.
use delivery_system.Base.{
  ℕ, String, String_eq, Option_eq, List, [], ◌∷◌, Bool, true, false, ◌||◌, Option, none, some, ◌!=◌,
  ℕ_eq,
}
use delivery_system.Errors.{
  Code, Error, value_error, Result, application_claim_unavailable, application_state_stale,
  application_recovery_required, runtime_authority_invalid,
}
use delivery_system.WriteOperations.{OperationKind}
use delivery_system.Execution.{
  Status, Status_eq, applying, partially_applied, applied, ApplicationExecution, OperationAttempt,
}
use delivery_system.Context.{Currentness}
use delivery_system.Store.{Database}
use delivery_system.Applier.Commands.{RemoteIssueReference, Command, WriteObservation}

pub record ApplyResult : Type 0 where
  pub application_id : String
  pub state : Status
  pub next_operation_index : ℕ
  pub application_receipt_id : Option String
  pub recovery_code : Option Code

-- The rest of the world in one round of the loop: the new owner, the readings of the clock, whether the
-- context is current at each call, and what others have made of the tables before a call.
pub record Round : Type 0 where
  pub owner : String
  pub claim_time : String
  pub receipt_time : String
  pub end_time : String
  pub claim_current : Currentness
  pub validate_current : Result (Unit {0})
  pub before_dispatch : Result (Unit {0})
  pub after_dispatch : Result (Unit {0})
  pub receipt_current : Currentness
  pub end_current : Currentness
  pub receipt_registered : Bool
  pub before_claim : Database → Database
  pub before_reload : Database → Database
  pub before_receipt : Database → Database
  pub before_validation : Database → Database
  pub before_materialization : Database → Database
  pub before_end : Database → Database
  pub revalidate : String → OperationKind → List RemoteIssueReference → Result (Unit {0})
  -- `capability.dispatch`
  pub dispatch : OperationKind → Command → Result WriteObservation

-- One call of the executor: the claim that it stands on, the command, and the answer.
pub record Dispatch : Type 0 where
  pub claimed : ApplicationExecution
  pub attempt : OperationAttempt
  pub command : Command
  pub answer : Result WriteObservation

-- What a run comes to: a result or an exception, `none` where the fuel is out; the tables that it leaves,
-- and the dispatches in their order.
pub record Outcome : Type 0 where
  pub result : Option (Result ApplyResult)
  pub db : Database
  pub dispatched : List Dispatch

unfoldable pub stop : Result ApplyResult → Database → Outcome
stop result db = record { result = some result; db = db; dispatched = [] }

unfoldable pub out_of_fuel : Database → Outcome
out_of_fuel db = record { result = none; db = db; dispatched = [] }

unfoldable pub dispatching : Dispatch → Outcome → Outcome
dispatching d outcome = record outcome { dispatched = d ∷ outcome.dispatched }

-- How the loop goes on after a completed operation.
abbrev pub Continuation : Type 0
Continuation = ApplicationExecution → Database → Outcome

unfoldable pub is_contention : Code → Bool
is_contention application_claim_unavailable = true
is_contention application_state_stale = true
is_contention _ = false

-- `str(exc) == "runtime_authority_invalid"`, of a `ValueError`
unfoldable pub is_authority_invalid : Error → Bool
is_authority_invalid (value_error runtime_authority_invalid) = true
is_authority_invalid _ = false

-- `changed`
unfoldable pub has_changed : ApplicationExecution → ApplicationExecution → Bool
has_changed current state =
    current.state_digest != state.state_digest
    || (current.state != state.state
        || (current.next_operation_index != state.next_operation_index
            || (current.owner_id != state.owner_id
                || current.current_attempt_id != state.current_attempt_id)))

-- `recovery_code` of the result of a contended claim
unfoldable pub contended_code : ApplicationExecution → Option Code
contended_code current = elim current.state [
  | applied ↦ none
  | applying ↦ some application_recovery_required
  | partially_applied ↦ some application_recovery_required
  | _ ↦ current.recovery_code
]
