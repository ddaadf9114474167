-- ===== src/Status.antt =====
-- `_validate_execution_state_invariants` of runtime.py: what a status read demands of a stored record
-- before it shows it.
pub mod Kept
pub mod Fields
pub mod Written
use delivery_system.Base.{
  ℕ, ℕ_eq, String, String_eq, List, Bool, true, false, not, ◌&&◌, ◌||◌, Option, none, some, ◌==◌,
  ◌!=◌, ltb, length,
}
use delivery_system.Errors.{
  Code, other, Result, ok, err, ◌>>=◌, ◌>>◌, raise, raise_if, state_integrity_invalid,
}
use delivery_system.WriteOperations.{WriteOperation}
use delivery_system.Execution.{
  Status, pending, applying, partially_applied, failed, blocked, outcome_unknown, applied,
  ApplicationExecution, is_none,
}
use delivery_system.Execution.Transitions.{is_missing}
use delivery_system.Store.{Clock, execution_timestamp}

-- `type(code) is str and bool(code)` fails.
unfoldable pub is_code_missing : Option Code → Bool
is_code_missing none = true
is_code_missing (some (other s)) = s == ""
is_code_missing (some _) = false

-- What the coordination fields must be in each state, with `completed` of `total` operations done.
unfoldable pub fields_valid : Status → ℕ → ApplicationExecution → Bool
unfolding is_none is_missing is_code_missing
fields_valid pending total s =
    s.next_operation_index == 0
    && (is_none s.owner_id
        && (is_none s.current_attempt_id && (is_none s.recovery_code && is_none s.completed_at)))
fields_valid applying total s =
    ltb s.next_operation_index total
    && (not (is_missing s.owner_id)
        && (not (is_missing s.current_attempt_id)
            && (is_none s.recovery_code && is_none s.completed_at)))
fields_valid partially_applied total s =
    ltb 0 s.next_operation_index
    && (is_none s.owner_id
        && (is_none s.current_attempt_id && (is_none s.recovery_code && is_none s.completed_at)))
fields_valid applied total s =
    s.next_operation_index == total
    && (is_none s.owner_id
        && (is_none s.current_attempt_id
            && (is_none s.recovery_code && not (is_none s.completed_at))))
fields_valid _ total s =
    ltb s.next_operation_index total
    && (is_none s.owner_id
        && (not (is_missing s.current_attempt_id)
            && (not (is_code_missing s.recovery_code) && is_none s.completed_at)))

-- `except …: raise ValueError(code)`: whatever was raised becomes the code.
unfoldable pub recast {ℓ} : {A : Type ℓ} → Result A → Code → Result A
recast (ok a) code = ok a
recast (err e) code = raise code

module _ (clock : Clock) where
  unfoldable pub check_completed_at : Option String → ℕ → Result (Unit {0})
  check_completed_at none updated = ok tt
  check_completed_at (some value) updated = do
    completed_at ← execution_timestamp clock value
    raise_if (ltb completed_at updated) state_integrity_invalid

  -- The index is a natural number, so `completed < 0` needs no test.
  unfoldable pub check_state : ApplicationExecution → List WriteOperation → Result (Unit {0})
  unfolding check_completed_at
  check_state s operations = do
    started ← execution_timestamp clock s.started_at
    updated ← execution_timestamp clock s.updated_at
    raise_if (ltb updated started) state_integrity_invalid
    check_completed_at s.completed_at updated
    raise_if
        (ltb (length operations) s.next_operation_index
          || length s.operation_receipt_refs != s.next_operation_index)
        state_integrity_invalid
    raise_if (not (fields_valid s.state (length operations) s)) state_integrity_invalid

  unfoldable pub validate_execution_state_invariants :
      ApplicationExecution → List WriteOperation → Result (Unit {0})
  unfolding check_state
  validate_execution_state_invariants s operations =
      recast (check_state s operations) state_integrity_invalid
