-- ===== src/Store.antt =====
-- execution_store.py: the four tables of `SQLiteExecutionStore`, restricted to the rows of its
-- workspace, and what its methods share.
pub mod Claim
pub mod Outcome
pub mod Finalize
pub mod Exclusion
pub mod Run
pub mod Progress
pub mod Completion
pub mod Finalization
pub mod Read
pub mod Generic
use Prim.Native.String.{count}
use text.Mathlib.Text.{starts_with}
use delivery_system.Base.{
  ℕ, ℕ_eq, String, String_eq, List, [], ◌∷◌, Bool, true, false, not, ◌&&◌, ◌||◌, Option, none, some,
  ◌==◌, ◌!=◌, ltb,
}
use delivery_system.Errors.{
  Code, Result, ok, ◌>>=◌, ◌>>◌, raise_if, or_raise, execution_clock_invalid,
  applier_orchestration_required,
}
use delivery_system.Execution.{ApplicationExecution, OperationAttempt}
use delivery_system.Receipts.{OperationReceipt, ApplicationReceipt}
use delivery_system.Table.{Table, OperationKey}

pub record Database : Type 0 where
  pub application_execution : Table String ApplicationExecution
  pub operation_attempts : Table OperationKey OperationAttempt
  pub operation_receipts : Table OperationKey OperationReceipt
  pub application_receipts : Table String ApplicationReceipt

-- What `_require_orchestration_capability` looks at.
pub record Caller : Type 0 where
  pub orchestration_enabled : Bool
  pub capability_valid : Bool

unfoldable pub require_orchestration : Caller → Result (Unit {0})
require_orchestration caller =
    raise_if (not caller.orchestration_enabled || not caller.capability_valid)
      applier_orchestration_required

-- `datetime`: reading an ISO text that ends in `Z` as an instant in UTC, and writing an instant so.
pub record Clock : Type 0 where
  pub read_utc : String → Option ℕ
  pub write_utc : ℕ → String

module _ (clock : Clock) where
  -- `_execution_timestamp`: only the normalized text of an instant is accepted.
  unfoldable pub execution_timestamp : String → Result ℕ
  execution_timestamp value = do
    parsed ← or_raise (clock.read_utc value) execution_clock_invalid
    raise_if (clock.write_utc parsed != value) execution_clock_invalid
    ok parsed

  unfoldable pub not_before_each : ℕ → List String → Result (Unit {0})
  unfolding execution_timestamp
  not_before_each candidate [] = ok tt
  not_before_each candidate (value ∷ prior) = do
    time ← execution_timestamp value
    raise_if (ltb candidate time) execution_clock_invalid
    not_before_each candidate prior

  -- `_require_clock_not_before`
  unfoldable pub require_clock_not_before : String → List String → Result (Unit {0})
  unfolding execution_timestamp not_before_each
  require_clock_not_before candidate prior = do
    time ← execution_timestamp candidate
    not_before_each time prior

-- The form of an owner that `claim_next_operation` accepts.
unfoldable pub is_owner_id : String → Bool
is_owner_id owner = starts_with owner "execution-owner-" && count owner == 48

-- A live record as its caller hands it over: whether it belongs to the calling context, and whether
-- the service's registry holds it with its payload unchanged.
pub record Live {ℓ} (A : Type ℓ) : Type ℓ where
  pub artifact : A
  pub owned : Bool
  pub registered : Bool
