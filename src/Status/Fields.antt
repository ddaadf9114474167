-- ===== src/Status/Fields.antt =====
-- `_validate_execution_state_invariants` of runtime.py, state by state: the fields that the records
-- written by execution_store.py have.
use Prim.Native.String.{count, ◌++◌}
use text.Mathlib.TextLemmas
use delivery_system.Base.{
  ap, ℕ, ℕ_eq, ◌<◌, String, String_eq, Option, none, some, Bool, true, false, not, ◌&&◌, ◌==◌, ◌≡◌,
  arith, ltb, leb, Bool-cases, ==-eq-true, ==_ne, eq_refl, inl, inr,
}
use delivery_system.Errors.{Code}
use delivery_system.WriteOperations.{WriteOperation}
use delivery_system.Identity.{operation_identity}
use delivery_system.Execution.{
  Status, pending, applying, partially_applied, failed, blocked, outcome_unknown,
  ApplicationExecution, is_none, is_claimable,
}
use delivery_system.Execution.Transitions.{is_missing}
use delivery_system.Receipts.{Digests}
use delivery_system.Store.{is_owner_id}
use delivery_system.Store.Outcome.{is_settlement}
use delivery_system.Status.{fields_valid, is_code_missing}

pub nonempty_owner : (owner : String) → is_owner_id owner ≡ true → (owner == "") ≡ false
unfolding is_owner_id
nonempty_owner owner h = elim (Bool-cases (owner == "")) [
  | inl e ↦ (let impossible : is_owner_id "" ≡ true = rw (==-eq-true owner "" e) at h in cc)
  | inr e ↦ e
]

pub nonempty_operation :
    (digests : Digests) (application_id : String) (index : ℕ) (operation : WriteOperation)
    → (operation_identity digests.states.identities application_id index operation == "") ≡ false
unfolding operation_identity
nonempty_operation digests application_id index operation =
    let id = operation_identity digests.states.identities application_id index operation in
    let hex = digests.states.identities.operation_hex application_id index operation in
    ==_ne {A = String} id "" (λ e.
      let counted : count ("operation-" ++ hex) ≡ 0 = ap count e in
      omega (arith, counted, TextLemmas.length-append "operation-" hex))

pub claimable-fields :
    (state : Status) (total : ℕ) (s : ApplicationExecution)
    → is_claimable state ≡ true
    → fields_valid state total s ≡ true
    → (s.recovery_code ≡ none) × (s.completed_at ≡ none)
unfolding is_claimable fields_valid is_none
claimable-fields pending total s c h = ground arith
claimable-fields partially_applied total s c h = ground arith
claimable-fields _ total s c h = cc

pub applying-fields :
    (total : ℕ) (s : ApplicationExecution)
    → fields_valid applying total s ≡ true
    → (s.next_operation_index < total) × (s.recovery_code ≡ none) × (s.completed_at ≡ none)
unfolding fields_valid is_none is_missing
applying-fields total s h = ground arith

-- The fields of a claimed record.
pub claimed-fields :
    (index total : ℕ) (owner id : String) (code : Option Code) (finish : Option String)
    → index < total
    → (owner == "") ≡ false
    → (id == "") ≡ false
    → code ≡ none
    → finish ≡ none
    → (ltb index total
        && (not (owner == "") && (not (id == "") && (is_none code && is_none finish))))
      ≡ true
unfolding is_none
claimed-fields index total owner id code finish room o i c d =
    rw o (rw i (rw c (rw d (ground arith))))

-- The fields of a finished record.
pub finished-fields :
    (total : ℕ) (s : ApplicationExecution)
    → fields_valid partially_applied total s ≡ true
    → s.next_operation_index ≡ total
    → (s.next_operation_index == total
        && (is_none s.owner_id
            && (is_none s.current_attempt_id && (is_none s.recovery_code && true))))
      ≡ true
unfolding fields_valid is_none
finished-fields total s h e = rw e (rw (eq_refl total) (ground arith))

drop-two :
    (x y z w v : Bool)
    → (x && (y && (z && (w && v)))) ≡ true
    → (x && (true && (z && (true && v)))) ≡ true
drop-two x y z w v h = ground arith

-- The fields of a settled record, from those of the one that was applying.
ended-fields :
    (total : ℕ) (s s' : ApplicationExecution) (code : Code)
    → fields_valid applying total s ≡ true
    → s'.next_operation_index ≡ s.next_operation_index
    → s'.owner_id ≡ none
    → s'.current_attempt_id ≡ s.current_attempt_id
    → s'.recovery_code ≡ some code
    → s'.completed_at ≡ s.completed_at
    → is_code_missing (some code) ≡ false
    → (ltb s'.next_operation_index total
        && (is_none s'.owner_id
            && (not (is_missing s'.current_attempt_id)
                && (not (is_code_missing s'.recovery_code) && is_none s'.completed_at))))
      ≡ true
unfolding fields_valid is_none
ended-fields total s s' code k a b c d e named = rw a (
    rw b (
      rw c (
        rw d (
          rw e (
            rw named (
              drop-two (ltb s.next_operation_index total) (not (is_missing s.owner_id))
                (not (is_missing s.current_attempt_id)) (is_none s.recovery_code)
                (is_none s.completed_at) k))))))

pub settled-fields :
    (state : Status) (total : ℕ) (s s' : ApplicationExecution) (code : Code)
    → is_settlement state ≡ true
    → fields_valid applying total s ≡ true
    → s'.next_operation_index ≡ s.next_operation_index
    → s'.owner_id ≡ none
    → s'.current_attempt_id ≡ s.current_attempt_id
    → s'.recovery_code ≡ some code
    → s'.completed_at ≡ s.completed_at
    → is_code_missing (some code) ≡ false
    → fields_valid state total s' ≡ true
unfolding fields_valid is_settlement
settled-fields failed total s s' code h k a b c d e n = ended-fields total s s' code k a b c d e n
settled-fields blocked total s s' code h k a b c d e n = ended-fields total s s' code k a b c d e n
settled-fields outcome_unknown total s s' code h k a b c d e n =
    ended-fields total s s' code k a b c d e n
settled-fields _ total s s' code h k a b c d e n = cc

pub leb-room : (m n : ℕ) → leb m n ≡ false → n < m
leb-room m n h = ground arith
