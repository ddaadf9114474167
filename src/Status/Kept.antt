-- ===== src/Status/Kept.antt =====
-- The records that execution_store.py writes are ones that a status read of runtime.py accepts.
use delivery_system.Base.{
  ℕ, ℕ_eq, ◌≤◌, String, String_eq, List, ◌∷◌, Option, none, some, true, false, not, ◌||◌, ◌!=◌, ◌≡◌,
  refl, arith, length, ltb, ||-eq-false, not-eq-false, !=-eq-false, ◌⊎◌, inl, inr,
}
use delivery_system.Errors.{
  ok, >>=-eq-ok, raise_if-then-eq-ok, raise_if-eq-ok, state_integrity_invalid,
  execution_clock_invalid,
}
use delivery_system.WriteOperations.{WriteOperation}
use delivery_system.Execution.{ApplicationExecution}
use delivery_system.Store.{Clock, execution_timestamp, not_before_each, require_clock_not_before}
use delivery_system.Status.{
  fields_valid, check_completed_at, check_state, recast, validate_execution_state_invariants,
}

ltb-irreflexive : (n : ℕ) → ltb n n ≡ false
ltb-irreflexive n = ground arith

ltb-of-≤ : (m n : ℕ) → n ≤ m → ltb m n ≡ false
ltb-of-≤ m n h = ground arith

!=-refl : (n : ℕ) → (n != n) ≡ false
!=-refl n = ground arith

module _ (clock : Clock) where
  -- A record that a status read accepts.
  abbrev pub IsValid : List WriteOperation → ApplicationExecution → Type 0
  IsValid operations s = validate_execution_state_invariants clock s operations ≡ ok tt

  -- What the time check of a write has found.
  pub record NotBefore (now earlier : String) : Type 0 where
    pub at : ℕ
    pub before : ℕ
    pub reads_now : execution_timestamp clock now ≡ ok at
    pub reads_earlier : execution_timestamp clock earlier ≡ ok before
    pub ordered : ltb at before ≡ false

  pub require_clock-NotBefore :
      (now earlier : String) (others : List String)
      → require_clock_not_before clock now (earlier ∷ others) ≡ ok tt
      → NotBefore now earlier
  unfolding require_clock_not_before not_before_each
  require_clock-NotBefore now earlier others h =
      let (at, reads_now, h1) = >>=-eq-ok (execution_timestamp clock now) _ h in
      let (before, reads_earlier, h2) = >>=-eq-ok (execution_timestamp clock earlier) _ h1 in
      let (ordered, h3) = raise_if-then-eq-ok (ltb at before) execution_clock_invalid _ h2 in
      record {
        at = at;
        before = before;
        reads_now = reads_now;
        reads_earlier = reads_earlier;
        ordered = ordered;
      }

  check-IsValid :
      (operations : List WriteOperation) (s : ApplicationExecution)
      → check_state clock s operations ≡ ok tt
      → IsValid operations s
  unfolding validate_execution_state_invariants recast
  check-IsValid operations s h = rw h refl

  IsValid-check :
      (operations : List WriteOperation) (s : ApplicationExecution)
      → IsValid operations s
      → check_state clock s operations ≡ ok tt
  unfolding validate_execution_state_invariants recast
  IsValid-check operations s h = ground arith

  -- What a valid record's fields satisfy.
  pub IsValid-fields :
      (operations : List WriteOperation) (s : ApplicationExecution)
      → IsValid operations s
      → (length s.operation_receipt_refs ≡ s.next_operation_index)
        × (fields_valid s.state (length operations) s ≡ true)
  unfolding check_state
  IsValid-fields operations s h =
      let (t1, e1, h1) =
        >>=-eq-ok (execution_timestamp clock s.started_at) _ (IsValid-check operations s h) in
      let (t2, e2, h2) = >>=-eq-ok (execution_timestamp clock s.updated_at) _ h1 in
      let (f1, h3) = raise_if-then-eq-ok (ltb t2 t1) state_integrity_invalid _ h2 in
      let (u, e3, h4) = >>=-eq-ok (check_completed_at clock s.completed_at t2) _ h3 in
      let (f2, h5) =
        raise_if-then-eq-ok
          (ltb (length operations) s.next_operation_index
            || length s.operation_receipt_refs != s.next_operation_index)
          state_integrity_invalid _ h4 in
      let f3 =
        raise_if-eq-ok (not (fields_valid s.state (length operations) s)) state_integrity_invalid
          h5 in
      let (g1, g2) = ||-eq-false _ _ f2 in
      (!=-eq-false (length s.operation_receipt_refs) _ g2, not-eq-false _ f3)

  -- A completion time that is missing, or the time of the update.
  check_completed_at-ok :
      (completed : Option String) (updated : String) (at : ℕ)
      → execution_timestamp clock updated ≡ ok at
      → (completed ≡ none) ⊎ (completed ≡ some updated)
      → check_completed_at clock completed at ≡ ok tt
  unfolding check_completed_at
  check_completed_at-ok completed updated at reads (inl e) = rw e refl
  check_completed_at-ok completed updated at reads (inr e) =
      rw e (rw reads (rw (ltb-irreflexive at) refl))

  -- A record updated at a time that is not before its start, and not completed or completed then.
  pub updated-IsValid :
      (operations : List WriteOperation) (s : ApplicationExecution)
      → NotBefore s.updated_at s.started_at
      → (s.completed_at ≡ none) ⊎ (s.completed_at ≡ some s.updated_at)
      → s.next_operation_index ≤ length operations
      → length s.operation_receipt_refs ≡ s.next_operation_index
      → fields_valid s.state (length operations) s ≡ true
      → IsValid operations s
  unfolding check_state
  updated-IsValid operations s t done within counted valid =
      let within' : ltb (length operations) s.next_operation_index ≡ false =
        ltb-of-≤ (length operations) s.next_operation_index within in
      check-IsValid operations s (
        rw t.reads_earlier (
          rw t.reads_now (
            rw t.ordered (
              rw (check_completed_at-ok s.completed_at s.updated_at t.at t.reads_now done)
                (rw within' (rw counted (rw (!=-refl s.next_operation_index) (rw valid refl))))))))
