-- ===== src/Store/Generic/Unmanaged.antt =====
-- The generic methods of execution_store.py leave the Applier's applications alone, and move the others
-- only by accepted transitions.
use delivery_system.Base.{
  sym, ap, ◌∙◌, ◌≢◌, ℕ_eq, ◌+◌, String, String_eq, List, Option_eq, ◌≡◌, true, false, not, some,
  ◌||◌, ◌!=◌, ◌==◌, ||-eq-false, !=-eq-false, if◌then◌else◌,
}
use delivery_system.Errors.{
  Result, ok, >>=-eq-ok, raise_if-then-eq-ok, raise_if-eq-ok, or_raise, or_raise-eq-ok,
  ok-injective, state_integrity_invalid, applier_orchestration_required,
  application_binding_conflict, application_not_found, application_state_stale,
  application_finalization_required, operation_attempt_binding_conflict,
  operation_attempt_claim_state_invalid,
}
use delivery_system.WriteOperations.{WriteOperation}
use delivery_system.Execution.{
  ApplicationExecution, OperationAttempt, Status_eq, applying, applied, is_none, verify_execution,
  with_state_digest, with_attempt_digest,
}
use delivery_system.Execution.Transitions.{validate_application_transition}
use delivery_system.Execution.Transitions.Progress.{IsStep}
use delivery_system.Receipts.{Digests}
use delivery_system.Table.{OperationKey_eq, loads, lookup, read_row, read_row-eq-ok}
use delivery_system.Store.{Database, Caller, Live}
use delivery_system.Store.Claim.{is_managed}
use delivery_system.Store.Exclusion.{lookup-update-same}
use delivery_system.Store.Read.{recode}
use delivery_system.Store.Generic.{
  reject_generic_when_orchestrated, validate_live, reject_durable_managed, create_attempt_if_absent,
  transition_attempt, check_appended, transition_execution,
}

true-not-false : true ≢ false
true-not-false e = cc

managed_same :
    (s t : ApplicationExecution) → some (loads s) ≡ some (loads t) → is_managed s ≡ is_managed t
managed_same s t e = let same : s ≡ t = cc in ap is_managed same

module _ (digests : Digests) (workspace_identity : String) (caller : Caller) where
  rejected :
      (application_id : String) (db : Database) (s : ApplicationExecution)
      → lookup application_id db.application_execution ≡ some (loads s)
      → reject_durable_managed digests workspace_identity caller application_id db ≡ ok tt
      → is_managed s ≡ false
  unfolding reject_durable_managed recode read_row
  rejected application_id db s found h =
      let h0 = rw (reject_durable_managed, found) at h in
      let (f1, h1) =
        raise_if-then-eq-ok (not (verify_execution digests.states s)) state_integrity_invalid _
          h0 in
      raise_if-eq-ok (is_managed s) applier_orchestration_required h1

  -- A transition of an application that returned, by what it found and what it wrote.
  pub record IsTransition (expected_digest : String) (candidate : ApplicationExecution)
      (db : Database) (state : ApplicationExecution) (db' : Database) : Type 0 where
    pub previous : ApplicationExecution
    pub found : lookup candidate.application_id db.application_execution ≡ some (loads previous)
    pub fresh : previous.state_digest ≡ expected_digest
    pub unmanaged : is_managed previous ≡ false
    pub step : IsStep previous candidate
    pub state_eq : state ≡ with_state_digest digests.states candidate
    pub stored : lookup candidate.application_id db'.application_execution ≡ some (loads state)

  -- A transition of an application that returns found an unmanaged record of the digest that the caller
  -- gave, goes from it by an accepted step, and stores the candidate with its digest.
  pub transition_execution-IsTransition :
      (current : Result (Unit {0})) (operations : List WriteOperation) (expected_digest : String)
      (live : Live ApplicationExecution) (db : Database) (state : ApplicationExecution)
      (db' : Database)
      → transition_execution digests workspace_identity caller current operations expected_digest
          live db
        ≡ ok (state, db')
      → IsTransition expected_digest live.artifact db state db'
  unfolding transition_execution with_state_digest
  transition_execution-IsTransition current operations expected_digest live db state db' h =
      let candidate = live.artifact in
      let (u0, e0, h1) = >>=-eq-ok (reject_generic_when_orchestrated caller) _ h in
      let (f1, h2) =
        raise_if-then-eq-ok (candidate.identity.workspace_identity != workspace_identity)
          application_binding_conflict _ h1 in
      let (u1, e1, h3) =
        >>=-eq-ok
          (reject_durable_managed digests workspace_identity caller candidate.application_id db) _
          h2 in
      let (row, at_row, h4) =
        >>=-eq-ok
          (or_raise (lookup candidate.application_id db.application_execution)
            application_not_found)
          _ h3 in
      let (previous, reads, h5) = >>=-eq-ok (read_row row) _ h4 in
      let (f2, h6) =
        raise_if-then-eq-ok
          (not (verify_execution digests.states previous)
            || previous.state_digest != expected_digest)
          application_state_stale _ h5 in
      let (f3, h7) =
        raise_if-then-eq-ok (candidate.state == applied) application_finalization_required _ h6 in
      let (u2, e2, h8) = >>=-eq-ok (validate_application_transition previous candidate) _ h7 in
      let (u3, e3, h9) = >>=-eq-ok (validate_live current live) _ h8 in
      let (u4, e4, h10) =
        >>=-eq-ok
          (if candidate.next_operation_index == previous.next_operation_index + 1
            then check_appended digests workspace_identity caller operations previous candidate db
            else ok tt)
          _ h9 in
      let result = ok-injective _ _ h10 in
      let found = or_raise-eq-ok _ _ at_row ∙ ap some (read_row-eq-ok row reads) in
      let (g1, g2) = ||-eq-false _ _ f2 in
      let same : state ≡ with_state_digest digests.states candidate =
        sym (ap (λ (r : ApplicationExecution × Database). r.0) result) in
      record {
        previous = previous;
        found = found;
        fresh = !=-eq-false previous.state_digest _ g2;
        unmanaged = rejected candidate.application_id db previous found e1;
        step = e2;
        state_eq = same;
        stored =
            ap
              (λ (r : ApplicationExecution × Database).
                lookup candidate.application_id r.1.application_execution)
              (sym result)
            ∙ (lookup-update-same candidate.application_id
                  (with_state_digest digests.states candidate) (loads previous)
                  db.application_execution found
                ∙ ap (λ s. some (loads s)) (sym same));
      }

  attempt-rejected :
      (current : Result (Unit {0})) (expected_digest : String) (live : Live OperationAttempt)
      (db : Database) (r : OperationAttempt × Database)
      → transition_attempt digests workspace_identity caller current expected_digest live db ≡ ok r
      → reject_durable_managed digests workspace_identity caller live.artifact.application_id db
        ≡ ok tt
  unfolding transition_attempt with_attempt_digest
  attempt-rejected current expected_digest live db r h =
      let (u0, e0, h1) = >>=-eq-ok (reject_generic_when_orchestrated caller) _ h in
      let (f1, h2) =
        raise_if-then-eq-ok (live.artifact.identity.workspace_identity != workspace_identity)
          operation_attempt_binding_conflict _ h1 in
      let (u1, e1, h3) =
        >>=-eq-ok
          (reject_durable_managed digests workspace_identity caller live.artifact.application_id db)
          _ h2 in
      e1

  creation-rejected :
      (current : Result (Unit {0})) (live : Live OperationAttempt) (db : Database)
      (r : OperationAttempt × Database)
      → create_attempt_if_absent digests workspace_identity caller current live db ≡ ok r
      → reject_durable_managed digests workspace_identity caller live.artifact.application_id db
        ≡ ok tt
  unfolding create_attempt_if_absent with_attempt_digest
  creation-rejected current live db r h =
      let (u0, e0, h1) = >>=-eq-ok (reject_generic_when_orchestrated caller) _ h in
      let (f1, h2) =
        raise_if-then-eq-ok (live.artifact.identity.workspace_identity != workspace_identity)
          operation_attempt_binding_conflict _ h1 in
      let (f2, h3) =
        raise_if-then-eq-ok
          (live.artifact.state != applying || not (is_none live.artifact.failure_code))
          operation_attempt_claim_state_invalid _ h2 in
      let (u1, e1, h4) =
        >>=-eq-ok
          (reject_durable_managed digests workspace_identity caller live.artifact.application_id db)
          _ h3 in
      e1

  -- No generic method touches a managed application: creating an attempt, moving an attempt and moving
  -- the application all raise, where the stored record is managed.
  pub generic_spares_managed :
      (current : Result (Unit {0})) (operations : List WriteOperation) (expected_digest : String)
      (attempt : Live OperationAttempt) (candidate : Live ApplicationExecution) (db : Database)
      (s : ApplicationExecution) (r : OperationAttempt × Database)
      (r' : ApplicationExecution × Database)
      → attempt.artifact.application_id ≡ s.application_id
      → candidate.artifact.application_id ≡ s.application_id
      → lookup s.application_id db.application_execution ≡ some (loads s)
      → is_managed s ≡ true
      → (create_attempt_if_absent digests workspace_identity caller current attempt db ≢ ok r)
        × (transition_attempt digests workspace_identity caller current expected_digest attempt db
            ≢ ok r)
        × (transition_execution digests workspace_identity caller current operations expected_digest
              candidate db
            ≢ ok r')
  generic_spares_managed current operations expected_digest attempt candidate db s r r' of_s of_s'
        found managed =
      let row : lookup attempt.artifact.application_id db.application_execution ≡ some (loads s) =
        ap (λ k. lookup k db.application_execution) of_s ∙ found in
      (
        λ h. true-not-false (
            sym managed
            ∙ rejected attempt.artifact.application_id db s row
                (creation-rejected current attempt db r h)),
        λ h. true-not-false (
            sym managed
            ∙ rejected attempt.artifact.application_id db s row
                (attempt-rejected current expected_digest attempt db r h)),
        λ h.
            let t =
              transition_execution-IsTransition current operations expected_digest candidate db r'.0
                r'.1 h in
            true-not-false (
              sym managed
              ∙ (managed_same s t.previous (
                    sym found ∙ (ap (λ k. lookup k db.application_execution) (sym of_s') ∙ t.found))
                  ∙ t.unmanaged)),
      )
