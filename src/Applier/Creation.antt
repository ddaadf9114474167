-- ===== src/Applier/Creation.antt =====
-- The record that the Applier starts from: new, or the one that the tables hold.
use mathlib.Core.Path.{subst}
use delivery_system.Base.{
  ◌≡◌, ap, String_eq, Option, none, some, not, ◌||◌, ◌!=◌, ||-eq-false, not-eq-false,
}
use delivery_system.Errors.{
  ok, >>=-eq-ok, raise_if-then-eq-ok, ok-injective, application_initial_state_invalid,
  runtime_authority_required, application_binding_conflict,
  application_orchestration_policy_mismatch,
}
use delivery_system.Identity.{ApplicationIdentity_eq, CredentialContinuityAnchor_eq}
use delivery_system.Execution.{ApplicationExecution, with_state_digest, verify_execution}
use delivery_system.Receipts.{Digests}
use delivery_system.Context.{ExecutionContext, Currentness}
use delivery_system.Table.{Row, lookup, insert, read_row}
use delivery_system.Store.{Database, Caller, Clock, Live, require_orchestration}
use delivery_system.Store.Claim.{
  create_execution_if_absent, insert_execution, accept_existing, is_initial, is_managed,
}
use delivery_system.Applier.Sealed.{Sealed, with_state_digest-Sealed, verify_execution-Sealed}

module _ (digests : Digests) (clock : Clock) (caller : Caller) (context : ExecutionContext) where
  insert_execution-Sealed :
      (candidate : ApplicationExecution) (db : Database) (state : ApplicationExecution)
      (db' : Database)
      → insert_execution digests clock caller context candidate db ≡ ok (state, db')
      → Sealed digests state
  unfolding insert_execution
  insert_execution-Sealed candidate db state db' h =
      let (table, inserted, h1) =
        >>=-eq-ok
          (insert candidate.application_id (with_state_digest digests.states candidate)
            db.application_execution)
          _ h in
      subst (Sealed digests)
        (ap (λ (r : ApplicationExecution × Database). r.0) (ok-injective _ _ h1))
        (with_state_digest-Sealed digests candidate)

  accept_existing-Sealed :
      (candidate : ApplicationExecution) (row : Row ApplicationExecution) (db : Database)
      (state : ApplicationExecution) (db' : Database)
      → accept_existing digests clock caller context candidate row db ≡ ok (state, db')
      → Sealed digests state
  unfolding accept_existing
  accept_existing-Sealed candidate row db state db' h =
      let (existing, reads, h1) = >>=-eq-ok (read_row row) _ h in
      let (f1, h2) =
        raise_if-then-eq-ok
          (not (verify_execution digests.states existing)
            || (existing.identity != candidate.identity
                || existing.continuity_anchor != candidate.continuity_anchor))
          application_binding_conflict _ h1 in
      let (f2, h3) =
        raise_if-then-eq-ok (not (is_managed existing)) application_orchestration_policy_mismatch _
          h2 in
      let (g1, g2) = ||-eq-false _ _ f1 in
      subst (Sealed digests)
        (ap (λ (r : ApplicationExecution × Database). r.0) (ok-injective _ _ h3))
        (verify_execution-Sealed digests existing (not-eq-false _ g1))

  found-Sealed :
      (candidate : ApplicationExecution) (db : Database) (found : Option (Row ApplicationExecution))
      (state : ApplicationExecution) (db' : Database)
      → elim found [
        | none ↦ insert_execution digests clock caller context candidate db
        | some row ↦ accept_existing digests clock caller context candidate row db
      ]
        ≡ ok (state, db')
      → Sealed digests state
  found-Sealed candidate db none state db' h = insert_execution-Sealed candidate db state db' h
  found-Sealed candidate db (some row) state db' h =
      accept_existing-Sealed candidate row db state db' h

  -- The record that a creation returns has its own digest.
  pub create-Sealed :
      (current : Currentness) (live : Live ApplicationExecution) (db : Database)
      (state : ApplicationExecution) (db' : Database)
      → create_execution_if_absent digests clock caller context current live db ≡ ok (state, db')
      → Sealed digests state
  unfolding create_execution_if_absent
  create-Sealed current live db state db' h =
      let (u0, e0, h1) = >>=-eq-ok (require_orchestration caller) _ h in
      let (f1, h2) =
        raise_if-then-eq-ok (not (is_initial live.artifact)) application_initial_state_invalid _
          h1 in
      let (f2, h3) = raise_if-then-eq-ok (not live.owned) runtime_authority_required _ h2 in
      let (u1, e1, h4) = >>=-eq-ok (current 0) _ h3 in
      let (f3, h5) = raise_if-then-eq-ok (not live.registered) runtime_authority_required _ h4 in
      found-Sealed live.artifact db (lookup live.artifact.application_id db.application_execution)
        state db' h5
