-- ===== src/Store/Run.antt =====
-- Any sequence of the operations of execution_store.py that the Applier uses, by any callers, each in
-- its own transaction: what holds of the tables however they are interleaved.
use delivery_system.Base.{
  Eq, sym, ap, ◌∙◌, ◌≢◌, String, String_eq, none, some, ◌≡◌, refl, arith, eq_refl, ◌∷◌,
}
use delivery_system.Errors.{ok}
use delivery_system.Execution.{ApplicationExecution, OperationAttempt, with_attempt_digest}
use delivery_system.Receipts.{Digests}
use delivery_system.Context.{ExecutionContext, Currentness}
use delivery_system.Table.{
  OperationKey, OperationKey_eq, Table, loads, lookup, update, insert, lookup-update, lookup-cons,
  insert-eq-ok,
}
use delivery_system.Store.{Database, Caller, Clock, Live}
use delivery_system.Store.Claim.{create_execution_if_absent}
use delivery_system.Store.Claim.Facts.{claim_next_operation-eq-ok}
use delivery_system.Store.Outcome.Facts.{
  attempt_key, complete_operation_success-eq-ok, settle_operation-eq-ok,
}
use delivery_system.Store.Finalize.{finalize_application}
use delivery_system.Store.Finalize.Facts.{
  create_execution_if_absent-attempts, finalize_application-eq-ok,
}
use delivery_system.Store.Exclusion.{Claims, Ends, completed, settled}

-- A table that keeps every row it has, whatever becomes of the row's record.
abbrev pub Keeps {ℓ κ} : {K : Type ℓ} {A : Type κ} ⦃e : Eq K⦄ → Table K A → Table K A → Type (ℓ ⊔ κ)
Keeps {K = K} t t' = (k : K) → lookup k t ≢ none → lookup k t' ≢ none

some-not-none {ℓ} : {A : Type ℓ} {a : A} → some a ≢ none
some-not-none e = cc

module _ {ℓ κ} {K : Type ℓ} ⦃e : Eq K⦄ {A : Type κ} where
  pub lookup-head : (k : K) (a : A) (t : Table K A) → lookup k ((k, loads a) ∷ t) ≡ some (loads a)
  lookup-head k a t = rw (lookup-cons k k (loads a) t) (rw (eq_refl k) refl)

  Keeps-update : (k : K) (a : A) (t : Table K A) → Keeps t (update k a t)
  Keeps-update k a t j h g = ground (arith, lookup-update k j a t)

  Keeps-insert : (k : K) (a : A) (t t' : Table K A) → insert k a t ≡ ok t' → Keeps t t'
  Keeps-insert k a t t' inserted j h g =
      let (absent, same) = insert-eq-ok k a t t' inserted in
      ground (arith, lookup-cons k j (loads a) t)

module _ (digests : Digests) (clock : Clock) where
  -- One operation that returns, by some caller with some execution context.
  pub data Step (db db' : Database) : Type 0 where
    created :
        (caller : Caller) (context : ExecutionContext) (current : Currentness)
        (live : Live ApplicationExecution) (state : ApplicationExecution)
        → create_execution_if_absent digests clock caller context current live db ≡ ok (state, db')
        → Step db db'
    claimed :
        (caller : Caller) (context : ExecutionContext) (application_id : String)
        → Claims digests clock caller context application_id db db'
        → Step db db'
    ended :
        (caller : Caller) (context : ExecutionContext) (application_id : String)
        → Ends digests clock caller context application_id db db'
        → Step db db'
    finalized :
        (caller : Caller) (context : ExecutionContext) (current : Currentness)
        (application_id state_digest now : String) (state : ApplicationExecution)
        → finalize_application digests clock caller context current application_id state_digest now
            db
          ≡ ok (state, db')
        → Step db db'

  pub data Run (db : Database) : Database → Type 0 where
    stop : Run db db
    go : {mid db' : Database} → Run db mid → Step mid db' → Run db db'

  -- The key of the attempt that a claim returns.
  pub key_of : OperationAttempt → OperationKey
  key_of a = attempt_key a.application_id a.operation_identity

  -- A claim adds the row of its attempt, which was not there, and keeps the others.
  pub claim-new_row :
      (caller : Caller) (context : ExecutionContext) (application_id : String) (db db' : Database)
      (c : Claims digests clock caller context application_id db db')
      → (lookup (key_of c.attempt) db.operation_attempts ≡ none)
        × (lookup (key_of c.attempt) db'.operation_attempts ≡ some (loads c.attempt))
        × Keeps db.operation_attempts db'.operation_attempts
  unfolding key_of with_attempt_digest
  claim-new_row caller context application_id db db' c =
      let facts =
        claim_next_operation-eq-ok digests clock caller context c.current application_id c.digest
          c.owner_id c.now db c.state c.attempt db' c.returns in
      let key = attempt_key facts.draft.application_id facts.draft.operation_identity in
      let claim = with_attempt_digest digests.states facts.draft in
      let (absent, added) =
        insert-eq-ok key claim db.operation_attempts facts.attempts facts.inserted in
      let same_key : key_of c.attempt ≡ key = ap key_of facts.attempt_eq in
      let stored : db'.operation_attempts ≡ facts.attempts =
        ap (λ (d : Database). d.operation_attempts) facts.written in
      (
        ap (λ k. lookup k db.operation_attempts) same_key ∙ absent,
        ap (λ k. lookup k db'.operation_attempts) same_key
            ∙ (ap (lookup key) (stored ∙ added)
                ∙ (lookup-head key claim db.operation_attempts
                    ∙ ap (λ a. some (loads a)) (sym facts.attempt_eq))),
        λ k present gone.
            Keeps-insert key claim db.operation_attempts facts.attempts facts.inserted k present
              (ap (lookup k) (sym stored) ∙ gone),
      )

  Step-Keeps :
      (db db' : Database) → Step db db' → Keeps db.operation_attempts db'.operation_attempts
  Step-Keeps db db' (created caller context current live state h) =
      let same =
        create_execution_if_absent-attempts digests clock caller context current live db state db'
          h in
      λ k present absent. present (ap (lookup k) (sym same) ∙ absent)
  Step-Keeps db db' (claimed caller context application_id c) =
      (claim-new_row caller context application_id db db' c).2
  Step-Keeps db db'
        (ended caller context application_id
          (completed current state_digest attempt_id attempt_digest owner_id live now state h)) =
      let facts =
        complete_operation_success-eq-ok digests clock caller context current application_id
          state_digest attempt_id attempt_digest owner_id live now db state db' h in
      λ k present absent.
        Keeps-update (attempt_key application_id attempt_id) _ db.operation_attempts k present
          (ap (λ (d : Database). lookup k d.operation_attempts) (sym facts.written) ∙ absent)
  Step-Keeps db db'
        (ended caller context application_id (
          settled current state_digest attempt_id attempt_digest owner_id state_name code now state
            h)) =
      let facts =
        settle_operation-eq-ok digests clock caller context current application_id state_digest
          attempt_id attempt_digest owner_id state_name code now db state db' h in
      λ k present absent.
        Keeps-update (attempt_key application_id attempt_id) _ db.operation_attempts k present
          (ap (λ (d : Database). lookup k d.operation_attempts) (sym facts.written) ∙ absent)
  Step-Keeps db db' (finalized caller context current application_id state_digest now state h) =
      let facts =
        finalize_application-eq-ok digests clock caller context current application_id state_digest
          now db state db' h in
      λ k present absent.
        present (ap (λ (d : Database). lookup k d.operation_attempts) (sym facts.written) ∙ absent)

  Run-Keeps : (db db' : Database) → Run db db' → Keeps db.operation_attempts db'.operation_attempts
  Run-Keeps db db' stop k present = present
  Run-Keeps db db' (go {mid} r st) k present =
      Step-Keeps mid db' st k (Run-Keeps db mid r k present)

  -- No operation is claimed twice: after a claim and any run of operations by any callers, in any
  -- order, a claim that succeeds is for an attempt at another operation, or of another application.
  pub claims_once :
      (caller caller' : Caller) (context context' : ExecutionContext)
      (application_id application_id' : String) (db db1 db2 db3 : Database)
      (first : Claims digests clock caller context application_id db db1)
      → Run db1 db2
      → (second : Claims digests clock caller' context' application_id' db2 db3)
      → key_of first.attempt ≢ key_of second.attempt
  claims_once caller caller' context context' application_id application_id' db db1 db2 db3 first
        between second same =
      let (absent, present, keeps) = claim-new_row caller context application_id db db1 first in
      let (absent', present', keeps') =
        claim-new_row caller' context' application_id' db2 db3 second in
      Run-Keeps db1 db2 between (key_of first.attempt) (λ gone. some-not-none (sym present ∙ gone))
        (ap (λ k. lookup k db2.operation_attempts) same ∙ absent')
