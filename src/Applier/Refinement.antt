-- ===== src/Applier/Refinement.antt =====
-- `_apply` of applier.py keeps to its abstract account, round by round.
use delivery_system.Base.{◌≡◌, refl, ap, ◌∙◌, ◌≢◌, inl, inr, ℕ, ◌+◌, Bool-cases, arith}
use delivery_system.Errors.{
  Code, Error, value_error, raised, integrity_error, Result, ok, err, >>=-eq-ok,
}
use delivery_system.Execution.{blocked, ApplicationExecution}
use delivery_system.Receipts.{Digests}
use delivery_system.Context.{ExecutionContext, new_receipt}
use delivery_system.Store.{Database, Caller, Clock}
use delivery_system.Applier.Commands.{
  TextLibrary, WriteObservation, WriteObservationKind, definitive_success, definitive_rejected,
  ambiguous,
}
use delivery_system.Applier.Evidence.{
  trusted_success_result, blocks_dispatch, observation_code, observation_target,
}
use delivery_system.Applier.References.{SealedContent}
use delivery_system.Applier.Round.{
  Round, Dispatch, Outcome, Continuation, stop, is_authority_invalid,
}
use delivery_system.Applier.Loop.{
  result_of, recover, settle, conclude, conclude_observation, record_success, after_success,
  observe, observe_kind, guarded, answered,
}
use delivery_system.Applier.Sealed.{
  DistinguishesIndex, Sealed, CompletesAt, complete-CompletesAt, settle-state,
}
use delivery_system.Applier.Settlement.{RefusingCode, blocks_dispatch-RefusingCode, settled_as}
use delivery_system.Applier.Trace.{
  raises, recovers, refuses, settles, IsNext, Succeeded, ends, goes_on, TraceAfter, Continues,
}

module _ (digests : Digests) (clock : Clock) (texts : TextLibrary) (caller : Caller)
    (context : ExecutionContext) (content : SealedContent) (fuel : ℕ) (rounds : ℕ → Round)
    (k : ℕ) where
  recover-Trace :
      (index : ℕ) (d : Dispatch) (db : Database) (e : Error)
      → IsNext digests clock texts caller context content (rounds k) index d
      → TraceAfter digests clock texts caller context content rounds k fuel index d
          (recover digests clock texts caller context content d.claimed db e)
  unfolding recover result_of stop
  recover-Trace index d db e is_next = elim (Bool-cases (is_authority_invalid e)) [
    | inl h ↦ rw h (ends d _ is_next (recovers _ is_next.is_applying refl))
    | inr h ↦ rw h (ends d _ is_next (raises e))
  ]

  conclude_observation-Trace :
      (index : ℕ) (d : Dispatch) (observation : WriteObservation) (db : Database)
      (settled : Result (ApplicationExecution × Database))
      → IsNext digests clock texts caller context content (rounds k) index d
      → d.answer ≡ ok observation
      → observation.kind ≢ definitive_success
      → ((state : ApplicationExecution) (db' : Database)
          → settled ≡ ok (state, db')
          → state.state ≡ observation_target observation)
      → TraceAfter digests clock texts caller context content rounds k fuel index d (
          conclude_observation digests clock texts caller context content d.claimed
            (observation_code observation)
            db
            settled)
  unfolding conclude_observation result_of stop
  conclude_observation-Trace index d observation db (ok (state, db')) is_next answer kind target =
      ends d _ is_next
        (settles _ observation answer (settled_as observation _ kind (target state db' refl) refl))
  conclude_observation-Trace index d observation db (err e) is_next answer kind target =
      recover-Trace index d db e is_next

  pub guarded-elim {ℓ} :
      (P : Outcome → Type ℓ) (check : Result (Unit {0})) (claimed : ApplicationExecution)
      (db : Database) (outcome : Outcome)
      → ((e : Error) → P (recover digests clock texts caller context content claimed db e))
      → (check ≡ ok tt → P outcome)
      → P (guarded digests clock texts caller context content check claimed db outcome)
  unfolding guarded
  guarded-elim P (ok u) claimed db outcome refused passed = passed refl
  guarded-elim P (err e) claimed db outcome refused passed = refused e

  conclude-Trace :
      (code : Code) (index : ℕ) (d : Dispatch) (db : Database)
      (settled : Result (ApplicationExecution × Database))
      → IsNext digests clock texts caller context content (rounds k) index d
      → d.answer ≡ err (value_error code)
      → RefusingCode code
      → ((state : ApplicationExecution) (db' : Database)
          → settled ≡ ok (state, db')
          → state.state ≡ blocked)
      → TraceAfter digests clock texts caller context content rounds k fuel index d
          (conclude digests clock texts caller context content code db settled)
  unfolding conclude result_of stop
  conclude-Trace code index d db (ok (state, db')) is_next answer blocks target =
      ends d _ is_next (refuses _ code answer blocks (target state db' refl) refl)
  conclude-Trace code index d db (err e) is_next answer blocks target = ends d _ is_next (raises e)

  after_success-Trace :
      (index : ℕ) (next : Continuation) (d : Dispatch) (db : Database)
      (completed : Result (ApplicationExecution × Database))
      → Continues digests clock texts caller context content rounds k fuel index next
      → IsNext digests clock texts caller context content (rounds k) index d
      → ((state : ApplicationExecution) (db' : Database)
          → completed ≡ ok (state, db')
          → Succeeded digests clock texts caller context content d
            × CompletesAt digests clock caller context d.claimed state)
      → TraceAfter digests clock texts caller context content rounds k fuel index d
          (after_success digests clock texts caller context content next d.claimed db completed)
  unfolding after_success
  after_success-Trace index next d db (ok (state, db')) continues is_next completes =
      let (success, step) = completes state db' refl in
      goes_on d _ _ is_next success
        (continues state db' step.still_sealed (step.index ∙ ap (λ i. i + 1) is_next.claimed_index))
  after_success-Trace index next d db (err e) continues is_next completes =
      recover-Trace index d db e is_next

  module _ (distinguishes : DistinguishesIndex digests) where
    record_success-completes :
        (round : Round) (d : Dispatch) (observation : WriteObservation) (db : Database)
        (state : ApplicationExecution) (db' : Database)
        → Sealed digests d.claimed
        → d.answer ≡ ok observation
        → observation.kind ≡ definitive_success
        → record_success digests clock texts caller context content round d.claimed d.attempt
            observation db
          ≡ ok (state, db')
        → Succeeded digests clock texts caller context content d
          × CompletesAt digests clock caller context d.claimed state
    unfolding record_success
    record_success-completes round d observation db state db' is_sealed answer kind h =
        let (remote, trusted, h1) =
          >>=-eq-ok
            (trusted_success_result digests.result_payload_digest content.repository_identity
              d.attempt.operation.operation_kind observation)
            _ h in
        let (receipt, made, h2) =
          >>=-eq-ok
            (new_receipt digests context round.receipt_current d.attempt.operation_index remote
              d.attempt.started_at round.receipt_time)
            _ h1 in
        (
          record {
            observation = observation;
            answered_so = answer;
            definitive = kind;
            remote = remote;
            trusted = trusted;
          },
          complete-CompletesAt digests clock caller context distinguishes _ _ _ _ _ _ _ d.claimed db
              state db' is_sealed h2,
        )

    observe_kind-Trace :
        (kind : WriteObservationKind) (index : ℕ) (round : Round) (next : Continuation)
        (d : Dispatch) (db : Database) (observation : WriteObservation)
        → Continues digests clock texts caller context content rounds k fuel index next
        → IsNext digests clock texts caller context content (rounds k) index d
        → Sealed digests d.claimed
        → d.answer ≡ ok observation
        → observation.kind ≡ kind
        → TraceAfter digests clock texts caller context content rounds k fuel index d (
            observe_kind digests clock texts caller context content kind round next d.claimed
              d.attempt db observation)
    unfolding observe_kind settle
    observe_kind-Trace definitive_success index round next d db observation continues is_next
          is_sealed answer same =
        after_success-Trace index next d db _ continues is_next (λ state db' h.
          record_success-completes round d observation db state db' is_sealed answer same h)
    observe_kind-Trace definitive_rejected index round next d db observation continues is_next
          is_sealed answer same =
        conclude_observation-Trace index d observation db _ is_next answer (λ k. ground arith)
          (λ state db' h.
            settle-state digests clock caller context _ _ _ _ _ _ _ _ _ db state db' h)
    observe_kind-Trace ambiguous index round next d db observation continues is_next is_sealed
          answer same =
        conclude_observation-Trace index d observation db _ is_next answer (λ k. ground arith)
          (λ state db' h.
            settle-state digests clock caller context _ _ _ _ _ _ _ _ _ db state db' h)

    pub answered-Trace :
        (answer : Result WriteObservation) (index : ℕ) (round : Round) (next : Continuation)
        (d : Dispatch) (db : Database)
        → Continues digests clock texts caller context content rounds k fuel index next
        → IsNext digests clock texts caller context content (rounds k) index d
        → Sealed digests d.claimed
        → d.answer ≡ answer
        → TraceAfter digests clock texts caller context content rounds k fuel index d (
            answered digests clock texts caller context content round next d.claimed d.attempt db
              answer)
    unfolding answered observe settle
    answered-Trace (ok observation) index round next d db continues is_next is_sealed answer =
        guarded-elim (TraceAfter digests clock texts caller context content rounds k fuel index d)
          round.after_dispatch d.claimed db _ (λ e. recover-Trace index d db e is_next)
          (λ is_current.
            observe_kind-Trace observation.kind index round next d (round.before_end db) observation
              continues is_next is_sealed answer refl)
    answered-Trace (err (value_error code)) index round next d db continues is_next is_sealed
          answer =
        elim (Bool-cases (blocks_dispatch code)) [
          | inl blocks ↦ rw blocks (
              conclude-Trace code index d (round.before_end db) _ is_next answer
                (blocks_dispatch-RefusingCode code blocks)
                (λ state db' h.
                  settle-state digests clock caller context _ _ _ _ _ _ _ _ _ (round.before_end db)
                    state db' h))
          | inr passes ↦ rw passes (ends d _ is_next (raises (value_error code)))
        ]
    answered-Trace (err integrity_error) index round next d db continues is_next is_sealed answer =
        ends d _ is_next (raises integrity_error)
    answered-Trace (err (raised name)) index round next d db continues is_next is_sealed answer =
        ends d _ is_next (raises (raised name))
