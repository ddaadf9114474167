-- ===== src/Applier/Settlement.antt =====
-- applier.py: how a dispatch that failed is to be settled, described apart from the code's tests.
use mathlib.Core.Path.{subst}
use delivery_system.Base.{
  ◌≡◌, ◌≢◌, refl, sym, true, false, Option, none, some, Bool-cases, arith, inl, inr,
}
use delivery_system.Errors
use delivery_system.Errors.{Code}
use delivery_system.Execution.{Status, blocked, failed, outcome_unknown}
use delivery_system.Applier.Commands.{
  WriteObservation, WriteObservationKind, definitive_success, definitive_rejected, ambiguous,
}
use delivery_system.Applier.Evidence.{
  blocks_dispatch, blocks_observation, observation_code, observation_target,
}
use delivery_system.Applier.Round.{ApplyResult}

-- The codes by which the credential's checks refuse a dispatch before anything is written.
pub data RefusingCode : Code → Type 0 where
  unregistered : RefusingCode Errors.credential_capability_unregistered
  principal : RefusingCode Errors.credential_principal_mismatch
  instance_of : RefusingCode Errors.credential_instance_mismatch
  repository : RefusingCode Errors.credential_repository_mismatch
  scope : RefusingCode Errors.credential_scope_mismatch
  capability : RefusingCode Errors.credential_capability_mismatch
  currentness : RefusingCode Errors.credential_currentness_mismatch
  expired : RefusingCode Errors.credential_expired

pub blocks_dispatch-RefusingCode : (code : Code) → blocks_dispatch code ≡ true → RefusingCode code
unfolding blocks_dispatch
blocks_dispatch-RefusingCode Errors.credential_capability_unregistered h = unregistered
blocks_dispatch-RefusingCode Errors.credential_principal_mismatch h = principal
blocks_dispatch-RefusingCode Errors.credential_instance_mismatch h = instance_of
blocks_dispatch-RefusingCode Errors.credential_repository_mismatch h = repository
blocks_dispatch-RefusingCode Errors.credential_scope_mismatch h = scope
blocks_dispatch-RefusingCode Errors.credential_capability_mismatch h = capability
blocks_dispatch-RefusingCode Errors.credential_currentness_mismatch h = currentness
blocks_dispatch-RefusingCode Errors.credential_expired h = expired
blocks_dispatch-RefusingCode _ h = cc

-- The codes of a rejection that blocks the operation.
pub data BlockingCode : Code → Type 0 where
  authority : BlockingCode Errors.github_write_authority_rejected
  target : BlockingCode Errors.github_write_target_unavailable
  conflict : BlockingCode Errors.github_write_conflict
  rate : BlockingCode Errors.github_write_rate_limited
  redirect : BlockingCode Errors.github_write_redirect_rejected

blocks_observation-BlockingCode : (code : Code) → blocks_observation code ≡ true → BlockingCode code
unfolding blocks_observation
blocks_observation-BlockingCode Errors.github_write_authority_rejected h = authority
blocks_observation-BlockingCode Errors.github_write_target_unavailable h = target
blocks_observation-BlockingCode Errors.github_write_conflict h = conflict
blocks_observation-BlockingCode Errors.github_write_rate_limited h = rate
blocks_observation-BlockingCode Errors.github_write_redirect_rejected h = redirect
blocks_observation-BlockingCode _ h = cc

BlockingCode-blocks_observation : (code : Code) → BlockingCode code → blocks_observation code ≡ true
unfolding blocks_observation
BlockingCode-blocks_observation code authority = refl
BlockingCode-blocks_observation code target = refl
BlockingCode-blocks_observation code conflict = refl
BlockingCode-blocks_observation code rate = refl
BlockingCode-blocks_observation code redirect = refl

-- The code of an observation: its own, or the one that stands for its kind.
pub data CodeOf (observation : WriteObservation) : Code → Type 0 where
  own : (code : Code) → observation.code ≡ some code → CodeOf observation code
  of_rejected :
      observation.code ≡ none
      → observation.kind ≡ definitive_rejected
      → CodeOf observation Errors.github_write_rejected
  of_ambiguous :
      observation.code ≡ none
      → observation.kind ≡ ambiguous
      → CodeOf observation Errors.github_write_transport_ambiguous

-- The state to which an operation without success is settled, by the observation and its code.
pub data Settled (observation : WriteObservation) (code : Code) : Status → Type 0 where
  unknown_outcome : observation.kind ≡ ambiguous → Settled observation code outcome_unknown
  rejected_blocked :
      observation.kind ≡ definitive_rejected → BlockingCode code → Settled observation code blocked
  rejected_failed :
      observation.kind ≡ definitive_rejected → ¬ BlockingCode code → Settled observation code failed

pub record SettledAs (observation : WriteObservation) (r : ApplyResult) : Type 0 where
  pub code : Code
  pub code_of : CodeOf observation code
  pub state : Settled observation code r.state
  pub recovery : r.recovery_code ≡ some code

observation_code-own :
    (observation : WriteObservation) (code : Code)
    → observation.code ≡ some code
    → observation_code observation ≡ code
unfolding observation_code
observation_code-own observation code h = rw h refl

observation_code-rejected :
    (observation : WriteObservation)
    → observation.code ≡ none
    → observation.kind ≡ definitive_rejected
    → observation_code observation ≡ Errors.github_write_rejected
unfolding observation_code
observation_code-rejected observation h k = rw h (rw k refl)

observation_code-ambiguous :
    (observation : WriteObservation)
    → observation.code ≡ none
    → observation.kind ≡ ambiguous
    → observation_code observation ≡ Errors.github_write_transport_ambiguous
unfolding observation_code
observation_code-ambiguous observation h k = rw h (rw k refl)

code-CodeOf :
    (code : Option Code) (kind : WriteObservationKind) (observation : WriteObservation)
    → observation.code ≡ code
    → observation.kind ≡ kind
    → observation.kind ≢ definitive_success
    → CodeOf observation (observation_code observation)
code-CodeOf (some code) kind observation h k other =
    subst (CodeOf observation) (sym (observation_code-own observation code h)) (own code h)
code-CodeOf none definitive_success observation h k other = absurd (other k)
code-CodeOf none definitive_rejected observation h k other =
    subst (CodeOf observation) (sym (observation_code-rejected observation h k)) (of_rejected h k)
code-CodeOf none ambiguous observation h k other =
    subst (CodeOf observation) (sym (observation_code-ambiguous observation h k)) (of_ambiguous h k)

target-ambiguous :
    (observation : WriteObservation)
    → observation.kind ≡ ambiguous
    → outcome_unknown ≡ observation_target observation
unfolding observation_target
target-ambiguous observation same = ground arith

target-blocked :
    (observation : WriteObservation)
    → observation.kind ≡ definitive_rejected
    → blocks_observation (observation_code observation) ≡ true
    → blocked ≡ observation_target observation
unfolding observation_target
target-blocked observation same blocks = ground arith

target-failed :
    (observation : WriteObservation)
    → observation.kind ≡ definitive_rejected
    → blocks_observation (observation_code observation) ≡ false
    → failed ≡ observation_target observation
unfolding observation_target
target-failed observation same passes = ground arith

not-blocking : (code : Code) → blocks_observation code ≡ false → ¬ BlockingCode code
not-blocking code passes b = let blocks = BlockingCode-blocks_observation code b in cc

target-Settled :
    (kind : WriteObservationKind) (observation : WriteObservation)
    → observation.kind ≡ kind
    → observation.kind ≢ definitive_success
    → Settled observation (observation_code observation) (observation_target observation)
target-Settled definitive_success observation same other = absurd (other same)
target-Settled ambiguous observation same other =
    subst (Settled observation (observation_code observation)) (target-ambiguous observation same)
      (unknown_outcome same)
target-Settled definitive_rejected observation same other =
    elim (Bool-cases (blocks_observation (observation_code observation))) [
      | inl blocks ↦
          subst (Settled observation (observation_code observation))
            (target-blocked observation same blocks)
            (rejected_blocked same (blocks_observation-BlockingCode _ blocks))
      | inr passes ↦
          subst (Settled observation (observation_code observation))
            (target-failed observation same passes) (rejected_failed same (not-blocking _ passes))
    ]

-- A result with the code's state and the code's code is settled as the observation says.
pub settled_as :
    (observation : WriteObservation) (r : ApplyResult)
    → observation.kind ≢ definitive_success
    → r.state ≡ observation_target observation
    → r.recovery_code ≡ some (observation_code observation)
    → SettledAs observation r
settled_as observation r other state code = record {
  code = observation_code observation;
  code_of = code-CodeOf observation.code observation.kind observation refl refl other;
  state =
      subst (Settled observation (observation_code observation)) (sym state)
        (target-Settled observation.kind observation refl other);
  recovery = code;
}
