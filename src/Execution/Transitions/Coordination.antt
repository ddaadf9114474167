-- ===== src/Execution/Transitions/Coordination.antt =====
-- Who may hold an application in each state, and where the state machines of execution_state.py end.
use delivery_system.Base.{
  ℕ, zero, suc, ◌+◌, ◌<◌, ◌≤◌, ℕ_eq, String_eq, List_eq, Option_eq, true, ◌≡◌, ◌≢◌, arith, refl,
}
use delivery_system.Errors.{ok}
use delivery_system.Execution.{
  Status, pending, applying, partially_applied, failed, applied, Status_eq, ApplicationExecution,
  OperationAttempt, is_none,
}
use delivery_system.Execution.Transitions.{
  attempt_transition, application_transition, validate_attempt_transition, validate_coordination,
}
use delivery_system.Execution.Transitions.Progress.{
  Coordinated, IsTerminal, IsStep, step-allowed, step-coordination,
}

Coordinated-after :
    (from to : Status) (p c : ApplicationExecution)
    → c.state ≡ to
    → application_transition from to ≡ true
    → validate_coordination from p c ≡ ok tt
    → Coordinated to c
unfolding application_transition validate_coordination is_none
Coordinated-after pending applying p c e t v = ground arith
Coordinated-after pending failed p c e t v = tt
Coordinated-after pending to p c e t v = ground arith
Coordinated-after partially_applied applying p c e t v = ground arith
Coordinated-after partially_applied failed p c e t v = tt
Coordinated-after partially_applied to p c e t v = ground arith
Coordinated-after applying partially_applied p c e t v = ground arith
Coordinated-after applying failed p c e t v = tt
Coordinated-after applying to p c e t v = ground arith
Coordinated-after from to p c e t v = ground arith

-- After an accepted step an application that is pending or partly applied has no owner and no current
-- attempt, and one that is applying has both.
pub step-Coordinated : (p c : ApplicationExecution) → IsStep p c → Coordinated c.state c
step-Coordinated p c h =
    Coordinated-after p.state c.state p c refl (step-allowed p c h) (step-coordination p c h)

no_way_out : (from to : Status) → application_transition from to ≡ true → IsTerminal from → ⊥
unfolding application_transition
no_way_out pending to t h = h
no_way_out applying to t h = h
no_way_out partially_applied to t h = h
no_way_out _ to t h = cc

no_way_to_applied : (from : Status) → application_transition from applied ≡ true → ⊥
unfolding application_transition
no_way_to_applied pending t = cc
no_way_to_applied _ t = cc

-- No step is accepted from a state that ends an application, and none leads to `Applied`, which only
-- finalization writes.
pub step_ends :
    (p c : ApplicationExecution) → IsStep p c → (¬ IsTerminal p.state) × (c.state ≢ applied)
step_ends p c h = (
  no_way_out p.state c.state (step-allowed p c h),
  λ e. no_way_to_applied p.state (rw e at (step-allowed p c h)),
)

-- How far an attempt has come.
pub attempt_rank : Status → ℕ
attempt_rank pending = 0
attempt_rank applying = 1
attempt_rank _ = 2

attempt_transition-rank :
    (from to : Status) → attempt_transition from to ≡ true → attempt_rank from < attempt_rank to
unfolding attempt_transition attempt_rank
attempt_transition-rank pending applying h = omega arith
attempt_transition-rank pending to h = ground arith
attempt_transition-rank applying to h = ground arith
attempt_transition-rank from to h = cc

-- A chain of accepted steps of one attempt.
pub data AttemptChain (p : OperationAttempt) : OperationAttempt → ℕ → Type 0 where
  unmoved : AttemptChain p p zero
  moved :
      {q c : OperationAttempt} {n : ℕ}
      → AttemptChain p q n
      → validate_attempt_transition q c ≡ ok tt
      → AttemptChain p c (suc n)

attempt_allowed :
    (p c : OperationAttempt)
    → validate_attempt_transition p c ≡ ok tt
    → attempt_transition p.state c.state ≡ true
unfolding validate_attempt_transition
attempt_allowed p c h = ground arith

AttemptChain-rank :
    {p c : OperationAttempt} {n : ℕ}
    → AttemptChain p c n
    → attempt_rank p.state + n ≤ attempt_rank c.state
AttemptChain-rank unmoved = omega arith
AttemptChain-rank {p} {c} (moved {q} r st) =
    omega
      (arith, AttemptChain-rank r, attempt_transition-rank q.state c.state (attempt_allowed q c st))

rank-le-two : (s : Status) → attempt_rank s ≤ 2
unfolding attempt_rank
rank-le-two s = ground arith

-- An attempt takes at most two accepted steps.
pub AttemptChain-length : {p c : OperationAttempt} {n : ℕ} → AttemptChain p c n → n ≤ 2
AttemptChain-length {p} {c} {n} chain = omega (arith, AttemptChain-rank chain, rank-le-two c.state)
