-- ===== src/Tests/Store.antt =====
-- What is proved of the tables, on a concrete application of two operations.
use delivery_system.Base.{◌≢◌, []}
use delivery_system.Context.{ExecutionContext}
use delivery_system.Store.Exclusion.{Claims, Ends, claim_excludes, ends_once}
use delivery_system.Store.Run.{stop, go, ended, key_of, claims_once}
use delivery_system.Store.Progress.{TakesNext, claim-TakesNext}
use delivery_system.Store.Completion.{Advances, complete_operation_success-Advances}
use delivery_system.Store.Finalization.{Finishes, finalize_application-Finishes}
use delivery_system.Tests.Fixtures.{digests, clock, caller, context, always, owner, receipt_of}
use delivery_system.Tests.Runs.{
  application, created, claimed_first, completed_first, claimed_second, completed_second,
  settled_first, finalized_run, first_claim, first_completion_returns, first_end, second_claim,
  finalization_returns,
}

claims_once_example :
    key_of digests clock first_claim.attempt ≢ key_of digests clock second_claim.attempt
claims_once_example =
    claims_once digests clock caller caller context context application application created.1
      claimed_first.2 completed_first.1 claimed_second.2 first_claim
      (go stop (ended caller context application first_end)) second_claim

-- The context of another process, which expects no operations.
abbrev other_context : ExecutionContext
other_context = record context { expected_operations = [] }

claim_excludes_example :
    ¬ Claims digests clock caller other_context application claimed_first.2 claimed_second.2
claim_excludes_example =
    claim_excludes digests clock clock caller caller context other_context application created.1
      claimed_first.2 claimed_second.2 first_claim

ends_once_example :
    ¬ Ends digests clock caller other_context application completed_first.1 settled_first.1
ends_once_example =
    ends_once digests clock clock caller caller context other_context application claimed_first.2
      completed_first.1 settled_first.1 first_end

claim-TakesNext_example :
    TakesNext digests clock caller context application completed_first.1 claimed_second.2
      second_claim
claim-TakesNext_example =
    claim-TakesNext digests clock caller context application completed_first.1 claimed_second.2
      second_claim

complete_operation_success-Advances_example :
    Advances digests clock caller context application owner
      (receipt_of "operation-first" 0 "a").artifact
      claimed_first.2
      completed_first.0
      completed_first.1
complete_operation_success-Advances_example =
    complete_operation_success-Advances digests clock caller context always application
      "state at 10:01Z" "operation-first" "attempt at 10:01Z" owner
      (receipt_of "operation-first" 0 "a") "10:01Z" claimed_first.2 completed_first.0
      completed_first.1 first_completion_returns

finalize_application-Finishes_example :
    Finishes digests clock caller context application "10:02Z" completed_second.1 finalized_run.0
      finalized_run.1
finalize_application-Finishes_example =
    finalize_application-Finishes digests clock caller context always application "state at 10:01Z"
      "10:02Z" completed_second.1 finalized_run.0 finalized_run.1 finalization_returns
