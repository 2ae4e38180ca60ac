-- ===== src/Execution/Service/Dispatch.antt =====
-- `execute` of src/ai_trading_team/execution/service.py from the claim on.
use my_team_tradding.Decimal.{DecimalContext}
use my_team_tradding.Execution.Guard.{
  FinalDispatchGuardResult, GuardFault, evaluate_guard, invalid_result,
}
use my_team_tradding.Execution.Lifecycle.{DemoExecutionRecord, DemoExecutionState}
use my_team_tradding.Execution.Reconciliation.{DemoSubmissionDisposition, DemoSubmissionReceipt}
use my_team_tradding.Execution.Records.{
  DemoExecutionApproval, DemoExecutionEnvironmentAcceptance, DemoExecutionPolicy, Digests,
  QualifiedDemoExecutionCandidate,
}
use my_team_tradding.Execution.Service.{
  DemoExecutionAdapter, Method, halt, logs, moves, now, reject_before_dispatch, repository_call,
  some_failure,
}
use my_team_tradding.Prelude.State.{lifts, returns, ◌>>=◌}
use my_team_tradding.Execution.Service.Reconcile.{reconcile_record}
use my_team_tradding.Execution.Store.{
  ExecutionFault, approval_is_revoked, control_state, value_error,
}
use my_team_tradding.Execution.Store.Records.{claim, claim_is_owned}
use my_team_tradding.Execution.Store.Recovery.{build_receipt, unknown_receipt}
use my_team_tradding.Execution.Terminal.{FinalDispatchObservation}
use my_team_tradding.Execution.Types.{
  DemoExecutionFailureCategory, DemoOrderIntent, adapter_failure, broker_rejected,
  dispatch_result_unknown, order_check_rejected,
}
use my_team_tradding.Prelude.{Bool, Option, String, false, if◌then◌else◌, none, some, true, ℕ}
use my_team_tradding.Prelude.Result.{Result, err, ok}
use my_team_tradding.Risk.Engine.{RiskDecision}
use my_team_tradding.Time.{Datetime, aware}

abbrev pub of_guard {ℓ} : {A : Type ℓ} → Result GuardFault A → Result ExecutionFault A
of_guard (ok a) = ok a
of_guard (err (GuardFault.execution_error failure)) = err (ExecutionFault.execution_error failure)
of_guard (err invalid_result) = err value_error

module _ (clock : ℕ → Datetime) (adapter : DemoExecutionAdapter) where
  -- The handler of a submission that raised.
  unfoldable pub submission_lost : DemoExecutionRecord → ℕ → Method DemoExecutionRecord
  submission_lost x guard_time = now clock >>= λ at.
      lifts (build_receipt (unknown_receipt x.intent guard_time at)) >>= λ receipt.
      moves x DemoExecutionState.unknown at
        (some_failure dispatch_result_unknown
          "broker dispatch may have occurred; reconciliation only")
        (some receipt) none
      >>= λ y. halt at "unknown broker dispatch result" >>= λ done. returns y

  unfoldable pub submission_answered :
      DemoSubmissionDisposition
      → DemoExecutionRecord
      → DemoSubmissionReceipt
      → Method DemoExecutionRecord
  submission_answered DemoSubmissionDisposition.rejected x receipt =
      moves x DemoExecutionState.rejected receipt.dispatch_completed_at
        (some_failure broker_rejected "broker definitively rejected the protected DEMO request")
        (some receipt) none
  submission_answered DemoSubmissionDisposition.unknown x receipt =
      moves x DemoExecutionState.unknown receipt.dispatch_completed_at
        (some_failure dispatch_result_unknown
          "broker dispatch result is unknown; reconciliation only")
        (some receipt) none
      >>= λ y.
          halt receipt.dispatch_completed_at "unknown broker dispatch result" >>= λ done. returns y
  submission_answered DemoSubmissionDisposition.accepted x receipt =
      moves x DemoExecutionState.submitted receipt.dispatch_completed_at none (some receipt) none
      >>= λ y. reconcile_record clock adapter y

  -- What follows the call of the broker, by its answer.
  unfoldable pub submission_over :
      Option DemoSubmissionReceipt → DemoExecutionRecord → ℕ → Method DemoExecutionRecord
  submission_over none x guard_time = submission_lost x guard_time
  submission_over (some receipt) x guard_time = submission_answered receipt.disposition x receipt

  unfoldable pub dispatch : DemoExecutionRecord → ℕ → Method DemoExecutionRecord
  dispatch x guard_time = moves x DemoExecutionState.dispatching guard_time none none none >>= λ y.
      logs y.intent >>= λ sent.
      submission_over (adapter.submit_demo_market_intent y.intent) y guard_time

  module _ (c : DecimalContext) (d : Digests) (candidate : QualifiedDemoExecutionCandidate)
      (acceptance : DemoExecutionEnvironmentAcceptance) (approval : DemoExecutionApproval)
      (policy : DemoExecutionPolicy) (claim_owner : String) where
    -- The guard, on the repository of the world.
    unfoldable pub guard_call :
        DemoExecutionRecord → FinalDispatchObservation → ℕ → Method FinalDispatchGuardResult
    guard_call x observation at w =
        lifts
          (of_guard (
            evaluate_guard c d x candidate acceptance approval policy observation
              (claim_is_owned x.intent.execution_intent_id claim_owner w.repository)
              (approval_is_revoked approval.approval_id (d.of_approval approval) w.repository)
              (control_state w.repository) (aware at)))
          w

    unfoldable pub obey :
        DemoExecutionRecord → ℕ → FinalDispatchGuardResult → Method DemoExecutionRecord
    obey x guard_time guard =
        if guard.passed
        then dispatch x guard_time
        else reject_before_dispatch x guard.failure guard_time

    unfoldable pub guarded :
        DemoExecutionRecord → FinalDispatchObservation → Method DemoExecutionRecord
    guarded x observation =
        now clock >>= λ at. guard_call x observation at >>= λ guard. obey x at guard

    abbrev pub rejects :
        DemoExecutionRecord → DemoExecutionFailureCategory → String → Method DemoExecutionRecord
    rejects x code detail =
        now clock >>= λ at. reject_before_dispatch x (some_failure code detail) at

    unfoldable pub observed :
        Option FinalDispatchObservation → DemoExecutionRecord → Method DemoExecutionRecord
    observed none x = rejects x adapter_failure "final read-only dispatch observation failed"
    observed (some observation) x = guarded x observation

    unfoldable pub checked : Option Bool → DemoExecutionRecord → Method DemoExecutionRecord
    checked none x = rejects x adapter_failure "broker pre-dispatch check failed safely"
    checked (some false) x =
        rejects x order_check_rejected "broker pre-dispatch check rejected the sealed request"
    checked (some true) x = observed (adapter.observe_final_dispatch x.intent) x

    -- From the claim of the sealed intent on.
    unfoldable pub execute_intent : DemoOrderIntent → RiskDecision → Method DemoExecutionRecord
    execute_intent intent risk_revalidation = now clock >>= λ at.
        repository_call (claim intent risk_revalidation claim_owner at) >>= λ x.
        checked (adapter.order_check x.intent) x
