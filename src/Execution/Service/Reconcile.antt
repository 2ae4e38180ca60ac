-- ===== src/Execution/Service/Reconcile.antt =====
-- `_reconcile_record` and `reconcile_unknown` of src/ai_trading_team/execution/service.py.
use my_team_tradding.Execution.Lifecycle.{
  DemoExecutionRecord, DemoExecutionState, same_execution_state,
}
use my_team_tradding.Execution.Reconciliation.{
  CompositeBrokerEvidence, DemoReconciliationRecord, DemoReconciliationStatus,
  DemoSubmissionReceipt, reconcile_broker_evidence,
}
use my_team_tradding.Execution.Service.{
  DemoExecutionAdapter, Method, halt, moves, now, some_failure,
}
use my_team_tradding.Prelude.State.{lifts, returns, ◌>>=◌}
use my_team_tradding.Execution.Store.{ExecutionFault}
use my_team_tradding.Execution.Store.Records.{get_record, validated}
use my_team_tradding.Execution.Types.{
  DemoExecutionFailureCategory, failure_of, reconciliation_timeout,
}
use my_team_tradding.Prelude.{Bool, List, Option, String, if◌then◌else◌, none, some, ℕ}
use my_team_tradding.Prelude.Result.{err}
use my_team_tradding.Time.{Datetime}

abbrev pub is_unknown : DemoExecutionState → Bool
is_unknown state = same_execution_state state DemoExecutionState.unknown

-- What `_reconcile_record` does with the record of the reconciliation.
unfoldable pub judge_as :
    DemoReconciliationStatus
    → DemoExecutionRecord
    → DemoReconciliationRecord
    → Method DemoExecutionRecord
judge_as DemoReconciliationStatus.confirmed x r =
    moves x DemoExecutionState.confirmed r.reconciled_at none none (some r)
judge_as DemoReconciliationStatus.not_found x r =
    if is_unknown x.state
    then returns x
    else (moves x DemoExecutionState.unknown r.reconciled_at r.failure none (some r) >>= λ y.
        halt r.reconciled_at "broker evidence remains inconclusive" >>= λ done. returns y)
judge_as DemoReconciliationStatus.mismatch x r =
    moves x DemoExecutionState.reconciliation_failed r.reconciled_at r.failure none (some r)
    >>= λ y. halt r.reconciled_at "broker reconciliation mismatch" >>= λ done. returns y

unfoldable pub judge : DemoExecutionRecord → DemoReconciliationRecord → Method DemoExecutionRecord
judge x r = judge_as r.status x r

module _ (clock : ℕ → Datetime) (adapter : DemoExecutionAdapter) where
  -- The broker did not say what it knows.
  unfoldable pub evidence_failed : DemoExecutionRecord → Method DemoExecutionRecord
  evidence_failed x =
      if same_execution_state x.state DemoExecutionState.submitted
      then (now clock >>= λ at.
          moves x DemoExecutionState.unknown at
            (some_failure reconciliation_timeout
              "broker reconciliation failed; no resubmission is permitted")
            none none
          >>= λ y. now clock >>= λ later.
              halt later "broker reconciliation failed" >>= λ done. returns y)
      else returns x

  unfoldable pub weigh_evidence :
      Option (List CompositeBrokerEvidence)
      → DemoExecutionRecord
      → DemoSubmissionReceipt
      → Method DemoExecutionRecord
  weigh_evidence none x receipt = evidence_failed x
  weigh_evidence (some evidence) x receipt = now clock >>= λ at.
      lifts (validated (reconcile_broker_evidence x.intent receipt evidence at)) >>= λ r. judge x r

  unfoldable pub reconcile_submission :
      Option DemoSubmissionReceipt → DemoExecutionRecord → Method DemoExecutionRecord
  reconcile_submission none x = lifts (
      err (
        ExecutionFault.execution_error (
          failure_of DemoExecutionFailureCategory.reconciliation_failed
            "post-dispatch record has no normalized submission receipt")))
  reconcile_submission (some receipt) x =
      weigh_evidence (adapter.find_broker_evidence x.intent receipt) x receipt

  unfoldable pub reconcile_record : DemoExecutionRecord → Method DemoExecutionRecord
  reconcile_record x = reconcile_submission x.submission x

  abbrev pub not_unknown : Method DemoExecutionRecord
  not_unknown = lifts (
      err (
        ExecutionFault.execution_error (
          failure_of DemoExecutionFailureCategory.reconciliation_failed
            "only an existing UNKNOWN execution may be reconciled")))

  unfoldable pub reconcile_stored : Option DemoExecutionRecord → Method DemoExecutionRecord
  reconcile_stored none = not_unknown
  reconcile_stored (some x) = if is_unknown x.state then reconcile_record x else not_unknown

  unfoldable pub reconcile_unknown : String → Method DemoExecutionRecord
  reconcile_unknown id w = reconcile_stored (get_record id w.repository) w
