-- ===== src/Execution/Service.antt =====
-- `DemoExecutionService` of src/ai_trading_team/execution/service.py, from the claim on. The broker is a
-- parameter: each of its calls answers or raises, which is `none`. The clock is a parameter too: its
-- readings are counted, and a naive one raises. The log of sent intents is a ghost: it is what the
-- calls of `submit_demo_market_intent` were made with.
pub mod Reconcile
pub mod Revalidation
pub mod Prepare
pub mod Prepared
pub mod Ordered
pub mod Renewal
pub mod Sealed
pub mod Authorized
pub mod Dispatch
pub mod Sent
pub mod Guarded
pub mod Halts
use my_team_tradding.Execution.Lifecycle.{DemoExecutionRecord, DemoExecutionState, advance}
use my_team_tradding.Execution.Reconciliation.{
  CompositeBrokerEvidence, DemoReconciliationRecord, DemoSubmissionReceipt,
}
use my_team_tradding.Execution.Records.{ExecutionControlState}
use my_team_tradding.Execution.Store.{
  ExecutionControlEvent, ExecutionFault, Repository, append_control_event, control_state,
  same_control,
}
use my_team_tradding.Execution.Store.Records.{save, validated}
use my_team_tradding.Execution.Terminal.{FinalDispatchObservation}
use my_team_tradding.Execution.Types.{
  DemoExecutionFailure, DemoExecutionFailureCategory, DemoOrderIntent, failure_of,
}
use my_team_tradding.Prelude.{Bool, List, Option, String, if◌then◌else◌, none, some, suc, ℕ, ◌∷◌}
use my_team_tradding.Prelude.Result.{Result, err, ok}
use my_team_tradding.Prelude.State.{Stateful, lifts, returns, ◌>>=◌}
use my_team_tradding.Time.{Datetime, normalize_utc}

pub record DemoExecutionAdapter : Type 0 where
  -- whether the check is accepted
  pub order_check : DemoOrderIntent → Option Bool
  pub observe_final_dispatch : DemoOrderIntent → Option FinalDispatchObservation
  pub submit_demo_market_intent : DemoOrderIntent → Option DemoSubmissionReceipt
  pub find_broker_evidence :
      DemoOrderIntent → DemoSubmissionReceipt → Option (List CompositeBrokerEvidence)

pub record World : Type 0 where
  pub repository : Repository
  pub readings : ℕ
  pub sent : List String

-- A method: what it returns or raises, and the world behind it.
abbrev pub Method {ℓ} : Type ℓ → Type ℓ
Method A = Stateful ExecutionFault World A

-- A call of the repository that changes it.
abbrev pub outcome_of {ℓ} :
    {A : Type ℓ} → World → Result ExecutionFault (A × Repository) → Result ExecutionFault A × World
outcome_of w (ok (a, r)) = (ok a, record w { repository = r })
outcome_of w (err fault) = (err fault, w)

abbrev pub repository_call {ℓ} :
    {A : Type ℓ} → (Repository → Result ExecutionFault (A × Repository)) → Method A
repository_call f w = outcome_of w (f w.repository)

abbrev pub saves : DemoExecutionRecord → Method DemoExecutionRecord
saves x = repository_call (λ r. elim (save x r) [ ok r' ↦ ok (x, r') | err fault ↦ err fault ])

abbrev pub appends : ExecutionControlEvent → Method (Unit {0})
appends event =
    repository_call
      (λ r. elim (append_control_event event r) [ ok r' ↦ ok (tt, r') | err fault ↦ err fault ])

-- The broker call that may place an order, logged before its answer is known.
abbrev pub logs : DemoOrderIntent → Method (Unit {0})
logs intent w = (ok tt, record w { sent = intent.execution_intent_id ∷ w.sent })

abbrev pub some_failure : DemoExecutionFailureCategory → String → Option DemoExecutionFailure
some_failure code detail = some (failure_of code detail)

abbrev pub halted_from : ExecutionControlState → ℕ → String → ExecutionControlEvent
halted_from previous at reason = record {
  previous_state = some previous;
  state = ExecutionControlState.halted;
  occurred_at = at;
  reason = reason;
}

-- `_halt`
unfoldable pub halt : ℕ → String → Method (Unit {0})
halt at reason w =
    let previous = control_state w.repository in
    if same_control previous ExecutionControlState.halted
    then (ok tt, w)
    else appends (halted_from previous at reason) w

-- `_advance` and the `save` behind it
unfoldable pub moves :
    DemoExecutionRecord
    → DemoExecutionState
    → ℕ
    → Option DemoExecutionFailure
    → Option DemoSubmissionReceipt
    → Option DemoReconciliationRecord
    → Method DemoExecutionRecord
moves x state at failure submission reconciliation =
    lifts (validated (advance x state at failure submission reconciliation)) >>= λ y. saves y

-- `_reject_before_dispatch`
abbrev pub reject_before_dispatch :
    DemoExecutionRecord → Option DemoExecutionFailure → ℕ → Method DemoExecutionRecord
reject_before_dispatch x failure at = moves x DemoExecutionState.rejected at failure none none

module _ (clock : ℕ → Datetime) where
  -- `_now`
  abbrev pub now : Method ℕ
  now w = (
    normalize_utc
        (ExecutionFault.execution_error (
          failure_of DemoExecutionFailureCategory.unknown "execution clock must be timezone-aware"))
        (clock w.readings),
    record w { readings = suc w.readings },
  )
