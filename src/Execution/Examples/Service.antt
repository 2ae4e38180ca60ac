-- ===== src/Execution/Examples/Service.antt =====
-- One execution on a broker that answers and on one that does not, and the theorems of the service at
-- it.
use my_team_tradding.Decimal.RoundUp.{round_up}
use my_team_tradding.Execution.Authority.{
  approval_failure, approval_matches, standing_checks, validate_execution_authority,
}
use my_team_tradding.Execution.Examples.{
  candidate, digests, environment, fill_of, human_approval, intent, limits, risk_decision,
  sample_receipt, terminal,
}
use my_team_tradding.Execution.Guard.{
  build_result, claim_checks, evaluate_guard, guard_failure, linkage_checks, linkage_matches,
  validate_linkage, validate_observation,
}
use my_team_tradding.Execution.Lifecycle.{
  DemoExecutionRecord, DemoExecutionState, advance, all_pairs, build_execution, is_allowed,
  is_valid_history, is_valid_lifecycle, updated,
}
use my_team_tradding.Execution.Reconciliation.{DemoSubmissionReceipt}
use my_team_tradding.Execution.Records.{ExecutionControlState}
use my_team_tradding.Execution.Service.{DemoExecutionAdapter, World, halt, moves, some_failure}
use my_team_tradding.Prelude.State.{◌>>=◌}
use my_team_tradding.Execution.Service.Dispatch.{
  checked, dispatch, execute_intent, guard_call, guarded, obey, observed, submission_lost,
  submission_over,
}
use my_team_tradding.Execution.Service.Guarded.{WasSent, execute_intent-IsGuarded}
use my_team_tradding.Execution.Service.Halts.{execute_intent-IsHalted}
use my_team_tradding.Execution.Service.Sent.{dispatches_of, times_sent}
use my_team_tradding.Execution.Service.Sent.Runs.{Run, Run-IsOnce, controls, executes}
use my_team_tradding.Execution.Store.{
  ExecutionControlEvent, ExecutionFault, append_control_event, approval_is_revoked, control_state,
  empty_repository,
}
use my_team_tradding.Execution.Store.Records.{
  claim, claim_is_owned, claimed_record, is_update, save,
}
use my_team_tradding.Execution.Store.Recovery.{unknown_receipt}
use my_team_tradding.Execution.Terminal.{account_checks, capability_checks, quote_checks}
use my_team_tradding.Execution.Types.{dispatch_result_unknown, first_failure}
use my_team_tradding.Prelude.{
  List, Option, [], none, refl, some, suc, true, zero, ℕ, ℕ_discrete, ◌∷◌, ◌≡◌, ◌≤◌, ◌⊎◌,
}
use my_team_tradding.Prelude.Dict.{has, insert, lookup}
use my_team_tradding.Prelude.Int.{abs_ℤ, leb_ℤ, ltb_ℤ, pos, ◌-ℤ◌}
use my_team_tradding.Prelude.Result.{Result, ok}
use my_team_tradding.Time.{Datetime, aware, normalize_utc}

abbrev clock : ℕ → Datetime
clock n = elim n [ zero ↦ aware 11 | suc zero ↦ aware 15 | _ ↦ aware 16 ]

abbrev broker : Option DemoSubmissionReceipt → DemoExecutionAdapter
broker answer = record {
  order_check = λ x. some true;
  observe_final_dispatch = λ x. some terminal;
  submit_demo_market_intent = λ x. answer;
  find_broker_evidence = λ x receipt. some (fill_of (pos 2000) ∷ []);
}

abbrev controlled : Option ExecutionControlState → ExecutionControlState → ExecutionControlEvent
controlled previous state = record {
  previous_state = previous;
  state = state;
  occurred_at = 5;
  reason = "operator";
}

abbrev pub disabled_event : ExecutionControlEvent
disabled_event = controlled none ExecutionControlState.disabled

abbrev pub enabled_event : ExecutionControlEvent
enabled_event = controlled (some ExecutionControlState.disabled) ExecutionControlState.enabled

abbrev pub with_events : List ExecutionControlEvent → World
with_events events = record {
  repository = record empty_repository { control_events = events };
  readings = 0;
  sent = [];
}

abbrev enabled_world : World
enabled_world = with_events (enabled_event ∷ (disabled_event ∷ []))

abbrev execution : Option DemoSubmissionReceipt → Result ExecutionFault DemoExecutionRecord × World
execution answer =
    execute_intent clock (broker answer) round_up digests candidate environment human_approval
      limits "w1" intent risk_decision enabled_world

first_step :
    append_control_event disabled_event empty_repository
    ≡ ok (with_events (disabled_event ∷ [])).repository
unfolding append_control_event
first_step = refl

second_step :
    append_control_event enabled_event (with_events (disabled_event ∷ [])).repository
    ≡ ok enabled_world.repository
unfolding append_control_event
second_step = refl

Run-of :
    (answer : Option DemoSubmissionReceipt)
    → Run digests clock (with_events []) (execution answer).1
Run-of answer =
    Run.later
      (Run.later
        (Run.later Run.start
          (controls disabled_event (with_events (disabled_event ∷ [])).repository first_step))
        (controls enabled_event enabled_world.repository second_step))
      (executes (broker answer) round_up candidate environment human_approval limits "w1" intent
        risk_decision)

Run-IsOnce_example :
    (times_sent "e1" (execution none).1.sent ≤ 1)
    × (times_sent "e1" (execution none).1.sent
        ≤ dispatches_of (lookup "e1" (execution none).1.repository.records))
Run-IsOnce_example = Run-IsOnce digests clock (execution none).1 "e1" (Run-of none)

execute_intent-IsGuarded_example :
    ((execution (some sample_receipt)).1.sent ≡ [])
    ⊎ WasSent clock
        (broker (some sample_receipt))
        round_up
        digests
        candidate
        environment
        human_approval
        limits
        "w1"
        intent
        risk_decision
        enabled_world
        (execution (some sample_receipt)).1
execute_intent-IsGuarded_example =
    execute_intent-IsGuarded clock (broker (some sample_receipt)) round_up digests candidate
      environment human_approval limits "w1" intent risk_decision enabled_world

abbrev lost_record : DemoExecutionRecord
lost_record =
    updated
      (updated (claimed_record intent risk_decision "w1" 11) DemoExecutionState.dispatching 15 none
        none none)
      DemoExecutionState.unknown 16
      (some_failure dispatch_result_unknown
        "broker dispatch may have occurred; reconciliation only")
      (some (unknown_receipt intent 15 16)) none

-- The order is sent, its answer is lost, and the record says so.
lost_execution : execution none ≡ (ok lost_record, (execution none).1)
unfolding execute_intent ◌>>=◌ claim checked observed guarded guard_call obey dispatch moves advance
    build_execution is_valid_lifecycle is_valid_history all_pairs is_allowed save is_update lookup
    insert has submission_over submission_lost halt control_state append_control_event
    evaluate_guard guard_failure claim_checks first_failure validate_execution_authority
    standing_checks approval_failure approval_matches validate_observation account_checks
    quote_checks capability_checks validate_linkage linkage_checks linkage_matches build_result
    normalize_utc round_up ltb_ℤ leb_ℤ abs_ℤ ◌-ℤ◌ claim_is_owned approval_is_revoked ℕ_discrete
lost_execution = refl

execute_intent-IsHalted_example :
    control_state (execution none).1.repository ≡ ExecutionControlState.halted
execute_intent-IsHalted_example =
    execute_intent-IsHalted clock (broker none) round_up digests candidate environment
      human_approval limits "w1" intent risk_decision enabled_world (execution none).1 lost_record
      lost_execution refl
