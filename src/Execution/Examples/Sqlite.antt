-- ===== src/Execution/Examples/Sqlite.antt =====
-- The tables of a repository in which one record is claimed and moved on, with one transaction that
-- fails; and two control events of which the second has the earlier time.
use my_team_tradding.Execution.Examples.{intent, risk_decision}
use my_team_tradding.Execution.Lifecycle.{
  updated, DemoExecutionRecord, DemoExecutionState, all_pairs, build_execution, is_allowed,
  is_valid_history, is_valid_lifecycle,
}
use my_team_tradding.Execution.Records.{ExecutionControlState}
use my_team_tradding.Execution.Sqlite.{SqliteRepository, empty_store, insert_claim, insert_revision}
use my_team_tradding.Execution.Sqlite.Calls.{
  Call, claims, controls_execution, run_calls, run_calls-reloads, saves_record,
}
use my_team_tradding.Execution.Sqlite.Reload.{load}
use my_team_tradding.Execution.Store.{ExecutionControlEvent, TextOrder, control_state}
use my_team_tradding.Execution.Store.Records.{claim, claimed_record, get_record, is_update, save}
use my_team_tradding.Prelude.{
  List, Option, [], none, refl, some, ℕ, ℕ_discrete, ◌∷◌, ◌≡◌, false, true,
}
use my_team_tradding.Prelude.Dict.{has, insert, lookup}

abbrev in_order : TextOrder
in_order x y = true

abbrev claimed_once : DemoExecutionRecord
claimed_once = claimed_record intent risk_decision "w1" 11

abbrev dispatched_once : DemoExecutionRecord
dispatched_once = updated claimed_once DemoExecutionState.dispatching 12 none none none

abbrev calls : List Call
calls =
    claims true intent risk_decision "w1" 11
    ∷ saves_record false dispatched_once
    ∷ saves_record true dispatched_once
    ∷ claims true intent risk_decision "w2" 13
    ∷ []

run_calls-reloads_example :
    get_record "e1" (load in_order (run_calls calls empty_store).database)
    ≡ get_record "e1" (run_calls calls empty_store).memory
run_calls-reloads_example = run_calls-reloads in_order calls "e1"

reads_back : get_record "e1" (run_calls calls empty_store).memory ≡ some dispatched_once
unfolding run_calls claim has lookup build_execution is_valid_lifecycle is_valid_history all_pairs
    is_allowed save is_update insert insert_claim insert_revision get_record ℕ_discrete
reads_back = refl

abbrev control_at : Option ExecutionControlState → ExecutionControlState → ℕ → ExecutionControlEvent
control_at previous state at = record {
  previous_state = previous;
  state = state;
  occurred_at = at;
  reason = "operator";
}

-- The execution is halted, by an event whose time is before that of its enabling.
abbrev halting : SqliteRepository
halting =
    run_calls
      (controls_execution true "v1" (control_at none ExecutionControlState.disabled 5)
        ∷ (controls_execution true "v2"
              (control_at (some ExecutionControlState.disabled) ExecutionControlState.enabled 20)
            ∷ (controls_execution true "v3"
                  (control_at (some ExecutionControlState.enabled) ExecutionControlState.halted 15)
                ∷ [])))
      empty_store

memory_is_halted : control_state halting.memory ≡ ExecutionControlState.halted
unfolding run_calls control_state has lookup
memory_is_halted = refl

restart_is_enabled : control_state (load in_order halting.database) ≡ ExecutionControlState.enabled
unfolding run_calls control_state load has lookup
restart_is_enabled = refl
