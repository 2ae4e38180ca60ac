-- ===== src/Execution/Examples/Lifecycle.antt =====
-- The lifecycle of src/ai_trading_team/schemas/execution.py on a claimed record.
use my_team_tradding.Execution.Examples.{event_at, sealed_record}
use my_team_tradding.Execution.Lifecycle.{
  DemoExecutionState, advance, all_pairs, build_execution, has_evidence, is_allowed,
  is_valid_history, is_valid_lifecycle, updated,
}
use my_team_tradding.Execution.Lifecycle.Exact.{advance_exact}
use my_team_tradding.Execution.Lifecycle.Moves.{IsMove, advance-IsMove}
use my_team_tradding.Execution.Lifecycle.Once.{build_execution-IsOnce, dispatches_in}
use my_team_tradding.Prelude.{[], if◌then◌else◌, leb, length, none, refl, true, ◌&&◌, ◌∷◌, ◌≡◌, ◌≤◌}
use my_team_tradding.Prelude.Result.{err, ok}
use my_team_tradding.Risk.Types.{validation_error}

sealed_record_builds : build_execution sealed_record ≡ ok sealed_record
unfolding build_execution is_valid_lifecycle is_valid_history all_pairs is_allowed
sealed_record_builds = refl

build_execution-IsOnce_example :
    (sealed_record ≡ sealed_record)
    × (dispatches_in sealed_record.events ≤ 1)
    × (length sealed_record.events ≤ 6)
build_execution-IsOnce_example =
    build_execution-IsOnce sealed_record sealed_record sealed_record_builds

sealed_record-IsValid : is_valid_lifecycle sealed_record ≡ true
unfolding is_valid_lifecycle is_valid_history all_pairs is_allowed
sealed_record-IsValid = refl

sealed_record_dispatches :
    advance sealed_record DemoExecutionState.dispatching 12 none none none
    ≡ ok (updated sealed_record DemoExecutionState.dispatching 12 none none none)
unfolding advance build_execution is_valid_lifecycle is_valid_history all_pairs is_allowed
sealed_record_dispatches = refl

-- A claimed record cannot be confirmed at once.
claimed_not_confirmed :
    advance sealed_record DemoExecutionState.confirmed 12 none none none ≡ err validation_error
unfolding advance build_execution is_valid_lifecycle is_valid_history all_pairs is_allowed
claimed_not_confirmed = refl

advance-IsMove_example :
    IsMove sealed_record DemoExecutionState.dispatching 12 none
      (updated sealed_record DemoExecutionState.dispatching 12 none none none)
advance-IsMove_example =
    advance-IsMove sealed_record DemoExecutionState.dispatching 12 none none none
      (updated sealed_record DemoExecutionState.dispatching 12 none none none) sealed_record-IsValid
      sealed_record_dispatches

advance_exact_example : advance sealed_record DemoExecutionState.dispatching 12 none none none ≡ (
    if leb 11 12
      && (is_allowed DemoExecutionState.claimed DemoExecutionState.dispatching
          && has_evidence (updated sealed_record DemoExecutionState.dispatching 12 none none none))
    then ok (updated sealed_record DemoExecutionState.dispatching 12 none none none)
    else err validation_error)
advance_exact_example =
    advance_exact sealed_record (event_at 1 DemoExecutionState.created 10)
      (event_at 2 DemoExecutionState.claimed 11 ∷ []) DemoExecutionState.dispatching 12 none none
      none refl sealed_record-IsValid
