-- ===== src/Orchestration/Failures.antt =====
-- `AgentFailurePolicy` of src/ai_trading_team/orchestration/failures.py.
pub mod Degraded
use my_team_tradding.Prelude.{Bool, Option, false, if◌then◌else◌, none, some, true, ◌&&◌, ◌||◌}
use my_team_tradding.Prelude.Int.{leb_ℤ, ltb_ℤ, pos, ℤ}
use my_team_tradding.Prelude.Result.{Result, err, ok}

pub data AgentRole : Type 0 where
  market_context trend_analyst price_action_analyst : AgentRole
  entry_analyst quant_researcher senior_quant_developer : AgentRole
  skeptic chief_trader performance_reviewer : AgentRole

pub data AgentFailureCategory : Type 0 where
  timeout invalid_output missing_required_upstream : AgentFailureCategory
  unavailable_agent stale_snapshot invalid_snapshot : AgentFailureCategory
  schema_mismatch unknown : AgentFailureCategory

pub data FailureDisposition : Type 0 where
  continue_degraded hold abort_cycle : FailureDisposition

-- The `ValueError` of a count that is no number of the three stage-one agents.
pub data PolicyFault : Type 0 where
  value_error : PolicyFault

abbrev pub is_stage_one : Option AgentRole → Bool
is_stage_one (some market_context) = true
is_stage_one (some trend_analyst) = true
is_stage_one (some price_action_analyst) = true
is_stage_one _ = false

-- The roles whose absence degrades a cycle and does not stop it.
abbrev pub is_advisory : Option AgentRole → Bool
is_advisory (some quant_researcher) = true
is_advisory (some senior_quant_developer) = true
is_advisory (some performance_reviewer) = true
is_advisory _ = false

abbrev pub is_reviewer : Option AgentRole → Bool
is_reviewer (some performance_reviewer) = true
is_reviewer _ = false

-- An agent that did not answer.
unfoldable pub resolve_absence : Option AgentRole → ℤ → FailureDisposition
resolve_absence role stage_one_successes =
    if is_advisory role
    then continue_degraded
    else if is_stage_one role && leb_ℤ (pos 2) stage_one_successes
    then continue_degraded
    else hold

unfoldable pub resolve_category : AgentFailureCategory → Option AgentRole → ℤ → FailureDisposition
unfolding resolve_absence
resolve_category invalid_snapshot role n = abort_cycle
resolve_category schema_mismatch role n = abort_cycle
resolve_category unknown role n = abort_cycle
resolve_category stale_snapshot role n = hold
resolve_category missing_required_upstream role n = hold
resolve_category invalid_output role n = if is_reviewer role then continue_degraded else hold
resolve_category timeout role n = resolve_absence role n
resolve_category unavailable_agent role n = resolve_absence role n

unfoldable pub resolve :
    AgentFailureCategory → Option AgentRole → ℤ → Result PolicyFault FailureDisposition
unfolding resolve_category
resolve category role stage_one_successes =
    if ltb_ℤ stage_one_successes (pos 0) || ltb_ℤ (pos 3) stage_one_successes
    then err value_error
    else ok (resolve_category category role stage_one_successes)

pub data FreshnessState : Type 0 where
  fresh stale : FreshnessState

-- `market.freshness.overall is FreshnessState.STALE`
unfoldable pub stale_snapshot_disposition : FreshnessState → Option FailureDisposition
stale_snapshot_disposition stale = some hold
stale_snapshot_disposition fresh = none
