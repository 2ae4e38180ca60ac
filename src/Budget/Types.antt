-- ===== src/Budget/Types.antt =====
-- The records of the AI budget: `schemas/runtime.py`, `schemas/enums.py` and `runtime/errors.py`
-- under src/ai_trading_team. A record has the fields that the budget reads.
use my_team_tradding.Decimal.{Decimal}
use my_team_tradding.Prelude.{Bool, Option, String, false, true, ℕ, ◌/◌}

pub data BudgetReservationState : Type 0 where
  reserved dispatched settled released uncertain : BudgetReservationState

pub data RuntimeFailureCategory : Type 0 where
  invalid_request invalid_prompt_reference schema_incompatible : RuntimeFailureCategory
  capability_incompatible budget_exceeded duplicate_invocation : RuntimeFailureCategory
  provider_unavailable provider_authentication provider_permission : RuntimeFailureCategory
  provider_rate_limit provider_transient provider_timeout provider_refusal : RuntimeFailureCategory
  invalid_model_output unknown_provider_error : RuntimeFailureCategory

-- `RuntimeInvocationError`, and the built-in `ValueError` and `KeyError`.
pub data BudgetFault : Type 0 where
  invocation_error : RuntimeFailureCategory → String → BudgetFault
  value_error key_error : BudgetFault

pub data ModelProvider : Type 0 where
  openai anthropic gemini fake : ModelProvider

pub data ReasoningEffort : Type 0 where
  effort_none effort_low effort_medium effort_high : ReasoningEffort

-- `require_structured_output` and `require_json_schema` are `Literal[True]`, so they have no field.
pub record RuntimeProfile : Type 0 where
  pub profile_ref : String
  pub provider : ModelProvider
  pub model_identifier : String
  pub cost_policy_ref : String
  pub pricing_profile_ref : String
  pub max_output_tokens : ℕ
  pub request_timeout_seconds : ℕ
  pub total_timeout_seconds : ℕ
  pub reasoning_effort : ReasoningEffort
  pub capability_profile_ref : String
  pub retry_policy_ref : String

pub record PricingProfile : Type 0 where
  pub profile_ref : String
  pub provider : ModelProvider
  pub model_identifier : String
  pub currency : String
  pub input_cost_per_million_tokens : Decimal
  pub output_cost_per_million_tokens : Decimal
  pub valid_from : ℕ
  pub valid_until : Option ℕ

pub record AiBudgetPolicy : Type 0 where
  pub policy_ref : String
  pub currency : String
  pub maximum_estimated_cost_per_call : Decimal
  pub daily_budget : Decimal
  pub monthly_budget : Decimal
  pub maximum_calls_per_cycle : ℕ
  pub maximum_calls_per_day : ℕ
  pub maximum_input_tokens : ℕ
  pub maximum_output_tokens : ℕ

pub record BudgetReservation : Type 0 where
  pub invocation_id : String
  pub attempt_number : ℕ
  pub cycle_id : String
  pub policy_ref : String
  pub state : BudgetReservationState
  pub reserved_amount : Decimal
  pub settled_amount : Option Decimal
  pub currency : String
  pub created_at : ℕ
  pub updated_at : ℕ

-- `datetime`'s calendar: the (year, month) of a day, as one number.
pub record Calendar : Type 0 where
  pub month : ℕ → ℕ

-- `created_at.date()`: the number of the UTC day of an instant in microseconds.
abbrev pub day_of : ℕ → ℕ
day_of t = t / 86400000000

abbrev pub same_state : BudgetReservationState → BudgetReservationState → Bool
same_state reserved reserved = true
same_state dispatched dispatched = true
same_state settled settled = true
same_state released released = true
same_state uncertain uncertain = true
same_state _ _ = false
