-- ===== src/Runtime/Types.antt =====
-- The records of an invocation: src/ai_trading_team/schemas/runtime.py, with the prompt reference and the
-- descriptor of schemas/agents.py and the errors of runtime/errors.py. A context is told by the name of
-- its class, since no input class of the contracts is below another.
use my_team_tradding.Budget.Types.{
  BudgetFault, BudgetReservation, BudgetReservationState, ModelProvider, ReasoningEffort,
  RuntimeFailureCategory,
}
use my_team_tradding.Decimal.{Decimal}
use my_team_tradding.Orchestration.Failures.{AgentFailureCategory, AgentRole, FailureDisposition}
use my_team_tradding.Prelude.{Bool, List, Option, String, ℕ}
use my_team_tradding.Prelude.Result.{Result}

pub data TokenEstimateMethod : Type 0 where
  provider_reported provider_tokenizer conservative_estimate unavailable : TokenEstimateMethod

pub data MetricAvailability : Type 0 where
  metric_reported metric_estimated metric_unavailable : MetricAvailability

pub data AgentOutputStatus : Type 0 where
  success degraded : AgentOutputStatus

pub record RetryPolicy : Type 0 where
  pub policy_ref : String
  pub max_attempts : ℕ
  pub retry_timeouts : Bool
  pub retry_transient_errors : Bool
  pub retry_rate_limits : Bool

pub record ModelCapabilityProfile : Type 0 where
  pub profile_ref : String
  pub provider : ModelProvider
  pub model_identifier : String
  pub structured_output_supported : Bool
  pub json_schema_supported : Bool
  pub reasoning_configuration_supported : Bool
  pub supported_reasoning_efforts : List ReasoningEffort
  pub max_context_tokens : ℕ
  pub max_output_tokens : ℕ
  pub token_estimation_methods : List TokenEstimateMethod
  pub adapter_contract_accepted : Bool
  pub live_smoke_accepted : Bool

pub record SchemaReference : Type 0 where
  pub schema_id : String
  pub schema_version : String
  pub schema_digest : String

pub record PromptArtifact : Type 0 where
  pub prompt_id : String
  pub prompt_version : String
  pub role : AgentRole
  pub content_digest : String
  pub compatible_input_schema : SchemaReference
  pub compatible_output_schema : SchemaReference

pub record PromptReference : Type 0 where
  pub prompt_id : String
  pub prompt_version : String
  pub content_digest : Option String

pub record AgentDescriptor : Type 0 where
  pub role : AgentRole
  pub prompt_ref : PromptReference
  pub runtime_profile_ref : String

pub record AgentInvocationRequest : Type 0 where
  pub invocation_id : String
  pub output_id : String
  pub cycle_id : String
  pub descriptor : AgentDescriptor
  pub input_schema : SchemaReference
  pub output_schema : SchemaReference
  pub context_type : String

pub record TokenEstimate : Type 0 where
  pub tokens : Option ℕ
  pub method : TokenEstimateMethod

-- The two counts that are priced.
pub record InvocationUsage : Type 0 where
  pub input_tokens : Option ℕ
  pub output_tokens : Option ℕ

pub record ProviderResponse : Type 0 where
  pub response_json : String
  pub responded_at : ℕ
  pub usage : InvocationUsage

pub record ProviderError : Type 0 where
  pub category : RuntimeFailureCategory
  pub detail : String
  pub retryable : Bool
  pub dispatch_occurred : Bool

-- What awaiting `adapter.invoke` under its time limit gives: a response, a `ProviderError`, the
-- `TimeoutError` of the limit, or another exception.
pub data ProviderOutcome : Type 0 where
  responded : ProviderResponse → ProviderOutcome
  refused : ProviderError → ProviderOutcome
  timed_out crashed : ProviderOutcome

-- The provider; a `value_error` of its calls stands for any exception that is no
-- `RuntimeInvocationError`.
pub record ModelProviderAdapter : Type 0 where
  pub provider : ModelProvider
  pub prepare : Result BudgetFault (Unit {0})
  pub estimate_input_tokens : Result BudgetFault TokenEstimate
  pub invoke : ℕ → ProviderOutcome

pub record InvocationTrace : Type 0 where
  pub request_started_at : ℕ
  pub request_completed_at : ℕ
  pub attempts : ℕ

pub record InvocationTelemetry : Type 0 where
  pub attempt_count : ℕ
  pub retry_count : ℕ
  pub estimated_cost : Option Decimal
  pub estimated_cost_availability : MetricAvailability
  pub reservation_state : Option BudgetReservationState
  pub attempt_reservations : List BudgetReservation

pub record AgentOutput : Type 0 where
  pub output_id : String
  pub produced_at : ℕ
  pub status : AgentOutputStatus

pub record AgentFailureRecord : Type 0 where
  pub category : AgentFailureCategory
  pub occurred_at : ℕ
  pub sanitized_detail : String
  pub disposition : FailureDisposition

-- A result has a telemetry, and an output or a failure with its category.
pub record AgentInvocationResult : Type 0 where
  pub trace : InvocationTrace
  pub output : Option AgentOutput
  pub failure : Option AgentFailureRecord
  pub runtime_failure_category : Option RuntimeFailureCategory
  pub telemetry : InvocationTelemetry
