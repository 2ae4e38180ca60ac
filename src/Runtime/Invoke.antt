-- ===== src/Runtime/Invoke.antt =====
-- `RuntimeRouter.invoke` of src/ai_trading_team/runtime/router.py around its attempts.
use my_team_tradding.Budget.Guard.{same_provider}
use my_team_tradding.Budget.Ledger.{Ledger, mark_uncertain, settle}
use my_team_tradding.Budget.Types.{
  BudgetFault, BudgetReservation, ModelProvider, RuntimeFailureCategory, RuntimeProfile,
  invalid_model_output, invalid_prompt_reference, invalid_request, invocation_error,
  provider_unavailable, value_error,
}
use my_team_tradding.Decimal.{Decimal}
use my_team_tradding.Orchestration.Failures.{resolve}
use my_team_tradding.Prelude.{
  Bool, Option, String, [], if◌then◌else◌, ltb, none, some, str_eq, ℕ, ◌-◌,
}
use my_team_tradding.Prelude.Result.{Result, err, ok}
use my_team_tradding.Prelude.State.{lifts, returns, ◌>>=◌}
use my_team_tradding.Runtime.Compatibility.{validate_compatibility}
use my_team_tradding.Runtime.Router.{
  Routine, Session, Settings, Surroundings, ledger_call, monotonic, raised, reported_cost, tries,
  updates, utc_now,
}
use my_team_tradding.Runtime.Telemetry.{
  build_telemetry, build_trace, cost_by, failure_record, prior_attempts_are_released,
  reserved_amount_of,
}
use my_team_tradding.Runtime.Types.{
  AgentFailureRecord, AgentInvocationRequest, AgentInvocationResult, AgentOutput, AgentOutputStatus,
  InvocationTelemetry, InvocationTrace, InvocationUsage, ModelProviderAdapter, PromptArtifact,
  ProviderError, ProviderResponse, RetryPolicy, degraded, success,
}

abbrev pub new_session : Ledger → ℕ → ℕ → Session
new_session l readings ticks = record {
  ledger = l;
  readings = readings;
  ticks = ticks;
  attempts = 0;
  attempt_reservations = [];
  reservation_state = none;
  provider_response = none;
}

abbrev pub usage_of : Option ProviderResponse → InvocationUsage
usage_of none = record { input_tokens = none; output_tokens = none }
usage_of (some response) = response.usage

-- `_telemetry`; the latency, which is a field of the telemetry, may not be negative.
unfoldable pub telemetry : Surroundings → Settings → ℕ → Routine InvocationTelemetry
unfolding reported_cost build_telemetry reserved_amount_of
telemetry s g started_monotonic = monotonic s >>= λ moment w.
    let cost = reported_cost s.context (usage_of w.provider_response) g.pricing in
    let priced =
      cost_by (prior_attempts_are_released w.attempt_reservations) cost w.attempt_reservations in
    (
      if ltb moment started_monotonic
          then err value_error
          else build_telemetry (record {
            attempt_count = w.attempts;
            retry_count = w.attempts - 1;
            estimated_cost = priced.0;
            estimated_cost_availability = priced.1;
            reservation_state = w.reservation_state;
            attempt_reservations = w.attempt_reservations;
          }),
      w,
    )

-- `_trace`
abbrev pub trace : ℕ → ℕ → Routine InvocationTrace
trace started_at completed_at w = (
  build_trace (record {
    request_started_at = started_at;
    request_completed_at = completed_at;
    attempts = w.attempts;
  }),
  w,
)

abbrev pub invalid_output_error : String → BudgetFault
invalid_output_error detail = invocation_error invalid_model_output detail

abbrev pub found_prompt : Option PromptArtifact → Result BudgetFault PromptArtifact
found_prompt none =
    err (invocation_error invalid_prompt_reference "prompt artifact could not be resolved")
found_prompt (some prompt) = ok prompt

abbrev pub found_adapter :
    ModelProvider → Option ModelProviderAdapter → Result BudgetFault ModelProviderAdapter
found_adapter provider none =
    err (invocation_error provider_unavailable "configured provider adapter is unavailable")
found_adapter provider (some adapter) =
    if same_provider adapter.provider provider
    then ok adapter
    else err (invocation_error provider_unavailable "configured provider adapter is unavailable")

abbrev pub enveloped : Bool → Result BudgetFault (Unit {0})
enveloped fits =
    if fits
    then ok tt
    else err
        (invalid_output_error "validated body is incompatible with the trusted output envelope")

abbrev pub same_retry_policy : RuntimeProfile → RetryPolicy → Result BudgetFault (Unit {0})
same_retry_policy runtime policy =
    if str_eq runtime.retry_policy_ref policy.policy_ref
    then ok tt
    else err (
        invocation_error invalid_request
          "runtime retry policy reference does not match supplied policy")

module _ (s : Surroundings) (g : Settings) (invocation : AgentInvocationRequest)
    (started_at started_monotonic : ℕ) where
  -- The response is paid for: settled at its reported cost, uncertain without one.
  unfoldable pub pays : Option Decimal → ℕ → ℕ → Routine BudgetReservation
  unfolding mark_uncertain settle
  pays none attempt at = ledger_call (mark_uncertain (invocation.invocation_id, attempt) at)
  pays (some cost) attempt at = ledger_call (settle (invocation.invocation_id, attempt) cost at)

  abbrev pub result_of :
      InvocationTrace
      → InvocationTelemetry
      → Option AgentOutput
      → Option AgentFailureRecord
      → Option RuntimeFailureCategory
      → AgentInvocationResult
  result_of t m output failure category = record {
    trace = t;
    output = output;
    failure = failure;
    runtime_failure_category = category;
    telemetry = m;
  }

  abbrev pub status_of : Bool → AgentOutputStatus
  status_of warned = if warned then degraded else success

  -- The output of a response whose body was parsed.
  abbrev pub produces : ProviderResponse → Bool → Routine AgentInvocationResult
  produces response warned =
      lifts (enveloped (s.parsing.fits_envelope invocation response)) >>= λ fitting.
      utc_now s >>= λ completed_at. trace started_at completed_at >>= λ t.
      telemetry s g started_monotonic >>= λ m. returns (
        result_of t m
          (some (record {
            output_id = invocation.output_id;
            produced_at = response.responded_at;
            status = status_of warned;
          }))
          none none)

  abbrev pub parses : ProviderResponse → Option Bool → Routine AgentInvocationResult
  parses response none =
      lifts
        (err (invalid_output_error "provider response failed strict structured-output validation"))
  parses response (some warned) = produces response warned

  -- What follows the attempts: `assert last_error is not None` where there is no response.
  unfoldable pub completes :
      Option ProviderError → Option ProviderResponse → ℕ → Routine AgentInvocationResult
  unfolding reported_cost telemetry
  completes none none attempt = lifts (err value_error)
  completes (some failure) none attempt = lifts (err (raised failure))
  completes last_error (some response) attempt = utc_now s >>= λ at.
      pays (reported_cost s.context response.usage g.pricing) attempt at >>= λ r.
      updates r >>= λ done.
      parses response (s.parsing.parse_model_body invocation.descriptor.role response.response_json)

  -- The body of `try`.
  unfoldable pub tries_to_invoke : Routine AgentInvocationResult
  unfolding validate_compatibility tries
  tries_to_invoke = lifts (same_retry_policy g.runtime g.retry_policy) >>= λ same.
      lifts (
        found_prompt (
          s.prompts invocation.descriptor.prompt_ref.prompt_id
            invocation.descriptor.prompt_ref.prompt_version))
      >>= λ prompt.
          lifts (found_adapter g.runtime.provider (s.providers g.runtime.provider)) >>= λ adapter.
          lifts adapter.prepare >>= λ prepared. lifts adapter.estimate_input_tokens >>= λ estimate.
          lifts (validate_compatibility invocation prompt g.runtime g.capability estimate)
          >>= λ fits.
              tries s g invocation adapter estimate started_monotonic g.retry_policy.max_attempts 1
              >>= λ last_error w. completes last_error w.provider_response w.attempts w

  -- The handler: a known rejection becomes a failure, any other exception goes on.
  unfoldable pub handles : BudgetFault → Routine AgentInvocationResult
  unfolding telemetry resolve
  handles (invocation_error category detail) = utc_now s >>= λ completed_at.
      trace started_at completed_at >>= λ t.
      lifts (failure_record invocation.descriptor.role category detail completed_at) >>= λ failure.
      telemetry s g started_monotonic >>= λ m.
      returns (result_of t m none (some failure) (some category))
  handles fault = lifts (err fault)

  abbrev pub caught :
      Result BudgetFault AgentInvocationResult × Session
      → Result BudgetFault AgentInvocationResult × Session
  caught (ok result, w) = (ok result, w)
  caught (err fault, w) = handles fault w

  unfoldable pub invoke_from : Routine AgentInvocationResult
  unfolding tries_to_invoke handles
  invoke_from w = caught (tries_to_invoke w)

-- `invoke`, from what the ledger and the clocks are.
unfoldable pub invoke :
    Surroundings
    → Settings
    → AgentInvocationRequest
    → Ledger
    → ℕ
    → ℕ
    → Result BudgetFault AgentInvocationResult × Session
unfolding invoke_from
invoke s g invocation l readings ticks =
    (utc_now s >>= λ started_at.
    monotonic s >>= λ started_monotonic. invoke_from s g invocation started_at started_monotonic)
      (new_session l readings ticks)
