-- ===== src/Runtime/Examples.antt =====
-- An invocation whose first attempt times out and whose second is answered.
use my_team_tradding.Budget.Examples.{budget, calendar, model, prices}
use my_team_tradding.Budget.Guard.{
  estimate_maximum_cost, estimate_reported_cost, preflight, reserve,
}
use my_team_tradding.Budget.Ledger.{
  charge, check_limits, get, has_any_attempt, has_attempt, has_key, is_active, mark_dispatched,
  mark_uncertain, put, release_undispatched_attempt, require, reserve_if_within, same_key, settle,
  total, transition,
}
use my_team_tradding.Budget.Types.{
  BudgetReservation, BudgetReservationState, dispatched, effort_none, openai, settled, uncertain,
  value_error,
}
use my_team_tradding.Decimal.{Decimal}
use my_team_tradding.Decimal.RoundUp.{round_up}
use my_team_tradding.Orchestration.Failures.{AgentRole}
use my_team_tradding.Prelude.{
  Option, [], arith, false, if◌then◌else◌, none, refl, some, true, ℕ, ◌+◌, ◌==◌, ◌∷◌, ◌≡◌, ◌≤◌,
}
use my_team_tradding.Prelude.Int.{abs_ℤ, ltb_ℤ, pos, ◌+ℤ◌}
use my_team_tradding.Prelude.Result.{err, ok}
use my_team_tradding.Prelude.State.{◌>>=◌}
use my_team_tradding.Runtime.Closed.{Closed}
use my_team_tradding.Runtime.Closed.Invocations.{invoke-IsClosed}
use my_team_tradding.Runtime.Compatibility.{input_type, same_role, validate_compatibility}
use my_team_tradding.Runtime.Invoke.{
  caught, completes, handles, invoke, invoke_from, pays, telemetry, tries_to_invoke,
}
use my_team_tradding.Runtime.Overrun.{completes_above_reservation}
use my_team_tradding.Runtime.Router.{
  Session, Settings, Surroundings, attempts_once, closes, concludes, reported_cost, retry_allowed,
  tries,
}
use my_team_tradding.Runtime.Telemetry.{
  build_telemetry, counted, is_numbered_down, reserved_amount_of,
}
use my_team_tradding.Runtime.Types.{
  AgentInvocationRequest, AgentInvocationResult, ModelCapabilityProfile, PromptArtifact,
  ProviderOutcome, ProviderResponse, RetryPolicy, SchemaReference, metric_estimated,
  provider_tokenizer, responded, success, timed_out,
}
use my_team_tradding.Time.{aware, normalize_utc}

abbrev retries : RetryPolicy
retries = record {
  policy_ref = "retry-v1";
  max_attempts = 3;
  retry_timeouts = true;
  retry_transient_errors = true;
  retry_rate_limits = false;
}

abbrev able : ModelCapabilityProfile
able = record {
  profile_ref = "gpt-capability";
  provider = openai;
  model_identifier = "gpt";
  structured_output_supported = true;
  json_schema_supported = true;
  reasoning_configuration_supported = false;
  supported_reasoning_efforts = effort_none ∷ [];
  max_context_tokens = 4000;
  max_output_tokens = 1000;
  token_estimation_methods = provider_tokenizer ∷ [];
  adapter_contract_accepted = true;
  live_smoke_accepted = true;
}

abbrev schema : SchemaReference
schema = record { schema_id = "SkepticInput"; schema_version = "1.0.0"; schema_digest = "sha256:1" }

abbrev skeptic_prompt : PromptArtifact
skeptic_prompt = record {
  prompt_id = "skeptic";
  prompt_version = "1.0.0";
  role = AgentRole.skeptic;
  content_digest = "sha256:2";
  compatible_input_schema = schema;
  compatible_output_schema = schema;
}

abbrev asked : AgentInvocationRequest
asked = record {
  invocation_id = "i1";
  output_id = "o1";
  cycle_id = "c1";
  descriptor = record {
    role = AgentRole.skeptic;
    prompt_ref = record {
      prompt_id = "skeptic";
      prompt_version = "1.0.0";
      content_digest = some "sha256:2";
    };
    runtime_profile_ref = "fast";
  };
  input_schema = schema;
  output_schema = schema;
  context_type = "SkepticInput";
}

abbrev reply : ℕ → ℕ → ProviderResponse
reply input output = record {
  response_json = "{}";
  responded_at = 30;
  usage = record { input_tokens = some input; output_tokens = some output };
}

abbrev outcomes : ProviderResponse → ℕ → ProviderOutcome
outcomes response attempt = if attempt == 1 then timed_out else responded response

abbrev world : ProviderResponse → Surroundings
world response = record {
  clock = λ n. aware (20 + n);
  monotonic_clock = λ n. n;
  prompts = λ prompt_id prompt_version. some skeptic_prompt;
  providers = λ provider. some (record {
    provider = openai;
    prepare = ok tt;
    estimate_input_tokens = ok (record { tokens = some 500; method = provider_tokenizer });
    invoke = outcomes response;
  });
  parsing = record {
    parse_model_body = λ role text. some false;
    fits_envelope = λ invocation response. true;
  };
  context = round_up;
  calendar = calendar;
}

abbrev settings : Settings
settings = record {
  runtime = model;
  capability = able;
  retry_policy = retries;
  budget_policy = budget;
  pricing = prices;
}

abbrev attempt_of : ℕ → BudgetReservationState → Option Decimal → ℕ → ℕ → BudgetReservation
attempt_of attempt state paid created_at updated_at = record {
  invocation_id = "i1";
  attempt_number = attempt;
  cycle_id = "c1";
  policy_ref = "team-v1";
  state = state;
  reserved_amount = pos 3000;
  settled_amount = paid;
  currency = "USD";
  created_at = created_at;
  updated_at = updated_at;
}

abbrev timed_out_attempt : BudgetReservation
timed_out_attempt = attempt_of 1 uncertain none 21 23

abbrev paid_attempt : BudgetReservation
paid_attempt = attempt_of 2 settled (some (pos 1500)) 24 26

abbrev result : AgentInvocationResult
result = record {
  trace = record { request_started_at = 20; request_completed_at = 27; attempts = 2 };
  output = some (record { output_id = "o1"; produced_at = 30; status = success });
  failure = none;
  runtime_failure_category = none;
  telemetry = record {
    attempt_count = 2;
    retry_count = 1;
    estimated_cost = some (pos 4500);
    estimated_cost_availability = metric_estimated;
    reservation_state = some settled;
    attempt_reservations = paid_attempt ∷ (timed_out_attempt ∷ []);
  };
}

abbrev session : Session
session = record {
  ledger = (("i1", 1), timed_out_attempt) ∷ ((("i1", 2), paid_attempt) ∷ []);
  readings = 8;
  ticks = 4;
  attempts = 2;
  attempt_reservations = paid_attempt ∷ (timed_out_attempt ∷ []);
  reservation_state = some settled;
  provider_response = some (reply 500 100);
}

ran : invoke (world (reply 500 100)) settings asked [] 0 0 ≡ (ok result, session)
unfolding invoke invoke_from tries_to_invoke completes handles tries attempts_once concludes closes
    pays validate_compatibility input_type same_role retry_allowed reported_cost telemetry
    build_telemetry is_numbered_down reserved_amount_of counted estimate_reported_cost reserve
    preflight estimate_maximum_cost reserve_if_within check_limits total is_active charge has_key
    get put has_attempt has_any_attempt ltb_ℤ ◌+ℤ◌ round_up abs_ℤ mark_dispatched transition require
    same_key settle mark_uncertain release_undispatched_attempt normalize_utc ◌>>=◌
ran = refl

invoke-IsClosed_example :
    (2 ≤ 3) × Closed "i1" [] ((("i1", 1), timed_out_attempt) ∷ ((("i1", 2), paid_attempt) ∷ [])) 2
invoke-IsClosed_example =
    invoke-IsClosed (world (reply 500 100)) settings asked [] 0 0 result session ran

-- A usage of 2000 and 100 tokens costs 4500, above the 3000 that were reserved.
ran_over : (invoke (world (reply 2000 100)) settings asked [] 0 0).0 ≡ err value_error
unfolding invoke invoke_from tries_to_invoke completes handles tries attempts_once concludes closes
    pays validate_compatibility input_type same_role retry_allowed reported_cost telemetry
    build_telemetry is_numbered_down reserved_amount_of counted estimate_reported_cost reserve
    preflight estimate_maximum_cost reserve_if_within check_limits total is_active charge has_key
    get put has_attempt has_any_attempt ltb_ℤ ◌+ℤ◌ round_up abs_ℤ mark_dispatched transition require
    same_key settle mark_uncertain release_undispatched_attempt normalize_utc ◌>>=◌
ran_over = refl

abbrev waiting : Session
waiting = record {
  ledger = (("i1", 1), attempt_of 1 dispatched none 21 22) ∷ [];
  readings = 3;
  ticks = 2;
  attempts = 1;
  attempt_reservations = attempt_of 1 dispatched none 21 22 ∷ [];
  reservation_state = some dispatched;
  provider_response = some (reply 2000 100);
}

reported_above : reported_cost round_up (reply 2000 100).usage prices ≡ some (pos 4500)
unfolding reported_cost estimate_reported_cost estimate_maximum_cost ◌+ℤ◌ round_up abs_ℤ
reported_above = refl

found_waiting : get ("i1", 1) waiting.ledger ≡ some (attempt_of 1 dispatched none 21 22)
unfolding get same_key
found_waiting = refl

completes_above_reservation_example :
    caught (world (reply 2000 100)) settings asked 20 0 (
      completes (world (reply 2000 100)) settings asked 20 0 none (some (reply 2000 100)) 1 waiting)
    ≡ (err value_error, record waiting { readings = 4 })
completes_above_reservation_example =
    completes_above_reservation (world (reply 2000 100)) settings asked 20 0 (reply 2000 100) 1 23
      (pos 4500) (attempt_of 1 dispatched none 21 22) waiting refl reported_above found_waiting
      (omega arith)
