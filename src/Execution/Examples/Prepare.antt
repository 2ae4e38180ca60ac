-- ===== src/Execution/Examples/Prepare.antt =====
-- The preparation of an order at a market where the risk engine approves, and its theorem at it.
-- Amounts are in thousandths.
use my_team_tradding.Decimal.{floor, is_divisible, rem}
use my_team_tradding.Decimal.RoundUp.{round_up}
use my_team_tradding.Execution.Authority.{
  approval_failure, approval_matches, standing_checks, validate_execution_authority,
}
use my_team_tradding.Execution.Examples.{
  candidate, digests, environment, human_approval, limits, shadow, terminal,
}
use my_team_tradding.Execution.Examples.Service.{disabled_event, enabled_event}
use my_team_tradding.Execution.Guard.{
  build_result, claim_checks, evaluate_guard, guard_failure, linkage_checks, linkage_matches,
  validate_linkage, validate_observation,
}
use my_team_tradding.Execution.Lifecycle.{
  advance, all_pairs, build_execution, is_allowed, is_valid_history, is_valid_lifecycle,
}
use my_team_tradding.Execution.Preflight.{
  DemoExecutionPreflight, FreshExecutionObservation, build_preflight, exact_deviation_points,
  freshness_checks, validate_fresh,
}
use my_team_tradding.Execution.Preflight.Fresh.{IsFresh, validate_fresh-IsFresh}
use my_team_tradding.Execution.Records.{
  DemoExecutionApproval, DemoExecutionEnvironmentAcceptance, DemoExecutionPolicy,
  QualifiedDemoExecutionCandidate, ShadowTradeIntent,
}
use my_team_tradding.Execution.Service.{DemoExecutionAdapter, World, halt, moves}
use my_team_tradding.Execution.Service.Authorized.{WasAuthorized, execute-IsAuthorized}
use my_team_tradding.Execution.Service.Dispatch.{
  checked, dispatch, execute_intent, guard_call, guarded, obey, observed, submission_lost,
  submission_over,
}
use my_team_tradding.Execution.Service.Prepare.{execute, observes, prepare, renews, seals, unsealed}
use my_team_tradding.Execution.Service.Revalidation.{
  Arrangement, Prepared, accepted_volume, fresh_proposal, fresh_risk_revalidation,
  require_single_approval, seal_intent, validate_authority, validate_risk_generation,
}
use my_team_tradding.Execution.Service.Sealed.{IsPrepared, prepare-IsPrepared}
use my_team_tradding.Execution.Store.Records.{claim, claim_is_owned, is_update, save}
use my_team_tradding.Execution.Store.{
  append_control_event, approval_is_revoked, control_state, effective_approvals, empty_repository,
  sort_by_id,
}
use my_team_tradding.Execution.Terminal.{
  FinalDispatchObservation, account_checks, capability_checks, quote_checks,
}
use my_team_tradding.Execution.Types.{first_failure}
use my_team_tradding.Prelude.{
  String, [], none, refl, some, suc, true, zero, ℕ, ℕ_discrete, ◌∷◌, ◌≡◌, ◌⊎◌,
}
use my_team_tradding.Prelude.Dict.{has, insert, lookup}
use my_team_tradding.Prelude.Int.{abs_ℤ, eqb_ℤ, leb_ℤ, ltb_ℤ, max_ℤ, min_ℤ, pos, ◌+ℤ◌, ◌-ℤ◌}
use my_team_tradding.Prelude.Result.{ok}
use my_team_tradding.Prelude.State.{◌>>=◌}
use my_team_tradding.Risk.Account.{
  account_fingerprint, account_metrics, account_state, context_reasons, evaluate, limit_reasons,
}
use my_team_tradding.Risk.Account.Total.{assessment}
use my_team_tradding.Risk.Engine.{RiskDecision, decide_risk, evaluate_risk}
use my_team_tradding.Risk.Examples.{cents, context, gold, printing, proposal, settings, snapshot}
use my_team_tradding.Risk.Proposal.{overruns, validate, validation}
use my_team_tradding.Risk.Sizing.{approve, build_sizing, calculate, sizing_base, step_overruns}
use my_team_tradding.Risk.Types.{
  AccountRiskContext, MarketSnapshot, TradeProposal, validate_constitution,
}
use my_team_tradding.Time.{Datetime, aware, normalize_utc}

abbrev preparation_account : String
preparation_account = "acct-v1:00"

abbrev accepted_environment : DemoExecutionEnvironmentAcceptance
accepted_environment = record environment { account_ref = preparation_account }

abbrev accepted_approval : DemoExecutionApproval
accepted_approval = record human_approval { account_ref = preparation_account }

abbrev analysed_shadow : ShadowTradeIntent
analysed_shadow = record shadow {
  proposal = proposal;
  selected_volume = cents 24;
  hypothetical_entry = cents 10000;
}

abbrev analysed_candidate : QualifiedDemoExecutionCandidate
analysed_candidate = record candidate {
  decision = record candidate.decision {
    shadow_record = some (record { shadow_trade_intent = some analysed_shadow });
  };
}

-- One tick of slippage at most.
abbrev tick_limits : DemoExecutionPolicy
tick_limits = record limits { maximum_adverse_slippage_ticks = pos 1000 }

abbrev fresh_snapshot : MarketSnapshot
fresh_snapshot = record snapshot { snapshot_id = "s2" }

abbrev fresh_context : AccountRiskContext
fresh_context = record context { snapshot_id = "s2" }

abbrev fresh_market : FreshExecutionObservation
fresh_market = record {
  environment_ref = "env";
  snapshot = fresh_snapshot;
  tick = record {
    symbol = "XAUUSD";
    source_time = 25;
    bid = cents 9999;
    ask = cents 10000;
    spread = cents 1;
  };
  context = fresh_context;
  account_positions = [];
  capabilities = terminal.capabilities;
}

abbrev preparation_clock : ℕ → Datetime
preparation_clock n = elim n [ zero ↦ aware 20 | suc zero ↦ aware 30 | _ ↦ aware 31 ]

abbrev arrangement : Arrangement
arrangement = record {
  clock = preparation_clock;
  capture = λ cycle snapshot_id. ok fresh_market;
  context = round_up;
  fingerprinting = printing;
  constitution = settings;
  risk_engine_version = "1.0.0";
  risk_policy_digest = "digest";
  digests = digests;
  identities = record {
    execution_snapshot_id = λ cycle at. "s2";
    revalidation_proposal_id = λ proposal_id snapshot_id. "r1";
    execution_intent_id = λ intent_digest environment_ref policy_digest. "e1";
    client_trade_id = λ id. "t1";
  };
  text_order = λ x y. true;
}

abbrev approved_world : World
approved_world = record {
  repository = record empty_repository {
    control_events = enabled_event ∷ disabled_event ∷ [];
    approvals = ("h1", accepted_approval) ∷ [];
  };
  readings = 0;
  sent = [];
}

abbrev facts : DemoExecutionPreflight
facts = record {
  analysis_snapshot_id = "s1";
  execution_snapshot_id = "s2";
  started_at = 20;
  completed_at = 30;
  reference_price = cents 10000;
  risk_validation_price = cents 10001;
  spread_ticks = pos 1000;
  price_drift_ticks = pos 0;
  maximum_deviation_points = pos 1000;
}

abbrev renewed_proposal : TradeProposal
renewed_proposal =
    fresh_proposal arrangement analysed_candidate accepted_environment tick_limits analysed_shadow
      fresh_market facts

abbrev renewed_decision : RiskDecision
renewed_decision =
    decide_risk renewed_proposal fresh_snapshot fresh_context 30
      (assessment round_up printing settings fresh_snapshot fresh_context 30) []
      (record {
        result =
            some (approve round_up (sizing_base round_up (cents 5000) (cents 50) (cents 101) gold));
        reasons = [];
      })

abbrev prepared : Prepared
prepared = record {
  approval = accepted_approval;
  intent =
      record (unsealed arrangement analysed_candidate accepted_environment tick_limits
        accepted_approval analysed_shadow facts renewed_decision (cents 24) (cents 9900)
        (cents 10200) 31) { intent_digest = "d1" };
  revalidation = renewed_decision;
}

-- All that the preparation computes with.
prepares_with : Unit {0}
unfolding prepare observes renews seals unsealed seal_intent require_single_approval
    validate_authority validate_risk_generation validate_fresh fresh_risk_revalidation
    effective_approvals sort_by_id approval_is_revoked control_state validate_execution_authority
    standing_checks approval_failure approval_matches freshness_checks capability_checks
    quote_checks first_failure exact_deviation_points build_preflight accepted_volume validate
    validation overruns is_divisible step_overruns evaluate evaluate_risk calculate approve
    sizing_base decide_risk account_metrics account_state limit_reasons context_reasons
    account_fingerprint round_up abs_ℤ ◌+ℤ◌ ◌-ℤ◌ ltb_ℤ leb_ℤ eqb_ℤ max_ℤ min_ℤ rem floor
    build_sizing validate_constitution ◌>>=◌ lookup normalize_utc
prepares_with = tt

preflight_returns :
    validate_fresh round_up printing digests accepted_environment tick_limits
      analysed_candidate.decision analysed_shadow fresh_market 20 30
    ≡ ok facts
unfolding prepares_with
preflight_returns = refl

validate_fresh-IsFresh_example :
    IsFresh round_up printing digests accepted_environment tick_limits analysed_candidate.decision
      analysed_shadow fresh_market 20 30 facts
validate_fresh-IsFresh_example =
    validate_fresh-IsFresh round_up printing digests accepted_environment tick_limits
      analysed_candidate.decision analysed_shadow fresh_market 20 30 facts preflight_returns

prepares :
    prepare arrangement analysed_candidate accepted_environment tick_limits approved_world
    ≡ (ok prepared, record approved_world { readings = 3 })
unfolding prepares_with
prepares = refl

prepare-IsPrepared_example :
    IsPrepared arrangement analysed_candidate accepted_environment tick_limits approved_world
      prepared
    × (approved_world.repository ≡ approved_world.repository)
    × (approved_world.sent ≡ approved_world.sent)
prepare-IsPrepared_example =
    prepare-IsPrepared arrangement analysed_candidate accepted_environment tick_limits
      approved_world (record approved_world { readings = 3 }) prepared prepares

abbrev sending_terminal : FinalDispatchObservation
sending_terminal = record terminal {
  account_ref = preparation_account;
  symbol_info = gold;
  tick = fresh_market.tick;
}

abbrev sending_broker : DemoExecutionAdapter
sending_broker = record {
  order_check = λ x. some true;
  observe_final_dispatch = λ x. some sending_terminal;
  submit_demo_market_intent = λ x. none;
  find_broker_evidence = λ x receipt. some [];
}

abbrev sending : World
sending =
    (execute arrangement analysed_candidate accepted_environment tick_limits sending_broker "w1"
      approved_world).1

-- The order goes out.
sends : sending.sent ≡ "e1" ∷ []
unfolding prepares_with execute execute_intent claim checked observed guarded guard_call obey
    dispatch moves advance build_execution is_valid_lifecycle is_valid_history all_pairs is_allowed
    save is_update insert has submission_over submission_lost halt append_control_event
    evaluate_guard guard_failure claim_checks validate_observation account_checks validate_linkage
    linkage_checks linkage_matches build_result claim_is_owned ℕ_discrete
sends = refl

execute-IsAuthorized_example :
    (sending.sent ≡ approved_world.sent)
    ⊎ WasAuthorized arrangement analysed_candidate accepted_environment tick_limits sending_broker
        "w1" approved_world sending
execute-IsAuthorized_example =
    execute-IsAuthorized arrangement analysed_candidate accepted_environment tick_limits
      sending_broker "w1" approved_world
