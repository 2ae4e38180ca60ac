-- ===== src/Execution/Examples.antt =====
-- A fill that executes its intent and a dispatch that the final guard lets through, and the theorems
-- of the component at them.
pub mod Lifecycle
pub mod Prepare
pub mod Sqlite
pub mod Service
pub mod Store
use my_team_tradding.Budget.Types.{openai}
use my_team_tradding.Decimal.{Decimal}
use my_team_tradding.Decimal.RoundUp.{round_up}
use my_team_tradding.Execution.Authority.{
  approval_failure, approval_matches, standing_checks, validate_execution_authority,
}
use my_team_tradding.Execution.Guard.{
  FinalDispatchGuardResult, claim_checks, evaluate_guard, guard_failure, linkage_checks,
  linkage_matches, validate_linkage, validate_observation,
}
use my_team_tradding.Execution.Guard.Safety.{IsDispatchable, evaluate_guard-IsDispatchable}
use my_team_tradding.Execution.Lifecycle.{
  DemoExecutionEvent, DemoExecutionRecord, DemoExecutionState, claimed, created,
}
use my_team_tradding.Execution.Reconciliation.{
  CompositeBrokerEvidence, DemoReconciliationRecord, DemoSubmissionDisposition,
  DemoSubmissionReceipt, item_failure, reconcile_broker_evidence,
}
use my_team_tradding.Execution.Reconciliation.Exact.{IsAnswer, reconcile_exact}
use my_team_tradding.Execution.Records.{
  DemoExecutionApproval, DemoExecutionEnvironmentAcceptance, DemoExecutionPolicy, Digests,
  ExecutionControlState, QualificationEvidenceValidity, QualifiedDemoExecutionCandidate,
  ShadowTradeIntent, eligible_for_demo_review, fok, ioc, market,
}
use my_team_tradding.Execution.Terminal.{
  FinalDispatchObservation, account_checks, capability_checks, connected, quote_checks,
}
use my_team_tradding.Execution.Types.{
  DemoOrderIntent, failure_of, fill_outside_policy, first_failure, open_position_conflict,
}
use my_team_tradding.Prelude.{[], false, none, refl, some, true, ℕ, ◌∷◌, ◌≡◌}
use my_team_tradding.Prelude.Int.{abs_ℤ, eqb_ℤ, leb_ℤ, ltb_ℤ, pos, ◌-ℤ◌}
use my_team_tradding.Prelude.Result.{ok}
use my_team_tradding.Risk.Account.{AccountRiskMetrics, account_metrics}
use my_team_tradding.Risk.Engine.{RiskDecision}
use my_team_tradding.Risk.Engine.Total.{decision}
use my_team_tradding.Risk.Types.{RiskDecisionStatus, RiskState, TradeProposal, buy, demo, full}
use my_team_tradding.Runtime.Telemetry.{of_policy}
use my_team_tradding.Time.{aware}

abbrev pub intent : DemoOrderIntent
intent = record {
  execution_intent_id = "e1";
  client_trade_id = "t1";
  intent_digest = "d1";
  account_ref = "acct";
  environment_ref = "env";
  symbol = "XAUUSD";
  side = buy;
  volume = pos 10;
  risk_validation_price = pos 2001;
  stop_loss = pos 1990;
  take_profit = pos 2030;
  reference_price = pos 2000;
  source_decision_record_digest = "digest";
  source_shadow_intent_digest = "digest";
  analysis_risk_decision_digest = "digest";
  revalidation_risk_decision_digest = "digest";
  qualification_status_digest = "digest";
  generation_digest = "digest";
  environment_acceptance_digest = "digest";
  approval_digest = "digest";
  execution_policy_digest = "digest";
  created_at = 10;
  expires_at = 20;
}

abbrev pub sample_receipt : DemoSubmissionReceipt
sample_receipt = record {
  execution_intent_id = "e1";
  intent_digest = "d1";
  disposition = DemoSubmissionDisposition.accepted;
  dispatch_started_at = 11;
  dispatch_completed_at = 13;
}

abbrev pub fill_of : Decimal → CompositeBrokerEvidence
fill_of price = record {
  account_ref = "acct";
  environment_ref = "env";
  symbol = "XAUUSD";
  side = buy;
  volume = pos 10;
  dispatch_started_at = 12;
  dispatch_completed_at = 13;
  observed_at = 14;
  broker_order_id = some 501;
  broker_deal_id = none;
  resulting_position_id = some 77;
  fill_price = some price;
  stop_loss = some (pos 1990);
  take_profit = some (pos 2030);
}

reconcile_exact_example :
    (r : DemoReconciliationRecord) × (reconcile_broker_evidence intent sample_receipt
        (fill_of (pos 2000) ∷ [])
        20
      ≡ ok r)
    × IsAnswer intent sample_receipt (fill_of (pos 2000) ∷ []) r
reconcile_exact_example = reconcile_exact intent sample_receipt (fill_of (pos 2000) ∷ []) 20

-- The fill confirms; one at a price above the validated one does not.
good_fill : item_failure intent sample_receipt (fill_of (pos 2000)) ≡ none
unfolding item_failure eqb_ℤ leb_ℤ ltb_ℤ
good_fill = refl

bad_fill :
    item_failure intent sample_receipt (fill_of (pos 2002))
    ≡ some (
        failure_of fill_outside_policy
          "confirmed fill exceeded the M3 worst-case risk-validation price")
unfolding item_failure eqb_ℤ leb_ℤ ltb_ℤ
bad_fill = refl

-- A candidate, its approval and a terminal on which the final guard passes.
abbrev pub digests : Digests
digests = record {
  of_decision = λ x. "digest";
  of_shadow_intent = λ x. "digest";
  of_proposal = λ x. "digest";
  of_risk_decision = λ x. "digest";
  of_status = λ x. "digest";
  of_manifest = λ x. "digest";
  of_acceptance = λ x. "digest";
  of_approval = λ x. "digest";
  of_policy = λ x. "digest";
  of_sealed_intent = λ x. "d1";
  of_capabilities = λ x. "digest";
  of_symbol_info = λ x. "digest";
}

abbrev traded : TradeProposal
traded = record {
  cycle_id = "c1";
  timestamp = 5;
  proposal_id = "p1";
  snapshot_id = "s1";
  symbol = "XAUUSD";
  side = buy;
  entry = some (pos 2000);
  stop_loss = some (pos 1990);
  take_profit = some (pos 2030);
}

abbrev metrics : AccountRiskMetrics
metrics = record {
  account_ref = "acct";
  current_equity = pos 50000;
  effective_peak_equity = pos 50000;
  drawdown_amount = pos 0;
  drawdown_percent = pos 0;
  daily_loss_amount = pos 0;
  daily_loss_percent = pos 0;
  account_open_position_count = 0;
  permitted_risk_percent = pos 500;
}

abbrev pub risk_decision : RiskDecision
risk_decision = record {
  cycle_id = "c1";
  snapshot_id = "s1";
  timestamp = 6;
  proposal_id = "p1";
  account_ref = "acct";
  symbol = "XAUUSD";
  status = RiskDecisionStatus.approved;
  risk_state = RiskState.normal;
  reasons = [];
  account_metrics = metrics;
  position_sizing = none;
}

abbrev pub shadow : ShadowTradeIntent
shadow = record {
  cycle_id = "c1";
  snapshot_id = "s1";
  proposal = traded;
  risk_decision = risk_decision;
  selected_volume = pos 10;
  hypothetical_entry = pos 2000;
}

abbrev pub candidate : QualifiedDemoExecutionCandidate
candidate = record {
  candidate_id = "k1";
  decision = record {
    cycle_id = "c1";
    recorded_at = 10;
    symbol = "XAUUSD";
    shadow_record = some (record { shadow_trade_intent = some shadow });
  };
  qualification_status = record {
    qualification_run_id = "q1";
    graduation_disposition = eligible_for_demo_review;
    validity_assessment = record {
      state = QualificationEvidenceValidity.valid;
      assessed_at = 8;
      valid_until = some 90;
      dependency_manifest_digest = "digest";
    };
  };
  dependency_manifest = record {
    generation_id = "g1";
    assignments = record { provider = openai; acceptance_valid_until = some 80 } ∷ [];
    symbol_timestamp_acceptance = record { symbol = "XAUUSD"; expires_at = 70 };
    risk_engine_version = "1.0.0";
    risk_policy_digest = "digest";
  };
  dependency_manifest_digest = "digest";
  qualification_status_digest = "digest";
}

abbrev pub environment : DemoExecutionEnvironmentAcceptance
environment = record {
  acceptance_id = "a1";
  account_ref = "acct";
  environment_ref = "env";
  symbol = "XAUUSD";
  symbol_capability_digest = "digest";
  execution_policy_digest = "digest";
  expires_at = 60;
}

abbrev pub human_approval : DemoExecutionApproval
human_approval = record {
  approval_id = "h1";
  candidate_id = "k1";
  source_decision_record_digest = "digest";
  source_shadow_intent_digest = "digest";
  analysis_proposal_digest = "digest";
  analysis_risk_decision_digest = "digest";
  qualification_run_id = "q1";
  qualification_status_digest = "digest";
  generation_id = "g1";
  generation_digest = "digest";
  environment_acceptance_id = "a1";
  environment_acceptance_digest = "digest";
  account_ref = "acct";
  environment_ref = "env";
  symbol = "XAUUSD";
  execution_policy_digest = "digest";
  effective_from = 10;
  expires_at = 50;
}

abbrev pub limits : DemoExecutionPolicy
limits = record {
  maximum_preflight_seconds = 10;
  maximum_decision_age_seconds = 60;
  maximum_adverse_slippage_ticks = pos 200;
  intent_ttl_seconds = 30;
  maximum_tick_age_seconds = 5;
  maximum_spread_ticks = pos 3000;
  maximum_price_drift_ticks = pos 4000;
  supported_execution_modes = market ∷ [];
  filling_mode = fok;
}

abbrev pub terminal : FinalDispatchObservation
terminal = record {
  account_ref = "acct";
  environment_ref = "env";
  health = record {
    connection_state = connected;
    authenticated = true;
    trade_api_disabled = some false;
  };
  account = record {
    account_id = 7;
    server = "demo";
    trade_mode = demo;
    trade_allowed = true;
    expert_trading_allowed = true;
    equity = pos 50000;
  };
  symbol_info = record {
    selected = true;
    visible = true;
    point = pos 1;
    trade_tick_size = pos 1;
    trade_tick_value = pos 1;
    trade_contract_size = pos 100;
    volume_min = pos 1;
    volume_max = pos 100;
    volume_step = pos 1;
    trade_stops_level = 0;
    trading_mode = full;
  };
  capabilities = record {
    symbol_info_digest = "digest";
    execution_mode = market;
    filling_modes = fok ∷ ioc ∷ [];
    market_order_allowed = true;
    stop_loss_allowed = true;
    take_profit_allowed = true;
  };
  tick = record {
    symbol = "XAUUSD";
    source_time = 14;
    bid = pos 2000;
    ask = pos 2002;
    spread = pos 2;
  };
  positions = [];
}

abbrev pub event_at : ℕ → DemoExecutionState → ℕ → DemoExecutionEvent
event_at sequence state at = record {
  sequence = sequence;
  state = state;
  occurred_at = at;
  failure = none;
}

abbrev pub sealed_record : DemoExecutionRecord
sealed_record = record {
  intent = intent;
  risk_revalidation = some risk_decision;
  state = claimed;
  claim_owner = some "w1";
  submission = none;
  reconciliation = none;
  events = event_at 1 created 10 ∷ event_at 2 claimed 11 ∷ [];
}

guard_passes :
    guard_failure round_up digests sealed_record candidate environment human_approval limits
      terminal true false ExecutionControlState.enabled 15
    ≡ none
unfolding guard_failure claim_checks first_failure validate_execution_authority standing_checks
    approval_failure approval_matches validate_observation account_checks quote_checks
    capability_checks validate_linkage linkage_checks linkage_matches round_up ltb_ℤ leb_ℤ abs_ℤ
    ◌-ℤ◌
guard_passes = refl

-- A second position before the dispatch stops it.
guard_stops :
    guard_failure round_up digests sealed_record candidate environment human_approval limits
      (record terminal { positions = record { ticket = 9; symbol = "XAUUSD" } ∷ [] })
      true
      false
      ExecutionControlState.enabled
      15
    ≡ some (failure_of open_position_conflict "a conflicting position appeared before dispatch")
unfolding guard_failure claim_checks first_failure validate_execution_authority standing_checks
    approval_failure approval_matches validate_observation account_checks
guard_stops = refl

evaluate_guard-IsDispatchable_example :
    (r : FinalDispatchGuardResult) × (evaluate_guard round_up digests sealed_record candidate
        environment human_approval limits terminal true false ExecutionControlState.enabled
        (aware 15)
      ≡ ok r)
    × (r.passed ≡ true
        → IsDispatchable round_up digests sealed_record candidate environment human_approval limits
            terminal true false ExecutionControlState.enabled 15)
evaluate_guard-IsDispatchable_example =
    evaluate_guard-IsDispatchable round_up digests sealed_record candidate environment
      human_approval limits terminal true false ExecutionControlState.enabled 15
