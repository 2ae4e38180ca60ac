-- ===== src/Execution/Preflight.antt =====
-- `validate_fresh_execution_observation` of src/ai_trading_team/execution/preflight.py and
-- `exact_deviation_points` of schemas/execution.py, at aware times. The tick of a snapshot is a field of
-- the observation here.
pub mod Fresh
use my_team_tradding.Decimal.{Decimal, DecimalContext, rem}
use my_team_tradding.Execution.Records.{
  ContinuousDecisionRecord, DemoExecutionEnvironmentAcceptance, DemoExecutionPolicy,
  DemoSymbolExecutionCapabilities, Digests, ShadowTradeIntent,
}
use my_team_tradding.Execution.Store.{ExecutionFault, value_error}
use my_team_tradding.Execution.Terminal.{
  Mt5Tick, capability_checks, is_demo, quote_checks, reference_of,
}
use my_team_tradding.Execution.Types.{
  Check, DemoExecutionFailure, account_mismatch, decision_expired, environment_mismatch,
  first_failure, non_demo_account, open_position_conflict, preflight_expired, raise_if,
  symbol_mismatch,
}
use my_team_tradding.Prelude.{
  Bool, List, Option, String, [], if◌then◌else◌, is_empty, ltb, none, not, some, str_eq, ℕ, ◌&&◌,
  ◌*◌, ◌-◌, ◌||◌, ◌∷◌,
}
use my_team_tradding.Prelude.Int.{abs_ℤ, eqb_ℤ, leb_ℤ, ltb_ℤ, pos, ◌+ℤ◌, ◌-ℤ◌}
use my_team_tradding.Prelude.Result.{Result, err, ok, ◌>>=◌}
use my_team_tradding.Risk.Account.{Fingerprinting, account_fingerprint}
use my_team_tradding.Risk.Types.{
  AccountRiskContext, MarketSnapshot, OpenPosition, TradeSide, buy, sell,
}

pub record FreshExecutionObservation : Type 0 where
  pub environment_ref : String
  pub snapshot : MarketSnapshot
  pub tick : Mt5Tick
  -- `risk_context_evidence.context`
  pub context : AccountRiskContext
  pub account_positions : List OpenPosition
  pub capabilities : DemoSymbolExecutionCapabilities

pub record DemoExecutionPreflight : Type 0 where
  pub analysis_snapshot_id : String
  pub execution_snapshot_id : String
  pub started_at : ℕ
  pub completed_at : ℕ
  pub reference_price : Decimal
  pub risk_validation_price : Decimal
  pub spread_ticks : Decimal
  pub price_drift_ticks : Decimal
  pub maximum_deviation_points : Decimal

abbrev pub passes : Option DemoExecutionFailure → Result ExecutionFault (Unit {0})
passes none = ok tt
passes (some failure) = err (ExecutionFault.execution_error failure)

-- A validator of a schema, which raises a `ValueError`.
abbrev pub valid_when : Bool → Result ExecutionFault (Unit {0})
valid_when test = if test then ok tt else err value_error

abbrev pub is_above_zero : Decimal → Bool
is_above_zero x = ltb_ℤ (pos 0) x

-- The number of points, as a decimal.
unfoldable pub exact_deviation_points :
    DecimalContext → Decimal → Decimal → Decimal → Result ExecutionFault Decimal
unfolding ltb_ℤ eqb_ℤ leb_ℤ rem
exact_deviation_points c slippage_ticks tick_size point =
    let value = c.div (c.mul slippage_ticks tick_size) point in
    if leb_ℤ tick_size (pos 0) || leb_ℤ point (pos 0)
    then err value_error
    else if not (eqb_ℤ (rem value (pos c.one)) (pos 0)) || ltb_ℤ value (pos 0)
    then err value_error
    else ok value

module _ (c : DecimalContext) (f : Fingerprinting) (d : Digests)
    (acceptance : DemoExecutionEnvironmentAcceptance) (policy : DemoExecutionPolicy) where
  -- The checks before those of the symbol, for a candidate with the given shadow intent.
  unfoldable pub freshness_checks :
      ContinuousDecisionRecord → ShadowTradeIntent → FreshExecutionObservation → ℕ → ℕ → List Check
  unfolding account_fingerprint
  freshness_checks analysed shadow observation started completed =
      let snapshot = observation.snapshot in
      raise_if
        (ltb completed started
          || ltb (policy.maximum_preflight_seconds * 1000000) (completed - started))
        preflight_expired "execution preflight exceeded its deterministic time bound"
      ∷ (raise_if
            (ltb (policy.maximum_decision_age_seconds * 1000000) (completed - analysed.recorded_at))
            decision_expired "qualified shadow decision is too old for execution"
          ∷ (raise_if
                (not (str_eq snapshot.cycle_id shadow.cycle_id)
                  || not (str_eq snapshot.symbol shadow.proposal.symbol))
                symbol_mismatch "execution snapshot does not match the qualified decision trace"
              ∷ (raise_if
                    (not (
                        str_eq
                          (account_fingerprint f snapshot.account.account_id
                            snapshot.account.server)
                          acceptance.account_ref)
                      || not (str_eq observation.context.account_ref acceptance.account_ref))
                    account_mismatch "fresh execution account differs from accepted DEMO account"
                  ∷ (raise_if (not (str_eq observation.environment_ref acceptance.environment_ref))
                        environment_mismatch "fresh execution environment differs from acceptance"
                      ∷ (raise_if (not (is_demo snapshot.account.trade_mode)) non_demo_account
                            "fresh execution account is not a DEMO account"
                          ∷ (raise_if (not (is_empty observation.account_positions))
                                open_position_conflict
                                "M11 requires zero account positions before dispatch"
                              ∷ []))))))

  abbrev pub adverse_price : TradeSide → Decimal → Decimal → Decimal
  adverse_price buy reference adverse = reference +ℤ adverse
  adverse_price sell reference adverse = reference -ℤ adverse

  -- The result, with the prices and counts that its schema admits.
  unfoldable pub build_preflight :
      DemoExecutionPreflight → Result ExecutionFault DemoExecutionPreflight
  unfolding ltb_ℤ
  build_preflight p =
      valid_when (
        is_above_zero p.reference_price
        && (is_above_zero p.risk_validation_price
            && (not (ltb_ℤ p.spread_ticks (pos 0)) && not (ltb_ℤ p.price_drift_ticks (pos 0)))))
      >>= λ done. ok p

  unfoldable pub validate_fresh :
      ContinuousDecisionRecord
      → ShadowTradeIntent
      → FreshExecutionObservation
      → ℕ
      → ℕ
      → Result ExecutionFault DemoExecutionPreflight
  unfolding freshness_checks capability_checks quote_checks first_failure exact_deviation_points
      build_preflight
  validate_fresh analysed shadow observation started completed =
      let snapshot = observation.snapshot in
      let info = snapshot.symbol_info in
      let reference = reference_of shadow.proposal.side observation.tick in
      let risk_price =
        adverse_price shadow.proposal.side reference
          (c.mul policy.maximum_adverse_slippage_ticks info.trade_tick_size) in
      valid_when (not (str_eq shadow.snapshot_id snapshot.snapshot_id)) >>= λ distinct.
      passes (first_failure (freshness_checks analysed shadow observation started completed))
      >>= λ timely.
          passes
            (first_failure (capability_checks d acceptance policy info observation.capabilities))
          >>= λ able.
              passes (
                first_failure (
                  quote_checks c policy observation.tick reference shadow.hypothetical_entry
                    info.trade_tick_size completed))
              >>= λ quoted.
                  exact_deviation_points c policy.maximum_adverse_slippage_ticks
                    info.trade_tick_size info.point
                  >>= λ deviation. build_preflight (record {
                    analysis_snapshot_id = shadow.snapshot_id;
                    execution_snapshot_id = snapshot.snapshot_id;
                    started_at = started;
                    completed_at = completed;
                    reference_price = reference;
                    risk_validation_price = risk_price;
                    spread_ticks = c.div observation.tick.spread info.trade_tick_size;
                    price_drift_ticks =
                        c.div (abs_ℤ (reference -ℤ shadow.hypothetical_entry)) info.trade_tick_size;
                    maximum_deviation_points = deviation;
                  })
