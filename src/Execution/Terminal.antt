-- ===== src/Execution/Terminal.antt =====
-- The checks of the terminal in src/ai_trading_team/execution/preflight.py: `_validate_quote`,
-- `_validate_symbol_capabilities` and the first half of `FinalDispatchGuard._validate_observation`.
-- The types of the records make the `isinstance` tests.
pub mod Sound
use my_team_tradding.Decimal.{Decimal, DecimalContext}
use my_team_tradding.Execution.Records.{
  DemoExecutionEnvironmentAcceptance, DemoExecutionPolicy, DemoFillingMode, DemoOrderExecutionMode,
  DemoSymbolExecutionCapabilities, Digests, exchange, fok, instant, ioc, market, request,
  return_mode,
}
use my_team_tradding.Execution.Types.{
  Check, DemoOrderIntent, account_mismatch, broker_metadata_changed, environment_mismatch,
  non_demo_account, open_position_conflict, price_drift_exceeded, protection_unsupported, raise_if,
  spread_limit_exceeded, stale_execution_tick, symbol_mismatch, unsupported_execution_mode,
  unsupported_filling_mode,
}
use my_team_tradding.Prelude.{
  Bool, List, Option, String, [], any, false, is_empty, ltb, not, some, str_eq, true, ℕ, ◌&&◌, ◌*◌,
  ◌-◌, ◌||◌, ◌∷◌,
}
use my_team_tradding.Prelude.Int.{abs_ℤ, leb_ℤ, ltb_ℤ, pos, ◌-ℤ◌}
use my_team_tradding.Risk.Types.{
  AccountInfo, BrokerAccountMode, OpenPosition, SymbolInfo, SymbolTradeMode, TradeSide, buy,
  close_only, demo, sell,
}

pub data Mt5ConnectionState : Type 0 where
  connected disconnected : Mt5ConnectionState

pub record Mt5TerminalHealth : Type 0 where
  pub connection_state : Mt5ConnectionState
  pub authenticated : Bool
  pub trade_api_disabled : Option Bool

pub record Mt5Tick : Type 0 where
  pub symbol : String
  pub source_time : ℕ
  pub bid : Decimal
  pub ask : Decimal
  pub spread : Decimal

pub record FinalDispatchObservation : Type 0 where
  pub account_ref : String
  pub environment_ref : String
  pub health : Mt5TerminalHealth
  pub account : AccountInfo
  pub symbol_info : SymbolInfo
  pub capabilities : DemoSymbolExecutionCapabilities
  pub tick : Mt5Tick
  pub positions : List OpenPosition

abbrev pub same_mode : DemoOrderExecutionMode → DemoOrderExecutionMode → Bool
same_mode request request = true
same_mode instant instant = true
same_mode market market = true
same_mode exchange exchange = true
same_mode _ _ = false

abbrev pub same_filling : DemoFillingMode → DemoFillingMode → Bool
same_filling fok fok = true
same_filling ioc ioc = true
same_filling return_mode return_mode = true
same_filling _ _ = false

abbrev pub is_demo : BrokerAccountMode → Bool
is_demo demo = true
is_demo _ = false

abbrev pub is_connected : Mt5ConnectionState → Bool
is_connected connected = true
is_connected disconnected = false

-- `value is not False`
abbrev pub is_not_false : Option Bool → Bool
is_not_false (some false) = false
is_not_false _ = true

abbrev pub is_closed_to_opening : SymbolTradeMode → Bool
is_closed_to_opening SymbolTradeMode.disabled = true
is_closed_to_opening close_only = true
is_closed_to_opening _ = false

module _ (c : DecimalContext) (policy : DemoExecutionPolicy) where
  -- `now - source_time` is computed when the first test of its disjunction has failed.
  unfoldable pub quote_checks : Mt5Tick → Decimal → Decimal → Decimal → ℕ → List Check
  quote_checks tick reference comparison_price tick_size now =
      raise_if (leb_ℤ tick_size (pos 0)) broker_metadata_changed
        "tick or tick-size metadata is invalid"
      ∷ raise_if
          (ltb now tick.source_time
            || ltb (policy.maximum_tick_age_seconds * 1000000) (now - tick.source_time))
          stale_execution_tick "latest execution tick is future-dated or stale"
      ∷ raise_if (ltb_ℤ policy.maximum_spread_ticks (c.div tick.spread tick_size))
          spread_limit_exceeded "execution spread exceeds the reviewed tick limit"
      ∷ raise_if
          (ltb_ℤ policy.maximum_price_drift_ticks
            (c.div (abs_ℤ (reference -ℤ comparison_price)) tick_size))
          price_drift_exceeded "execution price drift exceeds the reviewed tick limit"
      ∷ []

module _ (d : Digests) (acceptance : DemoExecutionEnvironmentAcceptance)
    (policy : DemoExecutionPolicy) where
  unfoldable pub capability_checks : SymbolInfo → DemoSymbolExecutionCapabilities → List Check
  capability_checks info capabilities =
      raise_if (not (str_eq capabilities.symbol_info_digest (d.of_symbol_info info)))
        broker_metadata_changed "execution capabilities do not bind current symbol metadata"
      ∷ raise_if (not (str_eq (d.of_capabilities capabilities) acceptance.symbol_capability_digest))
          broker_metadata_changed
          "current execution capabilities differ from environment acceptance"
      ∷ raise_if
          (not (any (same_mode capabilities.execution_mode) policy.supported_execution_modes))
          unsupported_execution_mode "symbol execution mode is not accepted by policy"
      ∷ raise_if (not (any (same_filling policy.filling_mode) capabilities.filling_modes))
          unsupported_filling_mode "configured filling mode is unavailable"
      ∷ raise_if
          (not (
            capabilities.market_order_allowed
            && (capabilities.stop_loss_allowed && capabilities.take_profit_allowed)))
          protection_unsupported "symbol cannot accept the single protected market-order scope"
      ∷ raise_if (not info.selected || (not info.visible || is_closed_to_opening info.trading_mode))
          unsupported_execution_mode "symbol is unavailable, unselected, or not open-capable"
      ∷ []

abbrev pub reference_of : TradeSide → Mt5Tick → Decimal
reference_of buy tick = tick.ask
reference_of sell tick = tick.bid

module _ (d : Digests) (acceptance : DemoExecutionEnvironmentAcceptance)
    (intent : DemoOrderIntent) where
  -- `_validate_observation` before the quote.
  unfoldable pub account_checks : FinalDispatchObservation → List Check
  account_checks observation =
      let health = observation.health in
      raise_if (not (is_demo observation.account.trade_mode)) non_demo_account
        "final dispatch account is not DEMO"
      ∷ raise_if
          (not (str_eq observation.account_ref intent.account_ref)
            || not (str_eq observation.account_ref acceptance.account_ref))
          account_mismatch "final dispatch account differs from the sealed intent"
      ∷ raise_if
          (not (str_eq observation.environment_ref intent.environment_ref)
            || not (str_eq observation.environment_ref acceptance.environment_ref))
          environment_mismatch "final dispatch environment differs from the sealed intent"
      ∷ raise_if (not (is_empty observation.positions)) open_position_conflict
          "a conflicting position appeared before dispatch"
      ∷ raise_if
          (not (is_connected health.connection_state)
            || (not health.authenticated || is_not_false health.trade_api_disabled))
          environment_mismatch "terminal is not connected and enabled for accepted DEMO execution"
      ∷ raise_if (not (str_eq observation.tick.symbol intent.symbol)) symbol_mismatch
          "final tick symbol differs from the sealed intent"
      ∷ []
