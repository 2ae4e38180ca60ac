-- ===== src/Execution/Terminal/Sound.antt =====
-- What a symbol and its quote are like when the checks of them raise nothing.
use my_team_tradding.Decimal.{Decimal, DecimalContext}
use my_team_tradding.Execution.Authority.Sound.{first_failure-none, ltb→le, refused_text}
use my_team_tradding.Execution.Records.{
  DemoExecutionEnvironmentAcceptance, DemoExecutionPolicy, DemoSymbolExecutionCapabilities, Digests,
}
use my_team_tradding.Execution.Terminal.{
  Mt5Tick, capability_checks, is_closed_to_opening, is_demo, quote_checks, same_filling, same_mode,
}
use my_team_tradding.Execution.Types.{first_failure}
use my_team_tradding.Prelude.{
  List, [], and_elim, any, arith, false, is_empty, none, not, not-eq-false, or-eq-false, refl, true,
  ℕ, ◌*◌, ◌+◌, ◌∷◌, ◌≡◌, ◌≤◌,
}
use my_team_tradding.Prelude.Int.{abs_ℤ, leb_ℤ→gt, ltb_ℤ→ge, pos, ◌-ℤ◌, ◌<ℤ◌, ◌≤ℤ◌}
use my_team_tradding.Risk.Types.{BrokerAccountMode, SymbolInfo, contest, demo, real}

pub demo_only : (mode : BrokerAccountMode) → is_demo mode ≡ true → mode ≡ demo
demo_only demo h = refl
demo_only contest h = cc
demo_only real h = cc

pub no_positions : {A : Type 0} (xs : List A) → not (is_empty xs) ≡ false → xs ≡ []
no_positions [] h = refl
no_positions (x ∷ xs) h = cc

-- A fresh tick, whose spread and whose distance from a price are within the policy.
pub record IsQuoted (c : DecimalContext) (policy : DemoExecutionPolicy) (tick : Mt5Tick)
    (reference comparison_price tick_size : Decimal) (now : ℕ) : Type 0 where
  pub tick_size_pos : pos 0 <ℤ tick_size
  pub not_future : tick.source_time ≤ now
  pub fresh : now ≤ tick.source_time + policy.maximum_tick_age_seconds * 1000000
  pub spread : c.div tick.spread tick_size ≤ℤ policy.maximum_spread_ticks
  pub drift :
      c.div (abs_ℤ (reference -ℤ comparison_price)) tick_size ≤ℤ policy.maximum_price_drift_ticks

pub quote_sound :
    (c : DecimalContext) (policy : DemoExecutionPolicy) (tick : Mt5Tick)
    (reference comparison_price tick_size : Decimal) (now : ℕ)
    → first_failure (quote_checks c policy tick reference comparison_price tick_size now) ≡ none
    → IsQuoted c policy tick reference comparison_price tick_size now
unfolding quote_checks
quote_sound c policy tick reference comparison_price tick_size now h =
    let (size, (age, (spread, (drift, end)))) =
      first_failure-none (quote_checks c policy tick reference comparison_price tick_size now) h in
    let (not_future, young) = or-eq-false _ _ age in
    record {
      tick_size_pos = leb_ℤ→gt _ _ size;
      not_future = ltb→le _ _ not_future;
      fresh = omega (arith, ltb→le _ _ not_future, ltb→le _ _ young);
      spread = ltb_ℤ→ge _ _ spread;
      drift = ltb_ℤ→ge _ _ drift;
    }

-- A symbol with the accepted capabilities, which takes protected market orders that open a position.
pub record IsCapable (d : Digests) (acceptance : DemoExecutionEnvironmentAcceptance)
    (policy : DemoExecutionPolicy) (info : SymbolInfo)
    (capabilities : DemoSymbolExecutionCapabilities) : Type 0 where
  pub current_symbol_info : capabilities.symbol_info_digest ≡ d.of_symbol_info info
  pub accepted_capabilities : d.of_capabilities capabilities ≡ acceptance.symbol_capability_digest
  pub accepted_mode :
      any (same_mode capabilities.execution_mode) policy.supported_execution_modes ≡ true
  pub accepted_filling : any (same_filling policy.filling_mode) capabilities.filling_modes ≡ true
  pub takes_market_orders : capabilities.market_order_allowed ≡ true
  pub takes_stop_loss : capabilities.stop_loss_allowed ≡ true
  pub takes_take_profit : capabilities.take_profit_allowed ≡ true
  pub selected : info.selected ≡ true
  pub visible : info.visible ≡ true
  pub open_capable : is_closed_to_opening info.trading_mode ≡ false

pub capability_sound :
    (d : Digests) (acceptance : DemoExecutionEnvironmentAcceptance) (policy : DemoExecutionPolicy)
    (info : SymbolInfo) (capabilities : DemoSymbolExecutionCapabilities)
    → first_failure (capability_checks d acceptance policy info capabilities) ≡ none
    → IsCapable d acceptance policy info capabilities
unfolding capability_checks
capability_sound d acceptance policy info capabilities h =
    let (c1, (c2, (c3, (c4, (c5, (c6, end)))))) =
      first_failure-none (capability_checks d acceptance policy info capabilities) h in
    let (market_orders, protected) =
      and_elim capabilities.market_order_allowed _ (not-eq-false _ c5) in
    let (stops, targets) =
      and_elim capabilities.stop_loss_allowed capabilities.take_profit_allowed protected in
    let (selected, shown) = or-eq-false (not info.selected) _ c6 in
    let (visible, open_capable) = or-eq-false (not info.visible) _ shown in
    record {
      current_symbol_info = refused_text c1;
      accepted_capabilities = refused_text c2;
      accepted_mode = not-eq-false _ c3;
      accepted_filling = not-eq-false _ c4;
      takes_market_orders = market_orders;
      takes_stop_loss = stops;
      takes_take_profit = targets;
      selected = not-eq-false _ selected;
      visible = not-eq-false _ visible;
      open_capable = open_capable;
    }
