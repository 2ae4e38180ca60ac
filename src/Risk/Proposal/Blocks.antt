-- ===== src/Risk/Proposal/Blocks.antt =====
-- Each block of `validation` adds no reason exactly when its part of `IsSound` holds.
use my_team_tradding.Decimal.{Decimal, DecimalContext}
use my_team_tradding.Prelude.{Option, String, [], arith, false, none, refl, some, true, ◌≡◌}
use my_team_tradding.Prelude.Int.{
  gt→leb_ℤ, leb_ℤ→gt, ltb_ℤ, ltb_ℤ→ge, ltb_ℤ→lt, lt→ltb_ℤ, pos, ◌<ℤ◌,
}
use my_team_tradding.Risk.Proposal.{
  account_reasons, is_valid_stop, is_valid_take_profit, mode_reasons, price_reasons,
  priced_geometry,
}
use my_team_tradding.Risk.Proposal.Sound.{
  IsDirected, IsPriced, Opens, reward_distance, risk_distance,
}
use my_team_tradding.Risk.Reasons.{reason_if-eq-nil, reason_if-nil}
use my_team_tradding.Risk.Types.{
  AccountInfo, RiskConstitutionSettings, RiskReasonCode, SymbolTradeMode, TradeSide, buy,
  close_only, disabled, full, long_only, sell, short_only,
}

pub price_given :
    (o : Option Decimal) (a b : RiskReasonCode) (m n : String)
    → price_reasons o a m b n ≡ []
    → (d : Decimal) × (o ≡ some d) × (pos 0 <ℤ d)
price_given none a b m n h = cc
price_given (some d) a b m n h = (d, refl, leb_ℤ→gt d (pos 0) (reason_if-eq-nil _ b n h))

pub price_given-nil :
    (o : Option Decimal) (d : Decimal) (a b : RiskReasonCode) (m n : String)
    → o ≡ some d
    → pos 0 <ℤ d
    → price_reasons o a m b n ≡ []
price_given-nil o d a b m n e h = rw e (reason_if-nil b n (gt→leb_ℤ d (pos 0) h))

pub mode-eq-nil :
    (mode : SymbolTradeMode) (side : TradeSide) → mode_reasons mode side ≡ [] → Opens mode side
unfolding mode_reasons
mode-eq-nil disabled side h = cc
mode-eq-nil close_only side h = cc
mode-eq-nil long_only sell h = cc
mode-eq-nil long_only buy h = tt
mode-eq-nil short_only buy h = cc
mode-eq-nil short_only sell h = tt
mode-eq-nil full side h = tt

pub mode-nil :
    (mode : SymbolTradeMode) (side : TradeSide) → Opens mode side → mode_reasons mode side ≡ []
unfolding mode_reasons
mode-nil full side h = refl
mode-nil long_only buy h = refl
mode-nil short_only sell h = refl
mode-nil disabled side h = absurd h
mode-nil close_only side h = absurd h
mode-nil long_only sell h = absurd h
mode-nil short_only buy h = absurd h

pub account-eq-nil :
    (a : AccountInfo)
    → account_reasons a ≡ []
    → (a.trade_allowed ≡ true) × (a.expert_trading_allowed ≡ true)
unfolding account_reasons
account-eq-nil a h = ground arith

pub account-nil :
    (a : AccountInfo)
    → a.trade_allowed ≡ true
    → a.expert_trading_allowed ≡ true
    → account_reasons a ≡ []
unfolding account_reasons
account-nil a h k = rw (h, k)

module _ (c : DecimalContext) (settings : RiskConstitutionSettings) where
  pub IsDirected-tests :
      (side : TradeSide) (e l t : Decimal)
      → is_valid_stop side l e ≡ true
      → is_valid_take_profit side t e ≡ true
      → IsDirected side e l t
  IsDirected-tests buy e l t h k = (ltb_ℤ→lt l e h, ltb_ℤ→lt e t k)
  IsDirected-tests sell e l t h k = (ltb_ℤ→lt e l h, ltb_ℤ→lt t e k)

  pub tests_directed :
      (side : TradeSide) (e l t : Decimal)
      → IsDirected side e l t
      → (is_valid_stop side l e ≡ true) × (is_valid_take_profit side t e ≡ true)
  tests_directed buy e l t h = (lt→ltb_ℤ l e h.0, lt→ltb_ℤ e t h.1)
  tests_directed sell e l t h = (lt→ltb_ℤ e l h.0, lt→ltb_ℤ t e h.1)

  -- The block over three positive prices: what an empty list of reasons says of its tests.
  priced_tests :
      (side : TradeSide) (e l t : Decimal)
      → (priced_geometry c settings.minimum_risk_reward side e l t).reasons ≡ []
      → (is_valid_stop side l e ≡ true)
        × (is_valid_take_profit side t e ≡ true)
        × (ltb_ℤ (c.div (reward_distance e t) (risk_distance e l)) settings.minimum_risk_reward
            ≡ false)
  unfolding priced_geometry
  priced_tests side e l t h = ground arith

  pub priced_distances :
      (side : TradeSide) (e l t : Decimal)
      → is_valid_stop side l e ≡ true
      → is_valid_take_profit side t e ≡ true
      → ltb_ℤ (c.div (reward_distance e t) (risk_distance e l)) settings.minimum_risk_reward ≡ false
      → priced_geometry c settings.minimum_risk_reward side e l t ≡ record {
        reasons = [];
        stop_distance = some (risk_distance e l);
        reward_distance = some (reward_distance e t);
        risk_reward = some (c.div (reward_distance e t) (risk_distance e l));
      }
  unfolding priced_geometry
  priced_distances side e l t h k m = rw (h, k, m)

  pub IsPriced-eq-nil :
      (side : TradeSide) (e l t : Decimal)
      → pos 0 <ℤ e
      → pos 0 <ℤ l
      → pos 0 <ℤ t
      → (priced_geometry c settings.minimum_risk_reward side e l t).reasons ≡ []
      → IsPriced c settings side e l t
  IsPriced-eq-nil side e l t pe pl pt h =
      let (stop, target, worth) = priced_tests side e l t h in
      record {
        entry_pos = pe;
        stop_pos = pl;
        target_pos = pt;
        directed = IsDirected-tests side e l t stop target;
        worth = ltb_ℤ→ge _ _ worth;
      }
