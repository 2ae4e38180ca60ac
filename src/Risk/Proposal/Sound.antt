-- ===== src/Risk/Proposal/Sound.antt =====
-- What an accepted proposal is, written without the code's reasons: the declarative side of
-- `ProposalValidator.validate`.
use my_team_tradding.Decimal.{Decimal, DecimalContext, of_int, rem}
use my_team_tradding.Prelude.{some, true, ◌≡◌}
use my_team_tradding.Prelude.Int.{abs_ℤ, pos, ◌-ℤ◌, ◌<ℤ◌, ◌≤ℤ◌}
use my_team_tradding.Risk.Types.{
  MarketSnapshot, RiskConstitutionSettings, SymbolInfo, SymbolTradeMode, TradeProposal, TradeSide,
  buy, full, long_only, sell, short_only,
}

-- The stop is on the losing side of the entry and the target on the winning side.
abbrev pub IsDirected : TradeSide → Decimal → Decimal → Decimal → Type 0
IsDirected buy entry stop_loss take_profit = (stop_loss <ℤ entry) × (entry <ℤ take_profit)
IsDirected sell entry stop_loss take_profit = (entry <ℤ stop_loss) × (take_profit <ℤ entry)

-- The broker's mode lets a position be opened on this side.
abbrev pub Opens : SymbolTradeMode → TradeSide → Type 0
Opens full side = Unit
Opens long_only buy = Unit
Opens short_only sell = Unit
Opens _ _ = ⊥

-- A price on the tick grid.
abbrev pub IsAligned : Decimal → Decimal → Type 0
IsAligned tick_size price = rem price tick_size ≡ pos 0

abbrev pub risk_distance : Decimal → Decimal → Decimal
risk_distance entry stop_loss = abs_ℤ (entry -ℤ stop_loss)

abbrev pub reward_distance : Decimal → Decimal → Decimal
reward_distance entry take_profit = abs_ℤ (take_profit -ℤ entry)

module _ (c : DecimalContext) (settings : RiskConstitutionSettings) where
  -- The three prices of a proposal: positive, on the right sides, and worth the risk.
  pub record IsPriced (side : TradeSide) (entry stop_loss take_profit : Decimal) : Type 0 where
    pub entry_pos : pos 0 <ℤ entry
    pub stop_pos : pos 0 <ℤ stop_loss
    pub target_pos : pos 0 <ℤ take_profit
    pub directed : IsDirected side entry stop_loss take_profit
    pub worth :
        settings.minimum_risk_reward
        ≤ℤ c.div (reward_distance entry take_profit) (risk_distance entry stop_loss)

  -- The broker's metadata is usable and the prices fit it.
  pub record FitsBroker (info : SymbolInfo) (entry stop_loss take_profit : Decimal) : Type 0 where
    pub tick_pos : pos 0 <ℤ info.trade_tick_size
    pub point_pos : pos 0 <ℤ info.point
    pub entry_aligned : IsAligned info.trade_tick_size entry
    pub stop_aligned : IsAligned info.trade_tick_size stop_loss
    pub target_aligned : IsAligned info.trade_tick_size take_profit
    pub stop_room :
        c.mul (of_int c info.trade_stops_level) info.point ≤ℤ risk_distance entry stop_loss
    pub target_room :
        c.mul (of_int c info.trade_stops_level) info.point ≤ℤ reward_distance entry take_profit

  pub record IsSound (p : TradeProposal) (s : MarketSnapshot) : Type 0 where
    pub same_cycle : p.cycle_id ≡ s.cycle_id
    pub same_snapshot : p.snapshot_id ≡ s.snapshot_id
    pub same_symbol : p.symbol ≡ s.symbol
    pub entry : Decimal
    pub stop_loss : Decimal
    pub take_profit : Decimal
    pub has_entry : p.entry ≡ some entry
    pub has_stop : p.stop_loss ≡ some stop_loss
    pub has_target : p.take_profit ≡ some take_profit
    pub priced : IsPriced p.side entry stop_loss take_profit
    pub fits : FitsBroker s.symbol_info entry stop_loss take_profit
    pub opens : Opens s.symbol_info.trading_mode p.side
    pub may_trade : s.account.trade_allowed ≡ true
    pub may_trade_by_program : s.account.expert_trading_allowed ≡ true
