-- ===== src/Outcomes/Touch.antt =====
-- When a candle touches the levels of a proposal, by its prices: what the walk of
-- src/ai_trading_team/evaluation/outcomes.py resolves with.
use my_team_tradding.Outcomes.{
  Candle, Levels, PricePath, TradeOutcomeStatus, ambiguous_intrabar, is_directed, resolution,
  stop_loss_reached, take_profit_reached, unresolved_horizon,
}
use my_team_tradding.Outcomes.Path.{IsResolved}
use my_team_tradding.Prelude.{
  All, List, [], arith, inl, inr, none, refl, some, true, ◌++◌, ◌∷◌, ◌≡◌, ◌⊎◌,
}
use my_team_tradding.Prelude.Int.{leb_ℤ, ltb_ℤ, ◌<ℤ◌, ◌≤ℤ◌}
use my_team_tradding.Risk.Types.{TradeSide, buy, sell}

abbrev pub ReachesTarget : TradeSide → Levels → Candle → Type 0
ReachesTarget buy levels candle = levels.target ≤ℤ candle.high
ReachesTarget sell levels candle = candle.low ≤ℤ levels.target

abbrev pub ReachesStop : TradeSide → Levels → Candle → Type 0
ReachesStop buy levels candle = candle.low ≤ℤ levels.stop
ReachesStop sell levels candle = levels.stop ≤ℤ candle.high

abbrev pub MissesTarget : TradeSide → Levels → Candle → Type 0
MissesTarget buy levels candle = candle.high <ℤ levels.target
MissesTarget sell levels candle = levels.target <ℤ candle.low

abbrev pub MissesStop : TradeSide → Levels → Candle → Type 0
MissesStop buy levels candle = levels.stop <ℤ candle.low
MissesStop sell levels candle = candle.high <ℤ levels.stop

-- The candle misses both levels.
abbrev pub IsUntouched : Levels → Candle → Type 0
IsUntouched levels candle =
    MissesTarget levels.side levels candle × MissesStop levels.side levels candle

-- The candle ends a walk with the status: it reaches the one level only, or both.
abbrev pub IsTouched : Levels → Candle → TradeOutcomeStatus → Type 0
IsTouched levels candle status =
    ((status ≡ take_profit_reached)
      × ReachesTarget levels.side levels candle
      × MissesStop levels.side levels candle)
    ⊎ ((status ≡ stop_loss_reached)
        × ReachesStop levels.side levels candle
        × MissesTarget levels.side levels candle)
    ⊎ ((status ≡ ambiguous_intrabar)
        × ReachesTarget levels.side levels candle
        × ReachesStop levels.side levels candle)

untouched_on :
    (side : TradeSide) (levels : Levels) (candle : Candle)
    → levels.side ≡ side
    → resolution levels candle ≡ none
    → MissesTarget side levels candle × MissesStop side levels candle
unfolding resolution leb_ℤ
untouched_on buy levels candle same h = ground arith
untouched_on sell levels candle same h = ground arith

touched_on :
    (side : TradeSide) (levels : Levels) (candle : Candle) (status : TradeOutcomeStatus)
    → levels.side ≡ side
    → resolution levels candle ≡ some status
    → ((status ≡ take_profit_reached)
        × ReachesTarget side levels candle
        × MissesStop side levels candle)
      ⊎ ((status ≡ stop_loss_reached)
          × ReachesStop side levels candle
          × MissesTarget side levels candle)
      ⊎ ((status ≡ ambiguous_intrabar)
          × ReachesTarget side levels candle
          × ReachesStop side levels candle)
unfolding resolution leb_ℤ
touched_on buy levels candle status same h = ground arith
touched_on sell levels candle status same h = ground arith

untouched :
    (levels : Levels) (candle : Candle)
    → resolution levels candle ≡ none
    → IsUntouched levels candle
untouched levels candle h = untouched_on levels.side levels candle refl h

All-IsUntouched :
    (levels : Levels) (candles : List Candle)
    → All (λ candle. resolution levels candle ≡ none) candles
    → All (IsUntouched levels) candles
All-IsUntouched levels [] h = tt
All-IsUntouched levels (candle ∷ rest) (here, others) =
    (untouched levels candle here, All-IsUntouched levels rest others)

-- No candle touches a level and the path is unresolved, or the path ends at the first that does.
abbrev pub IsFirstTouch : Levels → List Candle → PricePath → Type 0
IsFirstTouch levels candles path =
    ((path.status ≡ unresolved_horizon)
      × (path.evaluated ≡ candles)
      × All (IsUntouched levels) candles)
    ⊎ ((before : List Candle) × (last : Candle) × (unseen : List Candle) × (candles
          ≡ before ++ (last ∷ unseen))
        × (path.evaluated ≡ before ++ (last ∷ []))
        × All (IsUntouched levels) before
        × IsTouched levels last path.status)

pub IsFirstTouch-of_resolved :
    (levels : Levels) (candles : List Candle) (path : PricePath)
    → IsResolved levels candles path
    → IsFirstTouch levels candles path
IsFirstTouch-of_resolved levels candles path (inl (pending, same, quiet)) =
    inl (pending, same, All-IsUntouched levels candles quiet)
IsFirstTouch-of_resolved levels candles path
      (inr (before, last, unseen, split, seen, quiet, touched)) =
    inr (
      before,
      last,
      unseen,
      split,
      seen,
      All-IsUntouched levels before quiet,
      touched_on levels.side levels last path.status refl touched,
    )

-- The stop is on the losing side of the entry and the target on the winning side.
abbrev pub IsDirected : TradeSide → Levels → Type 0
IsDirected buy levels = (levels.stop <ℤ levels.entry) × (levels.entry <ℤ levels.target)
IsDirected sell levels = (levels.target <ℤ levels.entry) × (levels.entry <ℤ levels.stop)

pub is_directed-IsDirected :
    (side : TradeSide) (levels : Levels)
    → is_directed side levels.entry levels.stop levels.target ≡ true
    → IsDirected side levels
unfolding ltb_ℤ
is_directed-IsDirected buy levels h = ground arith
is_directed-IsDirected sell levels h = ground arith
