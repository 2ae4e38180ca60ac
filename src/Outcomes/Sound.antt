-- ===== src/Outcomes/Sound.antt =====
-- What an outcome that `OutcomeEvaluator.evaluate` returns is.
-- The levels that a proposal gives, on the right sides of its entry.
use my_team_tradding.Decimal.{Decimal, DecimalContext}
use my_team_tradding.Outcomes.{
  Candle, Levels, Outcome, OutcomeBounds, check_horizon, check_order, evaluate_outcome, is_directed,
  levels_of, lifted, priced_levels, same_timeframe, walk,
}
use my_team_tradding.Outcomes.Path.{IsPath, walk-IsPath}
use my_team_tradding.Outcomes.Touch.{
  IsDirected, IsFirstTouch, IsFirstTouch-of_resolved, is_directed-IsDirected,
}
use my_team_tradding.Prelude.{
  All, List, Option, [], any, ap, arith, false, is_empty, leb, length, ltb, none, not, or-eq-false,
  some, str_eq, subst, sym, true, ℕ, ◌+◌, ◌<◌, ◌||◌, ◌∷◌, ◌≡◌, ◌≤◌,
}
use my_team_tradding.Prelude.Int.{pos}
use my_team_tradding.Prelude.Result.{
  >>=-returned, Result, err, ok, ok-injective, passed-eq-ok, refused-eq-ok,
}
use my_team_tradding.Replay.Clock.{ReplayError}
use my_team_tradding.Risk.Types.{TradeProposal, TradeSide}

pub record IsLevels (proposal : TradeProposal) (levels : Levels) : Type 0 where
  pub same_side : levels.side ≡ proposal.side
  pub entry_is : proposal.entry ≡ some levels.entry
  pub stop_is : proposal.stop_loss ≡ some levels.stop
  pub target_is : proposal.take_profit ≡ some levels.target
  pub directed : IsDirected levels.side levels

-- The outcome is that of the walk over candles that lie behind the decision and before the end of the
-- partition.
pub record IsOutcome (proposal : TradeProposal) (bounds : OutcomeBounds) (candles : List Candle)
    (o : Outcome) : Type 0 where
  pub levels : Levels
  pub levels_are : IsLevels proposal levels
  pub path : IsPath levels (pos 0) (pos 0) candles o.path
  pub first_touch : IsFirstTouch levels candles o.path
  pub after_decision :
      All
        (λ candle.
          (bounds.decision_cutoff ≤ candle.open_time)
          × (bounds.decision_cutoff < candle.close_time))
        candles
  pub before_end : All (λ candle. candle.close_time ≤ bounds.evaluation_end) candles

check_order-All :
    (bounds : OutcomeBounds) (previous_open : Option ℕ) (candles : List Candle)
    → check_order bounds previous_open candles ≡ ok tt
    → All
        (λ candle.
          (bounds.decision_cutoff ≤ candle.open_time)
          × (bounds.decision_cutoff < candle.close_time))
        candles
unfolding check_order
check_order-All bounds previous_open [] h = tt
check_order-All bounds previous_open (candle ∷ rest) h =
    let (inside, h1) =
      refused-eq-ok
        (not (str_eq candle.symbol bounds.symbol)
          || (not (same_timeframe candle.timeframe bounds.timeframe)
              || (ltb candle.open_time bounds.decision_cutoff
                  || leb candle.close_time bounds.decision_cutoff)))
        _ _ _ h in
    let (chronological, h2) =
      refused-eq-ok
        (elim previous_open [ none ↦ false | some before ↦ leb candle.open_time before ]) _ _ _
        h1 in
    (ground arith, check_order-All bounds (some candle.open_time) rest h2)

any-le :
    (limit : ℕ) (candles : List Candle)
    → any (λ candle. ltb limit candle.close_time) candles ≡ false
    → All (λ candle. candle.close_time ≤ limit) candles
any-le limit [] h = tt
any-le limit (candle ∷ rest) h =
    let (here, others) = or-eq-false (ltb limit candle.close_time) _ h in
    (ground arith, any-le limit rest others)

check_horizon-end :
    (bounds : OutcomeBounds) (candles : List Candle)
    → check_horizon bounds candles ≡ ok tt
    → All (λ candle. candle.close_time ≤ bounds.evaluation_end) candles
unfolding check_horizon
check_horizon-end bounds candles h =
    let (few, h1) =
      refused-eq-ok (elim bounds.max_bars [ none ↦ false | some bars ↦ ltb bars (length candles) ])
        _ _ _ h in
    let (soon, h2) =
      refused-eq-ok
        (elim bounds.max_elapsed [
          | none ↦ false
          | some elapsed ↦
              any (λ candle. ltb (bounds.decision_cutoff + elapsed) candle.close_time) candles
        ])
        _ _ _ h1 in
    let (ended, h3) =
      refused-eq-ok (any (λ candle. ltb bounds.evaluation_end candle.close_time) candles) _ _ _
        h2 in
    any-le bounds.evaluation_end candles ended

levels_given :
    (side : TradeSide) (oe ol ot : Option Decimal) (levels : Levels)
    → priced_levels side oe ol ot ≡ ok levels
    → (levels.side ≡ side)
      × (oe ≡ some levels.entry)
      × (ol ≡ some levels.stop)
      × (ot ≡ some levels.target)
      × (is_directed side levels.entry levels.stop levels.target ≡ true)
unfolding priced_levels
levels_given side none ol ot levels h = cc
levels_given side (some e) none ot levels h = cc
levels_given side (some e) (some l) none levels h = cc
levels_given side (some e) (some l) (some t) levels h =
    let (directed, same) = passed-eq-ok (is_directed side e l t) _ _ _ h in
    let e : ◌≡◌ {A = Levels} (record { side = side; entry = e; stop = l; target = t }) levels =
      ok-injective same in
    (
      ap (λ x. x.side) (sym e),
      ap (λ x. some x.entry) e,
      ap (λ x. some x.stop) e,
      ap (λ x. some x.target) e,
      subst (λ x. is_directed side x.entry x.stop x.target ≡ true) e directed,
    )

levels_of-IsLevels :
    (proposal : TradeProposal) (levels : Levels)
    → levels_of proposal ≡ ok levels
    → IsLevels proposal levels
unfolding levels_of
levels_of-IsLevels proposal levels h =
    let (side, entry, stop, target, directed) =
      levels_given proposal.side proposal.entry proposal.stop_loss proposal.take_profit levels h in
    record {
      same_side = side;
      entry_is = entry;
      stop_is = stop;
      target_is = target;
      directed = is_directed-IsDirected levels.side levels (rw side directed);
    }

lifted-ok : {A : Type 0} (m : Result ReplayError A) (value : A) → lifted m ≡ ok value → m ≡ ok value
lifted-ok (ok v) value h = cc
lifted-ok (err e) value h = cc

-- An outcome that the evaluation returns is that of the walk: the stop and the target of the proposal
-- are on their sides of the entry; the outcome resolves at the first candle that touches a level, as
-- the prices of that candle reach the target, the stop or both, or not at all; its excursions cover
-- the evaluated candles; and every candle lies behind the decision and before the end of the partition.
pub evaluate_outcome-IsOutcome :
    (c : DecimalContext) (proposal : TradeProposal) (bounds : OutcomeBounds) (candles : List Candle)
    (o : Outcome)
    → evaluate_outcome c proposal bounds candles ≡ ok o
    → IsOutcome proposal bounds candles o
unfolding evaluate_outcome
evaluate_outcome-IsOutcome c proposal bounds candles o h =
    let (levels, given, h1) = >>=-returned (lifted (levels_of proposal)) _ h in
    let (u, ordered, h2) = >>=-returned (lifted (check_order bounds none candles)) _ h1 in
    let (v, bounded, h3) = >>=-returned (lifted (check_horizon bounds candles)) _ h2 in
    let (nonempty, same) = refused-eq-ok (is_empty candles) _ _ _ h3 in
    subst (IsOutcome proposal bounds candles) (ok-injective same) (record {
      levels = levels;
      levels_are = levels_of-IsLevels proposal levels (lifted-ok _ levels given);
      path = walk-IsPath levels (pos 0) (pos 0) candles;
      first_touch =
          IsFirstTouch-of_resolved levels candles (walk levels (pos 0) (pos 0) candles)
            (walk-IsPath levels (pos 0) (pos 0) candles).resolved;
      after_decision = check_order-All bounds none candles (lifted-ok _ tt ordered);
      before_end = check_horizon-end bounds candles (lifted-ok _ tt bounded);
    })
