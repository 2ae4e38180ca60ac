-- ===== src/Features/Structure/Latest.antt =====
-- The latest confirmed swing of candles that `validate_candles` accepted.
use my_team_tradding.Features.Candles.{FeatureFault, MtCandle, timeframe_duration, validate_candles}
use my_team_tradding.Features.Candles.Completed.{AreCompleted, validate_candles_iff}
use my_team_tradding.Features.Structure.{
  SwingPoint, build_swing, latest_confirmed_swing, level, point_at, scan,
}
use my_team_tradding.Features.Structure.Pivots.{IsPivot}
use my_team_tradding.Features.Structure.Swings.{IsLast, Scanned, scan-Scanned}
use my_team_tradding.Outcomes.{Timeframe}
use my_team_tradding.Prelude.{
  Bool, List, Option, String, arith, false, get_of_lt, if◌then◌else◌, length, ltb, ltb→lt, none,
  refl, some, true, ℕ, ◌+◌, ◌-◌, ◌<◌, ◌==◌, ◌≡◌, ◌≢◌, ◌≤◌,
}
use my_team_tradding.Prelude.Result.{Result, ok}

module _ (high : Bool) (left_bars right_bars : ℕ) (candles : List MtCandle) (symbol : String)
    (completed_at : ℕ) (timeframe : Timeframe) where
  -- A swing point of the candles: its candle is the last that exceeds its windows on both sides, and the
  -- point was confirmed when the snapshot was complete.
  pub record IsSwing (p : SwingPoint) : Type 0 where
    pub index : ℕ
    pub room : left_bars ≤ index
    pub inside : index + right_bars < length candles
    pub pivotal : IsPivot high left_bars right_bars candles index
    pub last :
        (k : ℕ)
        → index < k
        → k + right_bars < length candles
        → ¬ IsPivot high left_bars right_bars candles k
    pub priced : p.price ≡ level high pivotal.pivot
    pub opened : p.candle_open_at ≡ pivotal.pivot.open_time
    pub follows : p.candle_open_at < p.confirmed_at
    pub known : p.confirmed_at ≤ completed_at

  abbrev pub Answers : Option SwingPoint → Type 0
  Answers none =
      (k : ℕ)
      → left_bars ≤ k
      → k + right_bars < length candles
      → ¬ IsPivot high left_bars right_bars candles k
  Answers (some p) = IsSwing p

  abbrev Swings : Result FeatureFault (Option SwingPoint) → Type 0
  Swings outcome = (s : Option SwingPoint) × ((outcome ≡ ok s) × Answers s)

  built : (p : SwingPoint) → p.candle_open_at < p.confirmed_at → build_swing p ≡ ok p
  unfolding build_swing
  built p h = ground arith

  module _ (completed : AreCompleted symbol completed_at timeframe candles)
      (positive : right_bars ≢ 0) (long : left_bars + right_bars < length candles) where
    swing_at :
        (index : ℕ)
        → IsLast high left_bars right_bars candles (length candles - right_bars - left_bars) index
        → Swings (point_at high left_bars right_bars candles timeframe (some index))
    swing_at index x =
        let (confirming, found) =
          get_of_lt candles (index + right_bars) (omega (arith, x.inside)) in
        let before =
          completed.ordered index (index + right_bars) x.pivotal.pivot confirming (omega arith)
            x.pivotal.present found in
        let ended = (completed.each (index + right_bars) confirming found).1.1 in
        let p : SwingPoint = record {
          price = level high x.pivotal.pivot;
          candle_open_at = x.pivotal.pivot.open_time;
          confirmed_at = confirming.open_time + timeframe_duration timeframe;
          left_bars = left_bars;
          right_bars = right_bars;
        } in
        let follows : p.candle_open_at < p.confirmed_at = omega arith in
        (
          some p,
          (
            rw (x.pivotal.present, found, built p follows) refl,
            record {
              index = index;
              room = x.room;
              inside = omega (arith, x.inside);
              pivotal = x.pivotal;
              last = λ k behind inside. x.last k behind (omega arith);
              priced = refl;
              opened = refl;
              follows = follows;
              known = ended;
            },
          ),
        )

    scanned :
        (found : Option ℕ)
        → Scanned high left_bars right_bars candles (length candles - right_bars - left_bars) found
        → Swings (point_at high left_bars right_bars candles timeframe found)
    scanned none below = (none, (refl, λ k room inside. below k room (omega arith)))
    scanned (some index) below = swing_at index below

  -- The outcome of the source by its three tests.
  outcome_by :
      (short : Bool)
      → ltb (length candles) (left_bars + right_bars + 1) ≡ short
      → AreCompleted symbol completed_at timeframe candles
      → right_bars ≢ 0
      → Swings (
          if short
          then ok none
          else point_at high left_bars right_bars candles timeframe
              (scan high left_bars right_bars candles (length candles - right_bars - left_bars)))
  outcome_by true h completed positive =
      (none, (refl, λ k room inside. absurd (omega (arith, ltb→lt _ _ h))))
  outcome_by false h completed positive =
      scanned completed positive (ground arith) _
        (scan-Scanned high left_bars right_bars candles (length candles - right_bars - left_bars))

  -- Of candles that the validation accepted, with positive windows, the search for the latest confirmed
  -- swing raises nothing. It returns the last candle that exceeds every other one of its two windows,
  -- confirmed after the candle opened and no later than the snapshot was complete, or nothing when no
  -- candle with full windows does so.
  pub latest_confirmed_swing-IsSwing :
      left_bars ≢ 0
      → right_bars ≢ 0
      → validate_candles symbol completed_at timeframe candles ≡ none
      → (s : Option SwingPoint) × ((latest_confirmed_swing high left_bars right_bars candles
              timeframe
            ≡ ok s)
          × Answers s)
  unfolding latest_confirmed_swing
  latest_confirmed_swing-IsSwing left right valid_candles =
      let a : (left_bars == 0) ≡ false = ground arith in
      let b : (right_bars == 0) ≡ false = ground arith in
      rw (a, b)
        (outcome_by _ refl
          ((validate_candles_iff symbol completed_at timeframe candles).0 valid_candles) right)
