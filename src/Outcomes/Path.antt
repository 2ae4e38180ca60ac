-- ===== src/Outcomes/Path.antt =====
-- What the walk along the price path finds, and that it does not look ahead.
use my_team_tradding.Decimal.{Decimal}
use my_team_tradding.Outcomes.{
  Candle, Levels, PricePath, TradeOutcomeStatus, gain_of, loss_of, resolution, turn,
  unresolved_horizon, walk,
}
use my_team_tradding.Prelude.{
  All, List, Option, [], ap, arith, inl, inr, none, refl, some, ◌++◌, ◌∷◌, ◌≡◌, ◌≢◌, ◌⊎◌,
}
use my_team_tradding.Prelude.Int.{max_ℤ, max_ℤ_le, ◌≤ℤ◌}

module _ (levels : Levels) where
  -- No candle touches a level, or the path ends at the first that does.
  abbrev pub IsResolved : List Candle → PricePath → Type 0
  IsResolved candles path =
      ((path.status ≡ unresolved_horizon)
        × (path.evaluated ≡ candles)
        × All (λ candle. resolution levels candle ≡ none) candles)
      ⊎ ((before : List Candle) × (last : Candle) × (unseen : List Candle) × (candles
            ≡ before ++ (last ∷ unseen))
          × (path.evaluated ≡ before ++ (last ∷ []))
          × All (λ candle. resolution levels candle ≡ none) before
          × (resolution levels last ≡ some path.status))

  -- The excursions cover every evaluated candle, from where they started.
  pub record IsPath (favorable adverse : Decimal) (candles : List Candle) (path : PricePath)
      : Type 0 where
    pub resolved : IsResolved candles path
    pub least_favorable : favorable ≤ℤ path.favorable
    pub least_adverse : adverse ≤ℤ path.adverse
    pub favorable_covers : All (λ candle. gain_of levels candle ≤ℤ path.favorable) path.evaluated
    pub adverse_covers : All (λ candle. loss_of levels candle ≤ℤ path.adverse) path.evaluated

  longer :
      (candle : Candle) (rest : List Candle) (path : PricePath)
      → resolution levels candle ≡ none
      → IsResolved rest path
      → IsResolved (candle ∷ rest) (record path { evaluated = candle ∷ path.evaluated })
  longer candle rest path quiet (inl (pending, same, untouched)) =
      inl (pending, ap (λ x. candle ∷ x) same, (quiet, untouched))
  longer candle rest path quiet (inr (before, last, unseen, split, seen, untouched, touched)) =
      inr (
        candle ∷ before,
        last,
        unseen,
        ap (λ x. candle ∷ x) split,
        ap (λ x. candle ∷ x) seen,
        (quiet, untouched),
        touched,
      )

  turn-IsPath :
      (favorable adverse : Decimal) (candle : Candle) (rest : List Candle) (path : PricePath)
      (o : Option TradeOutcomeStatus)
      → resolution levels candle ≡ o
      → IsPath
          (max_ℤ favorable (gain_of levels candle))
          (max_ℤ adverse (loss_of levels candle))
          rest
          path
      → IsPath favorable adverse (candle ∷ rest) (
          turn
            (max_ℤ favorable (gain_of levels candle))
            (max_ℤ adverse (loss_of levels candle))
            candle
            path
            o)
  turn-IsPath favorable adverse candle rest path (some status) touched h = record {
    resolved = inr ([], candle, rest, refl, refl, tt, touched);
    least_favorable = (max_ℤ_le favorable (gain_of levels candle)).0;
    least_adverse = (max_ℤ_le adverse (loss_of levels candle)).0;
    favorable_covers = ((max_ℤ_le favorable (gain_of levels candle)).1, tt);
    adverse_covers = ((max_ℤ_le adverse (loss_of levels candle)).1, tt);
  }
  turn-IsPath favorable adverse candle rest path none quiet h =
      let gain = max_ℤ_le favorable (gain_of levels candle) in
      let loss = max_ℤ_le adverse (loss_of levels candle) in
      record {
        resolved = longer candle rest path quiet h.resolved;
        least_favorable = omega (arith, gain.0, h.least_favorable);
        least_adverse = omega (arith, loss.0, h.least_adverse);
        favorable_covers = (omega (arith, gain.1, h.least_favorable), h.favorable_covers);
        adverse_covers = (omega (arith, loss.1, h.least_adverse), h.adverse_covers);
      }

  pub walk-IsPath :
      (favorable adverse : Decimal) (candles : List Candle)
      → IsPath favorable adverse candles (walk levels favorable adverse candles)
  unfolding walk
  walk-IsPath favorable adverse [] = record {
    resolved = inl (refl, refl, tt);
    least_favorable = omega arith;
    least_adverse = omega arith;
    favorable_covers = tt;
    adverse_covers = tt;
  }
  walk-IsPath favorable adverse (candle ∷ rest) =
      turn-IsPath favorable adverse candle rest _ (resolution levels candle) refl (
        walk-IsPath (max_ℤ favorable (gain_of levels candle))
          (max_ℤ adverse (loss_of levels candle)) rest)

  turn_no_lookahead :
      (gain loss : Decimal) (candle : Candle) (short long : PricePath)
      (o : Option TradeOutcomeStatus)
      → (short.status ≢ unresolved_horizon → long ≡ short)
      → (turn gain loss candle short o).status ≢ unresolved_horizon
      → turn gain loss candle long o ≡ turn gain loss candle short o
  turn_no_lookahead gain loss candle short long (some status) h touched = refl
  turn_no_lookahead gain loss candle short long none h touched =
      ap (λ path. turn gain loss candle path none) (h touched)

  -- Once a candle has touched a level, later candles change nothing: the evaluation of a longer path
  -- is that of its beginning.
  pub walk_no_lookahead :
      (favorable adverse : Decimal) (candles future : List Candle)
      → (walk levels favorable adverse candles).status ≢ unresolved_horizon
      → walk levels favorable adverse (candles ++ future) ≡ walk levels favorable adverse candles
  unfolding walk
  walk_no_lookahead favorable adverse [] future touched = absurd (touched refl)
  walk_no_lookahead favorable adverse (candle ∷ rest) future touched =
      let gain = max_ℤ favorable (gain_of levels candle) in
      let loss = max_ℤ adverse (loss_of levels candle) in
      turn_no_lookahead gain loss candle (walk levels gain loss rest)
        (walk levels gain loss (rest ++ future)) (resolution levels candle)
        (walk_no_lookahead gain loss rest future) touched
