-- ===== src/Features/Candles/Completed.antt =====
-- What `validate_candles` of src/ai_trading_team/features/validation.py accepts.
use my_team_tradding.Features.Candles.{
  MtCandle, candle_fault, candles_fault, is_not_after, timeframe_duration, validate_candles,
}
use my_team_tradding.Outcomes.{Timeframe, same_timeframe}
use my_team_tradding.Prelude.{
  List, Option, Option-cases, String, [], arith, false, get_elem?, inl, inr, none, refl, some,
  str_eq_iff, subst, suc, true, zero, ℕ, ◌+◌, ◌<◌, ◌↔◌, ◌∷◌, ◌≡◌, ◌≢◌, ◌≤◌,
}

pub record IsFine (symbol : String) (completed_at : ℕ) (timeframe : Timeframe) (previous : Option ℕ)
    (candle : MtCandle) : Type 0 where
  pub of_symbol : candle.symbol ≡ symbol
  pub of_timeframe : same_timeframe candle.timeframe timeframe ≡ true
  pub in_order : is_not_after candle.open_time previous ≡ false
  pub complete : candle.open_time + timeframe_duration timeframe ≤ completed_at

module _ (symbol : String) (completed_at : ℕ) (timeframe : Timeframe) where
  candle_fault-IsFine :
      (previous : Option ℕ) (candle : MtCandle)
      → candle_fault symbol completed_at timeframe previous candle ≡ none
      → IsFine symbol completed_at timeframe previous candle
  unfolding candle_fault
  candle_fault-IsFine previous candle h = record {
    of_symbol = ground (arith, str_eq_iff candle.symbol symbol);
    of_timeframe = ground arith;
    in_order = ground arith;
    complete = ground arith;
  }

  IsFine-candle_fault :
      (previous : Option ℕ) (candle : MtCandle)
      → IsFine symbol completed_at timeframe previous candle
      → candle_fault symbol completed_at timeframe previous candle ≡ none
  unfolding candle_fault
  IsFine-candle_fault previous candle x =
      let a = x.of_symbol in
      let b = x.of_timeframe in
      let e = x.in_order in let f = x.complete in ground (arith, str_eq_iff candle.symbol symbol)

  -- The candles of the collection are all of it and complete, each opens after the one before it.
  pub record AreCompleted (candles : List MtCandle) : Type 0 where
    pub some_candle : candles ≢ []
    pub each :
        (i : ℕ) (candle : MtCandle)
        → get_elem? candles i ≡ some candle
        → (candle.symbol ≡ symbol)
          × ((same_timeframe candle.timeframe timeframe ≡ true)
              × (candle.open_time + timeframe_duration timeframe ≤ completed_at))
    pub ordered :
        (i j : ℕ) (a b : MtCandle)
        → i < j
        → get_elem? candles i ≡ some a
        → get_elem? candles j ≡ some b
        → a.open_time < b.open_time

  -- A loop that raises nothing raises nothing in its first turn, nor in the others.
  first_turn :
      (previous : Option ℕ) (candle : MtCandle) (rest : List MtCandle)
      → candles_fault symbol completed_at timeframe previous (candle ∷ rest) ≡ none
      → (candle_fault symbol completed_at timeframe previous candle ≡ none)
        × (candles_fault symbol completed_at timeframe (some candle.open_time) rest ≡ none)
  unfolding candles_fault
  first_turn previous candle rest h =
      elim (Option-cases (candle_fault symbol completed_at timeframe previous candle)) [
        | inl fine ↦ (fine, rw (fine, candles_fault) at h)
        | inr (fault, raised) ↦ cc (rw (raised, candles_fault) at h)
      ]

  IsFine-each :
      (previous : Option ℕ) (candles : List MtCandle) (i : ℕ) (candle : MtCandle)
      → candles_fault symbol completed_at timeframe previous candles ≡ none
      → get_elem? candles i ≡ some candle
      → (q : Option ℕ) × IsFine symbol completed_at timeframe q candle
  IsFine-each previous [] i candle h found = absurd (cc (found))
  IsFine-each previous (x ∷ rest) zero candle h found = (
    previous,
    candle_fault-IsFine previous candle (
        subst (λ y. candle_fault symbol completed_at timeframe previous y ≡ none) (cc (found))
          (first_turn previous x rest h).0),
  )
  IsFine-each previous (x ∷ rest) (suc i) candle h found =
      IsFine-each (some x.open_time) rest i candle (first_turn previous x rest h).1 found

  -- Every candle opens after the one before the list.
  fine_after :
      (previous : ℕ) (candles : List MtCandle) (i : ℕ) (candle : MtCandle)
      → candles_fault symbol completed_at timeframe (some previous) candles ≡ none
      → get_elem? candles i ≡ some candle
      → previous < candle.open_time
  fine_after previous [] i candle h found = absurd (cc (found))
  fine_after previous (x ∷ rest) zero candle h found =
      let same : x ≡ candle = cc (found) in
      let ahead =
        (candle_fault-IsFine (some previous) x (first_turn (some previous) x rest h).0).in_order in
      subst (λ y. previous < y.open_time) same (ground arith)
  fine_after previous (x ∷ rest) (suc i) candle h found =
      let ahead =
        (candle_fault-IsFine (some previous) x (first_turn (some previous) x rest h).0).in_order in
      let behind =
        fine_after x.open_time rest i candle (first_turn (some previous) x rest h).1 found in
      ground arith

  fine_ordered :
      (previous : Option ℕ) (candles : List MtCandle) (i j : ℕ) (a b : MtCandle)
      → candles_fault symbol completed_at timeframe previous candles ≡ none
      → i < j
      → get_elem? candles i ≡ some a
      → get_elem? candles j ≡ some b
      → a.open_time < b.open_time
  fine_ordered previous [] i j a b h lt one other = absurd (cc (one))
  fine_ordered previous (x ∷ rest) i zero a b h lt one other = absurd (omega arith)
  fine_ordered previous (x ∷ rest) zero (suc j) a b h lt one other =
      let same : x ≡ a = cc (one) in
      subst {A = MtCandle} (λ y. y.open_time < b.open_time) same
        (fine_after x.open_time rest j b (first_turn previous x rest h).1 other)
  fine_ordered previous (x ∷ rest) (suc i) (suc j) a b h lt one other =
      fine_ordered (some x.open_time) rest i j a b (first_turn previous x rest h).1 (omega arith)
        one other

  -- Conversely, by the candle before the list.
  none_of_fine :
      (previous : Option ℕ) (candles : List MtCandle)
      → ((i : ℕ) (candle : MtCandle)
          → get_elem? candles i ≡ some candle
          → (q : Option ℕ) × IsFine symbol completed_at timeframe q candle)
      → ((candle : MtCandle)
          → get_elem? candles 0 ≡ some candle
          → is_not_after candle.open_time previous ≡ false)
      → ((i j : ℕ) (a b : MtCandle)
          → i < j
          → get_elem? candles i ≡ some a
          → get_elem? candles j ≡ some b
          → a.open_time < b.open_time)
      → candles_fault symbol completed_at timeframe previous candles ≡ none
  unfolding candles_fault
  none_of_fine previous [] each ahead ordered = refl
  none_of_fine previous (x ∷ rest) each ahead ordered =
      let (q, fine) = each 0 x refl in
      let here = IsFine-candle_fault previous x (record {
        of_symbol = fine.of_symbol;
        of_timeframe = fine.of_timeframe;
        in_order = ahead x refl;
        complete = fine.complete;
      }) in
      rw (here, candles_fault)
        (none_of_fine (some x.open_time) rest (λ i. each (suc i))
          (λ candle found. let lt = ordered 0 1 x candle (omega arith) refl found in ground arith)
          (λ i j a b lt. ordered (suc i) (suc j) a b (omega arith)))

  -- The loop raises nothing of candles that are completed.
  AreCompleted-none :
      (candles : List MtCandle)
      → AreCompleted candles
      → candles_fault symbol completed_at timeframe none candles ≡ none
  AreCompleted-none candles x =
      none_of_fine none candles
        (λ i candle found.
          let (same, (frame, ended)) = x.each i candle found in
          (
            none,
            record { of_symbol = same; of_timeframe = frame; in_order = refl; complete = ended },
          ))
        (λ candle found. refl) x.ordered

  none-AreCompleted :
      (candles : List MtCandle)
      → candles ≢ []
      → candles_fault symbol completed_at timeframe none candles ≡ none
      → AreCompleted candles
  none-AreCompleted candles some_candle h = record {
    some_candle = some_candle;
    each = λ i candle found.
        let (q, fine) = IsFine-each none candles i candle h found in
        (fine.of_symbol, (fine.of_timeframe, fine.complete));
    ordered = λ i j a b lt. fine_ordered none candles i j a b h lt;
  }

  -- The validation of candles raises nothing exactly when there is a candle, each is of the symbol and
  -- the timeframe and had ended when the snapshot was complete, and each opens after every earlier one.
  pub validate_candles_iff :
      (candles : List MtCandle)
      → (validate_candles symbol completed_at timeframe candles ≡ none) ↔ AreCompleted candles
  unfolding validate_candles
  validate_candles_iff [] = (λ h. absurd (cc (h)), λ x. absurd (x.some_candle refl))
  validate_candles_iff (candle ∷ rest) = (
    λ h. none-AreCompleted (candle ∷ rest) (λ p. cc (p)) h,
    λ x. AreCompleted-none (candle ∷ rest) x,
  )
