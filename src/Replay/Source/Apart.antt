-- ===== src/Replay/Source/Apart.antt =====
-- What the two views of src/ai_trading_team/replay/source.py have in common, and what not.
use my_team_tradding.Outcomes.{Candle, Timeframe, same_timeframe}
use my_team_tradding.Prelude.{
  All, Bool, Bool-cases, false, List, Option, String, [], and_elim, ap, arith, drop, filter, inl,
  inr, is_empty, leb, leb→le, le→leb, ltb, ltb→lt, none, or-eq-false, refl, some, str_eq, subst,
  suc, sym, take, true, zero, ℕ, ◌<◌, ◌==◌, ◌||◌, ◌∙◌, ◌∷◌, ◌≡◌, ◌≤◌,
}
use my_team_tradding.Prelude.Result.{>>=-returned, ok, ok-injective, refused-eq-ok}
use my_team_tradding.Replay.Clock.{DatasetPartition}
use my_team_tradding.Replay.Source.{
  is_out_of_range, DecisionView, FrozenReplayDecision, HistoricalDataset, OutcomeHorizon,
  OutcomeView, completed_candles, decision_view, find_partition, is_future, is_visible,
  last_candles, outcome_view, within_bars, within_elapsed,
}
use my_team_tradding.Time.{aware, normalize_utc}

module _ {ℓ κ} {A : Type ℓ} where
  All-of_filter :
      (Q : A → Type κ) (p : A → Bool) (xs : List A)
      → ((x : A) → p x ≡ true → Q x)
      → All Q (filter p xs)
  All-of_filter Q p [] f = tt
  All-of_filter Q p (x ∷ xs) f = elim (Bool-cases (p x)) [
    | inl kept ↦ rw kept (f x kept, All-of_filter Q p xs f)
    | inr dropped ↦ rw dropped (All-of_filter Q p xs f)
  ]

  All-filter_kept : (Q : A → Type κ) (p : A → Bool) (xs : List A) → All Q xs → All Q (filter p xs)
  All-filter_kept Q p [] h = tt
  All-filter_kept Q p (x ∷ xs) (here, rest) = elim (Bool-cases (p x)) [
    | inl kept ↦ rw kept (here, All-filter_kept Q p xs rest)
    | inr dropped ↦ rw dropped (All-filter_kept Q p xs rest)
  ]

  All-drop : (Q : A → Type κ) (n : ℕ) (xs : List A) → All Q xs → All Q (drop n xs)
  All-drop Q zero xs h = h
  All-drop Q (suc n) [] h = tt
  All-drop Q (suc n) (x ∷ xs) (here, rest) = All-drop Q n xs rest

  All-take : (Q : A → Type κ) (n : ℕ) (xs : List A) → All Q xs → All Q (take n xs)
  All-take Q zero xs h = tt
  All-take Q (suc n) [] h = tt
  All-take Q (suc n) (x ∷ xs) (here, rest) = (here, All-take Q n xs rest)

-- A filter absorbs a wider one before it.
filter-filter {ℓ} :
    {A : Type ℓ} (p q : A → Bool) (xs : List A)
    → ((x : A) → p x ≡ true → q x ≡ true)
    → filter p (filter q xs) ≡ filter p xs
filter-filter p q [] wider = refl
filter-filter p q (x ∷ xs) wider =
    let rest = filter-filter p q xs wider in
    elim (Bool-cases (p x)) [
      | inl kept ↦ rw (wider x kept, kept) (ap (λ l. x ∷ l) rest)
      | inr dropped ↦ elim (Bool-cases (q x)) [
        | inl passed ↦ rw (passed, dropped) rest
        | inr stopped ↦ rw (stopped, dropped) rest
      ]
    ]

abbrev pub is_over_by : ℕ → Candle → Bool
is_over_by cutoff candle = leb candle.close_time cutoff

-- A candle that a decision may read.
pub record IsPast (partition : DatasetPartition) (cutoff : ℕ) (candle : Candle) : Type 0 where
  pub in_context : partition.context_start ≤ candle.open_time
  pub over : candle.close_time ≤ cutoff

-- A candle that an outcome may read.
pub record IsAhead (partition : DatasetPartition) (cutoff : ℕ) (candle : Candle) : Type 0 where
  pub not_begun : cutoff ≤ candle.open_time
  pub unfinished : cutoff < candle.close_time
  pub in_partition : candle.close_time ≤ partition.evaluation_end

pub record AreApart (view : DecisionView) (symbol : String) (timeframe : Timeframe) (count : ℕ)
    (past : List Candle) (outcome : OutcomeView) : Type 0 where
  pub same_partition : outcome.partition ≡ view.partition
  pub in_range :
      (view.partition.evaluation_start ≤ view.cutoff)
      × (view.cutoff < view.partition.evaluation_end)
  pub known : All (IsPast view.partition view.cutoff) past
  pub ahead : All (IsAhead view.partition view.cutoff) outcome.candles
  pub blind :
      (other : HistoricalDataset)
      → filter (is_over_by view.cutoff) other.candles
        ≡ filter (is_over_by view.cutoff) view.dataset.candles
      → completed_candles (record view { dataset = other }) symbol timeframe count ≡ ok past

is_visible-IsPast :
    (view : DecisionView) (symbol : String) (timeframe : Timeframe) (candle : Candle)
    → is_visible view symbol timeframe candle ≡ true
    → IsPast view.partition view.cutoff candle
is_visible-IsPast view symbol timeframe candle h =
    let (own, h1) = and_elim (str_eq candle.symbol symbol) _ h in
    let (framed, h2) = and_elim (same_timeframe candle.timeframe timeframe) _ h1 in
    let (after, before) = and_elim (leb view.partition.context_start candle.open_time) _ h2 in
    record { in_context = leb→le _ _ after; over = leb→le _ _ before }

is_future-IsAhead :
    (frozen : FrozenReplayDecision) (partition : DatasetPartition) (timeframe : Timeframe)
    (candle : Candle)
    → is_future frozen partition timeframe candle ≡ true
    → IsAhead partition frozen.decision_cutoff candle
is_future-IsAhead frozen partition timeframe candle h =
    let (own, h1) = and_elim (str_eq candle.symbol frozen.symbol) _ h in
    let (framed, h2) = and_elim (same_timeframe candle.timeframe timeframe) _ h1 in
    let (begun, h3) = and_elim (leb frozen.decision_cutoff candle.open_time) _ h2 in
    let (after, before) = and_elim (ltb frozen.decision_cutoff candle.close_time) _ h3 in
    record {
      not_begun = leb→le _ _ begun;
      unfinished = ltb→lt _ _ after;
      in_partition = leb→le _ _ before;
    }

within_bars-IsAhead :
    (frozen : FrozenReplayDecision) (partition : DatasetPartition)
    (candidates selected : List Candle) (horizon : OutcomeHorizon) (bars : Option ℕ)
    → All (IsAhead partition frozen.decision_cutoff) candidates
    → within_bars frozen partition candidates horizon bars ≡ ok selected
    → All (IsAhead partition frozen.decision_cutoff) selected
within_bars-IsAhead frozen partition candidates selected horizon (some bars) h made =
    subst (All (IsAhead partition frozen.decision_cutoff)) (ok-injective made)
      (All-take _ bars candidates h)
within_bars-IsAhead frozen partition candidates selected horizon none h made =
    elim horizon.max_elapsed
        as (λ o.
          within_elapsed frozen partition candidates o ≡ ok selected
          → All (IsAhead partition frozen.decision_cutoff) selected) [
            | none ↦ λ k. cc (k)
            | some elapsed ↦ λ k.
                subst (All (IsAhead partition frozen.decision_cutoff)) (ok-injective k)
                  (All-filter_kept _ _ candidates h)
          ]
      made

in_range_of :
    (partition : DatasetPartition) (moment : ℕ)
    → is_out_of_range partition moment ≡ false
    → (partition.evaluation_start ≤ moment) × (moment < partition.evaluation_end)
in_range_of partition moment h =
    let (started, unfinished) = or-eq-false (ltb moment partition.evaluation_start) _ h in
    (ground (arith, started), ground (arith, unfinished))

-- A view for a decision and one for its outcome, at the same cutoff of the same partition: the cutoff is
-- in the evaluation range, the decision reads candles of the context that closed by the cutoff, the
-- outcome candles that open at the cutoff or later and close inside the partition, and the decision
-- reads the same from any dataset with the same candles up to the cutoff.
pub views-AreApart :
    (dataset : HistoricalDataset) (partition_id : String) (frozen : FrozenReplayDecision)
    (symbol : String) (timeframe outcome_timeframe : Timeframe) (count : ℕ)
    (horizon : OutcomeHorizon) (view : DecisionView) (past : List Candle) (outcome : OutcomeView)
    → decision_view dataset partition_id (aware frozen.decision_cutoff) ≡ ok view
    → completed_candles view symbol timeframe count ≡ ok past
    → outcome_view dataset frozen partition_id outcome_timeframe horizon ≡ ok outcome
    → AreApart view symbol timeframe count past outcome
unfolding decision_view completed_candles outcome_view normalize_utc
views-AreApart dataset partition_id frozen symbol timeframe outcome_timeframe count horizon view
      past outcome viewed read seen =
    let (partition, found, h1) =
      >>=-returned (find_partition partition_id dataset.partitions) _ viewed in
    let (inside, made) =
      refused-eq-ok (is_out_of_range partition frozen.decision_cutoff) _ _ view h1 in
    let same : record { dataset = dataset; partition = partition; cutoff = frozen.decision_cutoff }
        ≡ view =
      ok-injective made in
    let (admitted, listed) = refused-eq-ok (count == 0 || ltb 5000 count) _ _ past read in
    let (partition', found', h2) =
      >>=-returned (find_partition partition_id dataset.partitions) _ seen in
    let (inside', h3) =
      refused-eq-ok (is_out_of_range partition' frozen.decision_cutoff) _ _ outcome h2 in
    let (selected, bounded, h4) =
      >>=-returned (within_bars frozen partition' _ horizon horizon.max_bars) _ h3 in
    let (present, built) = refused-eq-ok (is_empty selected) _ _ outcome h4 in
    let partitions : partition' ≡ partition = ok-injective (sym found' ∙ found) in
    let here : view.partition ≡ partition = ap (λ v. v.partition) (sym same) in
    let at : view.cutoff ≡ frozen.decision_cutoff = ap (λ v. v.cutoff) (sym same) in
    let future =
      within_bars-IsAhead frozen partition' _ selected horizon horizon.max_bars
        (All-of_filter _ (is_future frozen partition' outcome_timeframe) dataset.candles
          (is_future-IsAhead frozen partition' outcome_timeframe))
        bounded in
    record {
      same_partition = ap (λ o. o.partition) (sym (ok-injective built)) ∙ (partitions ∙ sym here);
      in_range =
          subst
            (λ v.
              (v.partition.evaluation_start ≤ v.cutoff) × (v.cutoff < v.partition.evaluation_end))
            same (in_range_of partition frozen.decision_cutoff inside);
      known = subst (All (IsPast view.partition view.cutoff)) (ok-injective listed) (
          All-drop _ _ _ (
            All-of_filter _ (is_visible view symbol timeframe) view.dataset.candles
              (is_visible-IsPast view symbol timeframe)));
      ahead =
          subst (λ l. All (IsAhead view.partition view.cutoff) l)
            (ap (λ o. o.candles) (ok-injective built))
            (subst (λ c. All (IsAhead view.partition c) selected) (sym at)
              (subst (λ p. All (IsAhead p frozen.decision_cutoff) selected) (partitions ∙ sym here)
                future));
      blind = λ other agree.
          let wider : (x : Candle)
              → is_visible view symbol timeframe x ≡ true
              → is_over_by view.cutoff x ≡ true =
            λ x k. le→leb _ _ (is_visible-IsPast view symbol timeframe x k).over in
          let p = is_visible view symbol timeframe in
          let q = is_over_by view.cutoff in
          let equal : filter p other.candles ≡ filter p view.dataset.candles =
            sym (filter-filter p q other.candles wider)
            ∙ ap (filter p) agree
            ∙ filter-filter p q view.dataset.candles wider in
          rw admitted (ap (λ l. ok (last_candles count l)) equal ∙ listed);
    }
