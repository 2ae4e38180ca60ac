-- ===== src/Replay/Source.antt =====
-- The historical source of src/ai_trading_team/replay/source.py: what a decision may read and what its
-- outcome may read. The digest of a dataset is a parameter.
pub mod Apart
use my_team_tradding.Outcomes.{Candle, Timeframe, same_timeframe}
use my_team_tradding.Prelude.{
  Bool, List, Option, String, [], drop, filter, if◌then◌else◌, is_empty, leb, length, ltb, none,
  some, str_eq, take, ℕ, ◌&&◌, ◌+◌, ◌-◌, ◌==◌, ◌||◌, ◌∷◌,
}
use my_team_tradding.Prelude.Result.{Result, err, ok, ◌>>=◌}
use my_team_tradding.Replay.Clock.{
  DatasetPartition, ReplayError, ReplayErrorCategory, dataset_digest_mismatch, invalid_dataset,
  invalid_horizon, invalid_outcome_data, invalid_replay_clock, missing_as_of_observation,
  partition_violation,
}
use my_team_tradding.Time.{Datetime, normalize_utc}

pub record HistoricalSnapshotObservations : Type 0 where
  pub observation_id : String
  pub symbol : String
  pub effective_at : ℕ

pub record HistoricalDataset : Type 0 where
  pub dataset_digest : String
  -- `metadata.partitions`
  pub partitions : List DatasetPartition
  pub candles : List Candle
  pub snapshot_observations : List HistoricalSnapshotObservations

pub record FrozenReplayDecision : Type 0 where
  pub symbol : String
  pub decision_cutoff : ℕ

pub record OutcomeHorizon : Type 0 where
  pub max_bars : Option ℕ
  pub max_elapsed : Option ℕ

pub record DecisionView : Type 0 where
  pub dataset : HistoricalDataset
  pub partition : DatasetPartition
  pub cutoff : ℕ

pub record OutcomeView : Type 0 where
  pub dataset_digest : String
  pub partition : DatasetPartition
  pub cutoff : ℕ
  pub timeframe : Timeframe
  pub candles : List Candle

abbrev pub replay_error {ℓ} : {A : Type ℓ} → ReplayErrorCategory → String → Result ReplayError A
replay_error category message = err (record { category = category; message = message })

unfoldable pub make_source :
    (HistoricalDataset → String) → HistoricalDataset → Result ReplayError HistoricalDataset
make_source digest dataset =
    if str_eq (digest dataset) dataset.dataset_digest
    then ok dataset
    else replay_error dataset_digest_mismatch
        "historical dataset digest does not match canonical contents"

unfoldable pub find_partition : String → List DatasetPartition → Result ReplayError DatasetPartition
find_partition id [] =
    replay_error partition_violation "requested partition is not declared by the dataset"
find_partition id (partition ∷ rest) =
    let elsewhere = find_partition id rest in
    if str_eq partition.partition_id id then ok partition else elsewhere

abbrev pub is_out_of_range : DatasetPartition → ℕ → Bool
is_out_of_range partition moment =
    ltb moment partition.evaluation_start || leb partition.evaluation_end moment

unfoldable pub decision_view :
    HistoricalDataset → String → Datetime → Result ReplayError DecisionView
unfolding normalize_utc find_partition
decision_view dataset partition_id cutoff =
    normalize_utc
      (record { category = invalid_replay_clock; message = "replay cutoff must be timezone-aware" })
      cutoff
    >>= λ moment. find_partition partition_id dataset.partitions >>= λ partition.
        if is_out_of_range partition moment
        then replay_error partition_violation
            "decision cutoff is outside the partition evaluation range"
        else ok (record { dataset = dataset; partition = partition; cutoff = moment })

-- `candles[-count:]`
abbrev pub last_candles : ℕ → List Candle → List Candle
last_candles count candles = drop (length candles - count) candles

abbrev pub is_visible : DecisionView → String → Timeframe → Candle → Bool
is_visible view symbol timeframe candle =
    str_eq candle.symbol symbol
    && (same_timeframe candle.timeframe timeframe
        && (leb view.partition.context_start candle.open_time && leb candle.close_time view.cutoff))

unfoldable pub completed_candles :
    DecisionView → String → Timeframe → ℕ → Result ReplayError (List Candle)
completed_candles view symbol timeframe count =
    if count == 0 || ltb 5000 count
    then replay_error invalid_dataset "decision candle count must be between 1 and 5000"
    else ok (last_candles count (filter (is_visible view symbol timeframe) view.dataset.candles))

abbrev pub last_observation :
    List HistoricalSnapshotObservations → Result ReplayError HistoricalSnapshotObservations
last_observation [] =
    replay_error missing_as_of_observation "snapshot-capable as-of observations are unavailable"
last_observation (item ∷ []) = ok item
last_observation (item ∷ (next ∷ rest)) = last_observation (next ∷ rest)

unfoldable pub snapshot_observations :
    DecisionView → String → Result ReplayError HistoricalSnapshotObservations
snapshot_observations view symbol = last_observation (
    filter
      (λ item.
        str_eq item.symbol symbol
        && (leb view.partition.context_start item.effective_at
            && leb item.effective_at view.cutoff))
      view.dataset.snapshot_observations)

abbrev pub is_future : FrozenReplayDecision → DatasetPartition → Timeframe → Candle → Bool
is_future frozen partition timeframe candle =
    str_eq candle.symbol frozen.symbol
    && (same_timeframe candle.timeframe timeframe
        && (leb frozen.decision_cutoff candle.open_time
            && (ltb frozen.decision_cutoff candle.close_time
                && leb candle.close_time partition.evaluation_end)))

-- `candidates` within the horizon
abbrev pub within_elapsed :
    FrozenReplayDecision
    → DatasetPartition
    → List Candle
    → Option ℕ
    → Result ReplayError (List Candle)
within_elapsed frozen partition candidates none =
    replay_error invalid_horizon "finite horizon missing"
within_elapsed frozen partition candidates (some elapsed) = ok (
    filter
      (λ candle.
        leb candle.close_time (frozen.decision_cutoff + elapsed)
        && leb candle.close_time partition.evaluation_end)
      candidates)

abbrev pub within_bars :
    FrozenReplayDecision
    → DatasetPartition
    → List Candle
    → OutcomeHorizon
    → Option ℕ
    → Result ReplayError (List Candle)
within_bars frozen partition candidates horizon none =
    within_elapsed frozen partition candidates horizon.max_elapsed
within_bars frozen partition candidates horizon (some bars) = ok (take bars candidates)

unfoldable pub outcome_view :
    HistoricalDataset
    → FrozenReplayDecision
    → String
    → Timeframe
    → OutcomeHorizon
    → Result ReplayError OutcomeView
unfolding find_partition
outcome_view dataset frozen partition_id timeframe horizon =
    find_partition partition_id dataset.partitions >>= λ partition.
    if is_out_of_range partition frozen.decision_cutoff
    then replay_error partition_violation
        "frozen decision cutoff is outside the partition evaluation range"
    else (within_bars frozen partition
          (filter (is_future frozen partition timeframe) dataset.candles) horizon horizon.max_bars
        >>= λ selected.
            if is_empty selected
            then replay_error invalid_outcome_data
                "no completed post-decision candles exist inside the finite horizon"
            else ok (record {
              dataset_digest = dataset.dataset_digest;
              partition = partition;
              cutoff = frozen.decision_cutoff;
              timeframe = timeframe;
              candles = selected;
            }))
