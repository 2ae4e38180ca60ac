-- ===== src/Replay/Clock.antt =====
-- `ReplayClock` of src/ai_trading_team/replay/clock.py. A clock is made by `__post_init__`, which
-- raises or replaces the schedule by its instants in UTC.
pub mod Exact
use my_team_tradding.Budget.Ledger.{values}
use my_team_tradding.Execution.Records.{instant}
use my_team_tradding.Prelude.{
  Bool, List, String, [], any, false, if◌then◌else◌, is_empty, leb, ltb, not, true, ℕ, ◌&&◌, ◌==◌,
  ◌||◌, ◌∷◌,
}
use my_team_tradding.Prelude.Result.{Result, err, ok, ◌>>=◌}
use my_team_tradding.Time.{Datetime, normalize_utc}

pub data ReplayErrorCategory : Type 0 where
  invalid_dataset dataset_digest_mismatch partition_violation : ReplayErrorCategory
  invalid_replay_clock future_data_access missing_as_of_observation : ReplayErrorCategory
  snapshot_reproduction_failure feature_reproduction_failure : ReplayErrorCategory
  decision_not_frozen invalid_proposal invalid_risk_linkage : ReplayErrorCategory
  invalid_outcome_data invalid_horizon duplicate_replay_record : ReplayErrorCategory
  persistence_failure : ReplayErrorCategory

-- `ReplayError`
pub record ReplayError : Type 0 where
  pub category : ReplayErrorCategory
  pub message : String

pub record DatasetPartition : Type 0 where
  pub partition_id : String
  pub context_start : ℕ
  pub evaluation_start : ℕ
  pub evaluation_end : ℕ

pub record ReplayClock : Type 0 where
  pub schedule : List ℕ
  pub partition : DatasetPartition

-- The loop over the schedule: it stops at the first naive timestamp.
unfoldable pub normalize_schedule : List Datetime → Result ReplayError (List ℕ)
unfolding normalize_utc
normalize_schedule [] = ok []
normalize_schedule (value ∷ rest) =
    normalize_utc
      (record {
        category = invalid_replay_clock;
        message = "replay schedule timestamps must be timezone-aware";
      })
      value
    >>= λ instant. normalize_schedule rest >>= λ instants. ok (instant ∷ instants)

-- `sorted(set(values))`: the distinct values in ascending order.
unfoldable pub insert_new : ℕ → List ℕ → List ℕ
insert_new x [] = x ∷ []
insert_new x (y ∷ ys) =
    let rest = insert_new x ys in
    if ltb x y then x ∷ (y ∷ ys) else if x == y then y ∷ ys else y ∷ rest

unfoldable pub sorted_set : List ℕ → List ℕ
unfolding insert_new
sorted_set [] = []
sorted_set (x ∷ xs) = insert_new x (sorted_set xs)

abbrev pub same_values : List ℕ → List ℕ → Bool
same_values [] [] = true
same_values [] (y ∷ ys) = false
same_values (x ∷ xs) [] = false
same_values (x ∷ xs) (y ∷ ys) = x == y && same_values xs ys

abbrev pub is_outside : DatasetPartition → ℕ → Bool
is_outside partition value =
    ltb value partition.evaluation_start || leb partition.evaluation_end value

unfoldable pub check_values : DatasetPartition → List ℕ → Result ReplayError ReplayClock
unfolding sorted_set
check_values partition values =
    if is_empty values || not (same_values (sorted_set values) values)
    then err (record {
      category = invalid_replay_clock;
      message = "replay schedule must be non-empty, unique, and strictly increasing";
    })
    else if any (is_outside partition) values
    then err (record {
      category = partition_violation;
      message = "replay schedule must remain inside the partition evaluation range";
    })
    else ok (record { schedule = values; partition = partition })

unfoldable pub make_clock : List Datetime → DatasetPartition → Result ReplayError ReplayClock
unfolding normalize_schedule check_values
make_clock schedule partition =
    normalize_schedule schedule >>= λ values. check_values partition values
