-- ===== src/Replay/Examples.antt =====
-- A schedule of two decisions, and the theorem on replay clocks at it.
pub mod Source
use my_team_tradding.Prelude.{[], refl, ◌↔◌, ◌∷◌, ◌≡◌}
use my_team_tradding.Prelude.Result.{err, ok}
use my_team_tradding.Replay.Clock.{
  DatasetPartition, check_values, insert_new, invalid_replay_clock, make_clock, normalize_schedule,
  sorted_set,
}
use my_team_tradding.Replay.Clock.Exact.{IsSchedule, make_clock_iff}
use my_team_tradding.Time.{aware, normalize_utc}

abbrev pub range : DatasetPartition
range = record {
  partition_id = "test";
  context_start = 0;
  evaluation_start = 10;
  evaluation_end = 40;
}

make_clock_iff_example :
    (make_clock (aware 10 ∷ aware 25 ∷ []) range
      ≡ ok (record { schedule = 10 ∷ 25 ∷ []; partition = range }))
    ↔ IsSchedule (aware 10 ∷ aware 25 ∷ []) range (10 ∷ 25 ∷ [])
make_clock_iff_example = make_clock_iff (aware 10 ∷ aware 25 ∷ []) range (10 ∷ 25 ∷ [])

two_decisions :
    make_clock (aware 10 ∷ aware 25 ∷ []) range
    ≡ ok (record { schedule = 10 ∷ 25 ∷ []; partition = range })
unfolding make_clock normalize_schedule check_values sorted_set insert_new normalize_utc
two_decisions = refl

twice_the_same :
    make_clock (aware 25 ∷ aware 25 ∷ []) range
    ≡ err (record {
      category = invalid_replay_clock;
      message = "replay schedule must be non-empty, unique, and strictly increasing";
    })
unfolding make_clock normalize_schedule check_values sorted_set insert_new normalize_utc
twice_the_same = refl
