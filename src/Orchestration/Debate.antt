-- ===== src/Orchestration/Debate.antt =====
-- `DebatePolicy` of src/ai_trading_team/orchestration/debate.py. A challenge's round is a positive
-- number by its schema; the number of completed rounds is any integer.
pub mod Rounds
use my_team_tradding.Prelude.{Bool, if◌then◌else◌, ltb, not, ℕ}
use my_team_tradding.Prelude.Int.{eqb_ℤ, ltb_ℤ, pos, ℤ, ◌+ℤ◌}
use my_team_tradding.Prelude.Result.{Result, err, ok}

pub data DebateFault : Type 0 where
  negative_rounds exceeds_limit not_monotonic : DebateFault

unfoldable pub can_start_round : ℕ → ℤ → Result DebateFault Bool
can_start_round max_rounds completed_rounds =
    if ltb_ℤ completed_rounds (pos 0)
    then err negative_rounds
    else ok (ltb_ℤ completed_rounds (pos max_rounds))

unfoldable pub validate_challenge : ℕ → ℕ → ℤ → Result DebateFault (Unit {0})
validate_challenge max_rounds round_number completed_rounds =
    if ltb_ℤ completed_rounds (pos 0)
    then err negative_rounds
    else if ltb max_rounds round_number
    then err exceeds_limit
    else if not (eqb_ℤ (pos round_number) (completed_rounds +ℤ pos 1))
    then err not_monotonic
    else ok tt
