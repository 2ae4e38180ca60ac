-- ===== src/Orchestration/Debate/Rounds.antt =====
-- The two questions of the debate policy compared.
use my_team_tradding.Orchestration.Debate.{can_start_round, validate_challenge}
use my_team_tradding.Prelude.{arith, true, ℕ, ◌↔◌, ◌≡◌}
use my_team_tradding.Prelude.Int.{eqb_ℤ, leb_ℤ, ltb_ℤ, negsuc, pos, ℤ, ◌+ℤ◌}
use my_team_tradding.Prelude.Result.{ok}

-- A challenge is valid exactly when another round may start and the challenge is of that round.
pub validate_challenge_iff :
    (max_rounds round_number : ℕ) (completed_rounds : ℤ)
    → (validate_challenge max_rounds round_number completed_rounds ≡ ok tt) ↔ (
        (can_start_round max_rounds completed_rounds ≡ ok true)
        × (pos round_number ≡ completed_rounds +ℤ pos 1))
unfolding validate_challenge can_start_round ltb_ℤ eqb_ℤ leb_ℤ ◌+ℤ◌
validate_challenge_iff max_rounds round_number (pos k) = (λ h. ground arith, λ h. ground arith)
validate_challenge_iff max_rounds round_number (negsuc k) = (λ h. ground arith, λ h. ground arith)
