-- ===== src/Orchestration/Examples.antt =====
-- A trend analyst that is absent while the two others succeeded, and the first round of a debate.
use my_team_tradding.Orchestration.Debate.{can_start_round, exceeds_limit, validate_challenge}
use my_team_tradding.Orchestration.Debate.Rounds.{validate_challenge_iff}
use my_team_tradding.Orchestration.Failures.{
  FailureDisposition, continue_degraded, hold, resolve, resolve_absence, resolve_category, stale,
  stale_snapshot, stale_snapshot_disposition, timeout, trend_analyst, value_error,
}
use my_team_tradding.Orchestration.Failures.Degraded.{IsTolerable, resolve_exact}
use my_team_tradding.Prelude.{none, refl, some, true, ◌↔◌, ◌≡◌, ◌⊎◌}
use my_team_tradding.Prelude.Int.{eqb_ℤ, leb_ℤ, ltb_ℤ, pos, ◌+ℤ◌, ◌<ℤ◌, ◌≤ℤ◌}
use my_team_tradding.Prelude.Result.{err, ok}

resolve_exact_example :
    ((pos 0 ≤ℤ pos 2) × (pos 2 ≤ℤ pos 3)
      → (x : FailureDisposition) × (resolve timeout (some trend_analyst) (pos 2) ≡ ok x)
        × ((x ≡ continue_degraded) ↔ IsTolerable timeout (some trend_analyst) (pos 2)))
    × (((pos 2 <ℤ pos 0) ⊎ (pos 3 <ℤ pos 2))
        → resolve timeout (some trend_analyst) (pos 2) ≡ err value_error)
resolve_exact_example = resolve_exact timeout (some trend_analyst) (pos 2)

absent_analyst : resolve timeout (some trend_analyst) (pos 2) ≡ ok continue_degraded
unfolding resolve resolve_category resolve_absence ltb_ℤ leb_ℤ
absent_analyst = refl

absent_analysts : resolve timeout (some trend_analyst) (pos 1) ≡ ok hold
unfolding resolve resolve_category resolve_absence ltb_ℤ leb_ℤ
absent_analysts = refl

validate_challenge_iff_example :
    (validate_challenge 1 1 (pos 0) ≡ ok tt)
    ↔ ((can_start_round 1 (pos 0) ≡ ok true) × (pos 1 ≡ pos 0 +ℤ pos 1))
validate_challenge_iff_example = validate_challenge_iff 1 1 (pos 0)

first_round : validate_challenge 1 1 (pos 0) ≡ ok tt
unfolding validate_challenge ltb_ℤ leb_ℤ eqb_ℤ ◌+ℤ◌
first_round = refl

second_round : validate_challenge 1 2 (pos 1) ≡ err exceeds_limit
unfolding validate_challenge ltb_ℤ leb_ℤ eqb_ℤ ◌+ℤ◌
second_round = refl

-- A stale snapshot is held, as a stale-snapshot failure is.
stale_is_held :
    stale_snapshot_disposition stale ≡ some hold × (resolve stale_snapshot none (pos 0) ≡ ok hold)
unfolding stale_snapshot_disposition resolve resolve_category ltb_ℤ
stale_is_held = (refl, refl)
