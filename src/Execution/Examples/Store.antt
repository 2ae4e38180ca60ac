-- ===== src/Execution/Examples/Store.antt =====
-- A repository with one claimed record: its claim, its recovery, and a recovery whose clock lags behind.
use my_team_tradding.Execution.Examples.{intent, risk_decision}
use my_team_tradding.Execution.Lifecycle.{
  DemoExecutionState, all_pairs, build_execution, is_allowed, is_valid_history, is_valid_lifecycle,
}
use my_team_tradding.Execution.Store.{ExecutionFault, Repository, empty_repository}
use my_team_tradding.Execution.Store.Chronology.{recover_record-valid_iff}
use my_team_tradding.Execution.Store.Claims.{SharesIdentity, claim_roundtrip}
use my_team_tradding.Execution.Store.Records.{
  claim, claim_is_owned, claimed_record, get_by_source_digest, get_record, store_claim,
}
use my_team_tradding.Execution.Store.Recovered.{Agrees, recover_incomplete-Agrees}
use my_team_tradding.Execution.Store.Recovery.{
  abandoned, recover_as, recover_entries, recover_incomplete, recover_record,
}
use my_team_tradding.Execution.Types.{DemoOrderIntent, duplicate_execution_intent, failure_of}
use my_team_tradding.Prelude.{String, [], none, refl, some, true, ℕ, ◌↔◌, ◌∷◌, ◌≡◌, ◌≤◌}
use my_team_tradding.Prelude.Dict.{has, insert, lookup}
use my_team_tradding.Prelude.Result.{err, ok}
use my_team_tradding.Risk.Engine.{RiskDecision}

abbrev stored : Repository
stored = store_claim (claimed_record intent risk_decision "w1" 11) (empty_repository)

first_claim :
    claim intent risk_decision "w1" 11 empty_repository
    ≡ ok (claimed_record intent risk_decision "w1" 11, stored)
unfolding claim has lookup build_execution is_valid_lifecycle is_valid_history all_pairs is_allowed
first_claim = refl

claim_roundtrip_example :
    (get_record "e1" stored ≡ some (claimed_record intent risk_decision "w1" 11))
    × (get_by_source_digest "digest" stored ≡ some (claimed_record intent risk_decision "w1" 11))
    × (claim_is_owned "e1" "w1" stored ≡ true)
    × ((again : DemoOrderIntent) (decision : RiskDecision) (other : String) (at : ℕ)
        → SharesIdentity again intent
        → claim again decision other at stored
          ≡ err (
              ExecutionFault.execution_error (
                failure_of duplicate_execution_intent
                  "execution identity or source shadow intent was already claimed")))
claim_roundtrip_example =
    claim_roundtrip intent risk_decision "w1" 11 empty_repository stored
      (claimed_record intent risk_decision "w1" 11) first_claim

recovered_once :
    (recover_incomplete 20 stored).1
    ≡ ok (abandoned (claimed_record intent risk_decision "w1" 11) 20 ∷ [])
unfolding recover_incomplete recover_entries recover_record recover_as insert
recovered_once = refl

recover_incomplete-Agrees_example :
    Agrees (get_record "e1" stored) (get_record "e1" (recover_incomplete 20 stored).0)
recover_incomplete-Agrees_example =
    recover_incomplete-Agrees 20 stored
      (abandoned (claimed_record intent risk_decision "w1" 11) 20 ∷ []) "e1" recovered_once

-- A recovery at 4, before the claim at 11, writes a record that its schema refuses.
recover_record-valid_iff_example :
    (is_valid_lifecycle (abandoned (claimed_record intent risk_decision "w1" 11) 4) ≡ true)
    ↔ (11 ≤ 4)
unfolding is_valid_lifecycle is_valid_history all_pairs is_allowed recover_record recover_as
recover_record-valid_iff_example =
    recover_record-valid_iff (claimed_record intent risk_decision "w1" 11)
      (abandoned (claimed_record intent risk_decision "w1" 11) 4)
      (record {
        sequence = 1;
        state = DemoExecutionState.created;
        occurred_at = 10;
        failure = none;
      })
      (record { sequence = 2; state = DemoExecutionState.claimed; occurred_at = 11; failure = none }
        ∷ [])
      4 refl refl (λ p. cc) refl
