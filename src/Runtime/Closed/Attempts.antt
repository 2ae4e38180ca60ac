-- ===== src/Runtime/Closed/Attempts.antt =====
-- The attempts of `RuntimeRouter.invoke`: what the loop leaves in the ledger.
use my_team_tradding.Budget.Guard.{reserve}
use my_team_tradding.Budget.Guard.Reserve.{reserve-IsWithinCall}
use my_team_tradding.Budget.Ledger.{
  Key, Ledger, mark_dispatched, mark_uncertain, release_undispatched_attempt,
}
use my_team_tradding.Budget.Ledger.Steps.{Moves, Wrote}
use my_team_tradding.Budget.Types.{
  BudgetFault, BudgetReservation, BudgetReservationState, dispatched, invocation_error, key_error,
  released, reserved, uncertain, value_error,
}
use my_team_tradding.Execution.Lifecycle.{updated}
use my_team_tradding.Prelude.{
  Bool, Option, ap, arith, false, none, refl, some, subst, suc, sym, true, ℕ, ◌≡◌, ◌≤◌,
}
use my_team_tradding.Prelude.Result.{Result, err, ok}
use my_team_tradding.Runtime.Closed.{
  Closed, Elsewhere, Pending, closes_with, get-put_self, is_final, moves_on, opens, put-Elsewhere,
}
use my_team_tradding.Runtime.Closed.Posts.{>>=-Post, Post, transition-Post, utc_now-Post}
use my_team_tradding.Runtime.Router.{
  Session, Settings, Surroundings, answers, attempts_once, begins, closes, concludes, crash_error,
  fails, ledger_call, ledger_outcome, timeout_error, updates, utc_now,
}
use my_team_tradding.Runtime.Types.{
  AgentInvocationRequest, ModelProviderAdapter, ProviderError, ProviderOutcome, ProviderResponse,
  TokenEstimate, crashed, refused, responded, timed_out,
}

module _ (invocation : AgentInvocationRequest) (origin : Ledger) (max : ℕ) where
  -- A known rejection may be raised here: every attempt is over.
  abbrev pub Rests : Session → Type 0
  Rests w = Closed invocation.invocation_id origin w.ledger w.attempts × (w.attempts ≤ max)

  -- Before an attempt, when `a` are over and none was answered.
  abbrev pub Ready : ℕ → Session → Type 0
  Ready a w =
      (w.provider_response ≡ none)
      × (Closed invocation.invocation_id origin w.ledger a × ((w.attempts ≡ a) × (a ≤ max)))

  -- During the attempt `a`.
  abbrev pub Running : ℕ → Session → Type 0
  Running a w =
      (w.provider_response ≡ none)
      × (Pending invocation.invocation_id origin w.ledger a
          × ((w.attempts ≡ a) × ((1 ≤ a) × (a ≤ max))))

  -- Behind the loop: the last attempt waits to be paid where it was answered.
  abbrev pub Left : Option ProviderResponse → Ledger → ℕ → Type 0
  Left none l a = Closed invocation.invocation_id origin l a × (a ≤ max)
  Left (some response) l a = Pending invocation.invocation_id origin l a × ((1 ≤ a) × (a ≤ max))

  abbrev pub Leaves : Session → Type 0
  Leaves w = Left w.provider_response w.ledger w.attempts

  -- What an attempt leaves: over without an answer, or answered.
  abbrev pub Tried : ℕ → Option ProviderError → Session → Type 0
  Tried a none w = Leaves w
  Tried a (some failure) w = Ready a w

  pub Ready-Rests : (a : ℕ) (w : Session) → Ready a w → Rests w
  Ready-Rests a w (silent, (x, (same, top))) =
      (subst (Closed invocation.invocation_id origin w.ledger) (sym same) x, omega (arith, same))

  pub Ready-Leaves : (a : ℕ) (w : Session) → Ready a w → Leaves w
  Ready-Leaves a w (silent, (x, (same, top))) =
      subst (λ o. Left o w.ledger w.attempts) (sym silent)
        (Ready-Rests a w (silent, (x, (same, top))))

  Running-Leaves :
      (a : ℕ) (w : Session) (response : ProviderResponse)
      → Running a w
      → Left (some response) w.ledger w.attempts
  Running-Leaves a w response (silent, (x, (same, (low_end, top)))) = (
    subst (Pending invocation.invocation_id origin w.ledger) (sym same) x,
    (omega (arith, same), omega (arith, same)),
  )

  Wrote-Elsewhere :
      (k : Key) (l l' : Ledger) (Changed : BudgetReservation → BudgetReservation → Type 0)
      → Wrote k Changed l l'
      → Elsewhere k l l'
  Wrote-Elsewhere k l l' Changed (current, updated, found, changed, written) =
      subst (Elsewhere k l) (sym written) (put-Elsewhere k updated l)

  -- A write of the attempt under way that puts it into a final state ends it.
  pub ends :
      (a : ℕ) (l l' : Ledger) (Changed : BudgetReservation → BudgetReservation → Type 0)
      → ((r v : BudgetReservation) → Changed r v → is_final v.state ≡ true)
      → Pending invocation.invocation_id origin l a
      → 1 ≤ a
      → Wrote (invocation.invocation_id, a) Changed l l'
      → Closed invocation.invocation_id origin l' a
  ends a l l' Changed final x low_end (current, updated, found, changed, written) =
      closes_with invocation.invocation_id origin l l' a x low_end
        (Wrote-Elsewhere (invocation.invocation_id, a) l l' Changed
          (current, updated, found, changed, written))
        (
          updated,
          cc (get-put_self (invocation.invocation_id, a) updated l, written),
          final current updated changed,
        )

  pub Moves-final :
      (from to : BudgetReservationState) (at : ℕ)
      → is_final to ≡ true
      → (r v : BudgetReservation) → Moves from to at r v
      → is_final v.state ≡ true
  Moves-final from to at h r v m = rw (m.after) h

  module _ (s : Surroundings) (g : Settings) (adapter : ModelProviderAdapter)
      (estimate : TokenEstimate) (started_monotonic : ℕ) where
    closes-Post :
        (dispatch_occurred : Bool) (a at : ℕ) (w : Session)
        → Running a w
        → Post
            (λ r w'. Ready a w')
            Rests
            (closes s g invocation adapter estimate started_monotonic dispatch_occurred a at w)
    unfolding closes mark_uncertain release_undispatched_attempt
    closes-Post true a at w (silent, (x, (same, (low_end, top)))) =
        transition-Post (λ r w'. Ready a w') Rests (invocation.invocation_id, a) dispatched
          uncertain at w
          (λ r l' wrote. (
            silent,
            (
              ends a w.ledger l' _ (Moves-final dispatched uncertain at refl) x low_end wrote,
              (same, top),
            ),
          ))
    closes-Post false a at w (silent, (x, (same, (low_end, top)))) =
        transition-Post (λ r w'. Ready a w') Rests (invocation.invocation_id, a) dispatched released
          at w
          (λ r l' wrote. (
            silent,
            (
              ends a w.ledger l' _ (Moves-final dispatched released at refl) x low_end wrote,
              (same, top),
            ),
          ))

    fails-Post :
        (a : ℕ) (failure : ProviderError) (w : Session)
        → Running a w
        → Post (Tried a) Rests (fails s g invocation adapter estimate started_monotonic a failure w)
    fails-Post a failure w running =
        >>=-Post (λ at. Running a) (Tried a) Rests (utc_now s) _ w
          (utc_now-Post s (Running a) Rests w running)
          (λ at w1 running1.
            >>=-Post (λ r. Ready a) (Tried a) Rests _ _ w1
              (closes-Post failure.dispatch_occurred a at w1 running1)
              (λ r w2 ready.
                >>=-Post (λ done. Ready a) (Tried a) Rests (updates r) _ w2 ready
                  (λ done w3 ready3. ready3)))

    concludes-Post :
        (a : ℕ) (outcome : ProviderOutcome) (w : Session)
        → Running a w
        → Post
            (Tried a)
            Rests
            (concludes s g invocation adapter estimate started_monotonic a outcome w)
    unfolding concludes
    concludes-Post a (responded response) w running =
        >>=-Post (λ done. Leaves) (Tried a) Rests (answers response) _ w
          (Running-Leaves a w response running) (λ done w1 left. left)
    concludes-Post a (refused failure) w running = fails-Post a failure w running
    concludes-Post a timed_out w running =
        fails-Post a (timeout_error "provider request timed out" true true) w running
    concludes-Post a crashed w running = fails-Post a crash_error w running

    -- The reservation of the next attempt: the ledger has one more item of this invocation.
    Reserved : ℕ → Session → Type 0
    Reserved a w =
        (w.provider_response ≡ none)
        × (Pending invocation.invocation_id origin w.ledger (suc a) × (suc a ≤ max))

    Reserved-by :
        (a at : ℕ) (w : Session) (o : Result BudgetFault (BudgetReservation × Ledger))
        → reserve s.context s.calendar invocation.invocation_id invocation.cycle_id g.runtime
            estimate.tokens g.budget_policy g.pricing at
            (suc a)
            w.ledger
          ≡ o
        → Ready a w
        → suc a ≤ max
        → Post (λ r. Reserved a) Rests (ledger_outcome w o)
    unfolding Reserved
    Reserved-by a at w (ok (r, l')) h (silent, (x, (same, top))) room =
        let (cost, call, shape, admitted) =
          reserve-IsWithinCall s.context g.runtime g.budget_policy g.pricing at s.calendar
            invocation.invocation_id invocation.cycle_id estimate.tokens (suc a) w.ledger l' r h in
        let own : (r.invocation_id, r.attempt_number) ≡ (invocation.invocation_id, suc a) =
          ap (λ v. (v.invocation_id, v.attempt_number)) shape in
        let elsewhere : Elsewhere (invocation.invocation_id, suc a) w.ledger l' =
          subst (λ k. Elsewhere k w.ledger l') own
            (subst (Elsewhere (r.invocation_id, r.attempt_number) w.ledger) (sym admitted.written)
              (put-Elsewhere (r.invocation_id, r.attempt_number) r w.ledger)) in
        (silent, (opens invocation.invocation_id origin w.ledger l' a x elsewhere, room))
    Reserved-by a at w (err (invocation_error category detail)) h ready room = Ready-Rests a w ready
    Reserved-by a at w (err value_error) h ready room = tt
    Reserved-by a at w (err key_error) h ready room = tt

    dispatched-Post :
        (a at : ℕ) (w : Session)
        → Running a w
        → Post
            (λ r. Running a)
            Rests
            (ledger_call (mark_dispatched (invocation.invocation_id, a) at) w)
    unfolding mark_dispatched
    dispatched-Post a at w (silent, (x, (same, (low_end, top)))) =
        transition-Post (λ r. Running a) Rests (invocation.invocation_id, a) reserved dispatched at
          w
          (λ r l' wrote. (
            silent,
            (
              moves_on invocation.invocation_id origin w.ledger l' a x low_end
                  (Wrote-Elsewhere (invocation.invocation_id, a) w.ledger l' _ wrote),
              (same, (low_end, top)),
            ),
          ))

    pub attempts_once-Post :
        (a : ℕ) (w : Session)
        → Ready a w
        → suc a ≤ max
        → Post
            (Tried (suc a))
            Rests
            (attempts_once s g invocation adapter estimate started_monotonic (suc a) w)
    unfolding attempts_once Reserved
    attempts_once-Post a w ready room =
        >>=-Post (λ at. Ready a) (Tried (suc a)) Rests (utc_now s) _ w
          (utc_now-Post s (Ready a) Rests w ready)
          (λ at w1 ready1.
            >>=-Post (λ r. Reserved a) (Tried (suc a)) Rests _ _ w1
              (Reserved-by a at w1 _ refl ready1 room)
              (λ r w2 held.
                >>=-Post (λ begun. Running (suc a)) (Tried (suc a)) Rests (begins (suc a) r) _ w2
                  (held.0, (held.1.0, (refl, (omega arith, room))))
                  (λ begun w3 running3.
                    >>=-Post (λ at'. Running (suc a)) (Tried (suc a)) Rests (utc_now s) _ w3
                      (utc_now-Post s (Running (suc a)) Rests w3 running3)
                      (λ at' w4 running4.
                        >>=-Post (λ r'. Running (suc a)) (Tried (suc a)) Rests _ _ w4
                          (dispatched-Post (suc a) at' w4 running4)
                          (λ r' w5 running5.
                            >>=-Post (λ done. Running (suc a)) (Tried (suc a)) Rests (updates r') _
                              w5 running5
                              (λ done w6 running6.
                                concludes-Post (suc a) (adapter.invoke (suc a)) w6 running6))))))
