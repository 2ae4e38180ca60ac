-- ===== src/Runtime/Closed/Invocations.antt =====
-- An invocation of the router: what `invoke` leaves in the ledger.
use my_team_tradding.Budget.Ledger.{Ledger, mark_uncertain}
use my_team_tradding.Budget.Ledger.Steps.{Wrote}
use my_team_tradding.Budget.Types.{
  BudgetFault, BudgetReservation, dispatched, invocation_error, key_error, uncertain, value_error,
}
use my_team_tradding.Decimal.{Decimal}
use my_team_tradding.Prelude.{
  Bool, Option, arith, false, if◌then◌else◌, ltb, none, refl, some, subst, suc, sym, true, zero, ℕ,
  ◌&&◌, ◌+◌, ◌≡◌, ◌≤◌,
}
use my_team_tradding.Prelude.Result.{Result, err, ok}
use my_team_tradding.Prelude.State.{returns, ◌>>=◌}
use my_team_tradding.Runtime.Closed.{Closed, Pending, is_final, start-Closed}
use my_team_tradding.Runtime.Closed.Attempts.{
  Leaves, Left, Moves-final, Ready, Ready-Leaves, Ready-Rests, Rests, Tried, attempts_once-Post,
  ends,
}
use my_team_tradding.Runtime.Closed.Posts.{
  >>=-Post, Post, lifts-Post, settle-Post, transition-Post, utc_now-Post,
}
use my_team_tradding.Runtime.Invoke.{
  caught, completes, enveloped, handles, invoke, invoke_from, new_session, parses, pays, produces,
  telemetry, trace, tries_to_invoke,
}
use my_team_tradding.Runtime.Router.{
  Routine, Session, Settings, Surroundings, again, is_over, monotonic, reported_cost, retry_allowed,
  tries, updates, utc_now,
}
use my_team_tradding.Runtime.Telemetry.{counted, failure_record}
use my_team_tradding.Runtime.Types.{
  AgentInvocationRequest, AgentInvocationResult, InvocationTelemetry, InvocationTrace,
  ModelProviderAdapter, ProviderError, ProviderResponse, TokenEstimate,
}

module _ (s : Surroundings) (g : Settings) (invocation : AgentInvocationRequest)
    (origin : Ledger) where
  abbrev Rested : Session → Type 0
  Rested w = Rests invocation origin g.retry_policy.max_attempts w

  abbrev Behind : Session → Type 0
  Behind w = Leaves invocation origin g.retry_policy.max_attempts w

  module _ (adapter : ModelProviderAdapter) (estimate : TokenEstimate) (started_monotonic : ℕ) where
    abbrev Loop : ℕ → ℕ → Routine (Option ProviderError)
    Loop n attempt = tries s g invocation adapter estimate started_monotonic n attempt

    branch :
        (test : Bool) (m n : Routine (Option ProviderError)) (w : Session)
        → Post (λ e. Behind) Rested (m w)
        → Post (λ e. Behind) Rested (n w)
        → Post (λ e. Behind) Rested ((if test then m else n) w)
    branch true m n w one other = one
    branch false m n w one other = other

    again-Post :
        (a : ℕ) (rest : Routine (Option ProviderError)) (e : Option ProviderError) (w : Session)
        → Tried invocation origin g.retry_policy.max_attempts a e w
        → (Ready invocation origin g.retry_policy.max_attempts a w
            → Post (λ e'. Behind) Rested (rest w))
        → Post
            (λ e'. Behind)
            Rested
            (again s g invocation adapter estimate started_monotonic a rest e w)
    again-Post a rest none w tried more = tried
    again-Post a rest (some failure) w tried more =
        branch (retry_allowed failure g.retry_policy && ltb a g.retry_policy.max_attempts) rest
          (returns (some failure)) w (more tried)
          (Ready-Leaves invocation origin g.retry_policy.max_attempts a w tried)

    tries-Post :
        (n a : ℕ) (w : Session)
        → Ready invocation origin g.retry_policy.max_attempts a w
        → a + n ≡ g.retry_policy.max_attempts
        → Post (λ e. Behind) Rested (Loop n (suc a) w)
    unfolding tries
    tries-Post zero a w ready room =
        Ready-Leaves invocation origin g.retry_policy.max_attempts a w ready
    tries-Post (suc n) a w ready room =
        >>=-Post (λ moment. Ready invocation origin g.retry_policy.max_attempts a) (λ e. Behind)
          Rested (monotonic s) _ w ready
          (λ moment w1 ready1.
            branch (is_over s g invocation adapter estimate started_monotonic moment) _ _ w1
              (Ready-Leaves invocation origin g.retry_policy.max_attempts a w1 ready1)
              (>>=-Post (Tried invocation origin g.retry_policy.max_attempts (suc a)) (λ e. Behind)
                Rested _ _ w1
                (attempts_once-Post invocation origin g.retry_policy.max_attempts s g adapter
                  estimate started_monotonic a w1 ready1 (omega (arith, room)))
                (λ e w2 tried.
                  again-Post (suc a) (Loop n (suc (suc a))) e w2 tried
                    (λ ready2. tries-Post n (suc a) w2 ready2 (omega (arith, room))))))

  module _ (started_at started_monotonic : ℕ) where
    -- A result whose attempts are those of the session.
    abbrev Counted : InvocationTrace → Session → Type 0
    Counted t w = (t.attempts ≡ w.attempts) × Rested w

    abbrev Returned : AgentInvocationResult → Session → Type 0
    Returned result w = Counted result.trace w

    built_by :
        (early : Bool) (t : InvocationTrace) (w : Session)
        → t.attempts ≡ w.attempts
        → Rested w
        → Post Counted Rested ((if early then err value_error else ok t), w)
    built_by true t w same rested = tt
    built_by false t w same rested = (same, rested)

    trace-Post :
        (completed_at : ℕ) (w : Session)
        → Rested w
        → Post Counted Rested (trace started_at completed_at w)
    trace-Post completed_at w rested = built_by (ltb completed_at started_at) _ w refl rested

    telemetry-Post :
        (t : InvocationTrace) (w : Session)
        → Counted t w
        → Post (λ m. Counted t) Rested (telemetry s g started_monotonic w)
    unfolding telemetry
    telemetry-Post t w counted =
        >>=-Post (λ moment. Counted t) (λ m. Counted t) Rested (monotonic s) _ w counted
          (λ moment w1 counted1. lifts-Post (Counted t) Rested _ w1 counted1 counted1.1)

    -- The end of a result, behind its trace.
    traced-Post :
        (t : InvocationTrace) (f : InvocationTelemetry → AgentInvocationResult) (w : Session)
        → ((m : InvocationTelemetry) → (f m).trace ≡ t)
        → Counted t w
        → Post Returned Rested ((telemetry s g started_monotonic >>= λ m. returns (f m)) w)
    traced-Post t f w same counted =
        >>=-Post (λ m. Counted t) Returned Rested (telemetry s g started_monotonic) _ w
          (telemetry-Post t w counted)
          (λ m w1 counted1. subst (λ u. Counted u w1) (sym (same m)) counted1)

    produces-Post :
        (response : ProviderResponse) (warned : Bool) (w : Session)
        → Rested w
        → Post Returned Rested
            (produces s g invocation started_at started_monotonic response warned w)
    produces-Post response warned w rested =
        >>=-Post (λ fitting. Rested) Returned Rested _ _ w
          (lifts-Post Rested Rested (enveloped (s.parsing.fits_envelope invocation response)) w
            rested rested)
          (λ fitting w1 rested1.
            >>=-Post (λ at. Rested) Returned Rested (utc_now s) _ w1
              (utc_now-Post s Rested Rested w1 rested1)
              (λ completed_at w2 rested2.
                >>=-Post Counted Returned Rested (trace started_at completed_at) _ w2
                  (trace-Post completed_at w2 rested2)
                  (λ t w3 counted. traced-Post t _ w3 (λ m. refl) counted)))

    parses-Post :
        (response : ProviderResponse) (body : Option Bool) (w : Session)
        → Rested w
        → Post Returned Rested (parses s g invocation started_at started_monotonic response body w)
    parses-Post response none w rested = rested
    parses-Post response (some warned) w rested = produces-Post response warned w rested

    -- The last attempt, which was answered, is `a`.
    abbrev Answered : ℕ → Session → Type 0
    Answered a w =
        (w.attempts ≡ a)
        × (Pending invocation.invocation_id origin w.ledger a
            × ((1 ≤ a) × (a ≤ g.retry_policy.max_attempts)))

    paid_with :
        (a : ℕ) (w : Session) (l' : Ledger)
        (Changed : BudgetReservation → BudgetReservation → Type 0)
        → ((r v : BudgetReservation) → Changed r v → is_final v.state ≡ true)
        → Answered a w
        → Wrote (invocation.invocation_id, a) Changed w.ledger l'
        → Rested (record w { ledger = l' })
    paid_with a w l' Changed final (same, (x, (low_end, top))) wrote = (
      subst (Closed invocation.invocation_id origin l') (sym same) (
          ends invocation origin g.retry_policy.max_attempts a w.ledger l' Changed final x low_end
            wrote),
      omega (arith, same, top),
    )

    pays-Post :
        (cost : Option Decimal) (a at : ℕ) (w : Session)
        → Answered a w
        → Post (λ r. Rested) Rested (pays s g invocation started_at started_monotonic cost a at w)
    unfolding pays mark_uncertain
    pays-Post none a at w answered =
        transition-Post (λ r. Rested) Rested (invocation.invocation_id, a) dispatched uncertain at w
          (λ r l' wrote.
            paid_with a w l' _
              (Moves-final invocation origin g.retry_policy.max_attempts dispatched uncertain at
                refl)
              answered wrote)
    pays-Post (some cost) a at w answered =
        settle-Post (λ r. Rested) Rested (invocation.invocation_id, a) cost at w
          (λ r l' wrote. paid_with a w l' _ (λ u v m. rw (m.after) refl) answered wrote)

    Answered-Post :
        (response : ProviderResponse) (a : ℕ) (w : Session)
        → Answered a w
        → Post Returned Rested
            (completes s g invocation started_at started_monotonic none (some response) a w)
    unfolding completes
    Answered-Post response a w answered =
        >>=-Post (λ at. Answered a) Returned Rested (utc_now s) _ w
          (utc_now-Post s (Answered a) Rested w answered)
          (λ at w1 answered1.
            >>=-Post (λ r. Rested) Returned Rested _ _ w1
              (pays-Post (reported_cost s.context response.usage g.pricing) a at w1 answered1)
              (λ r w2 rested.
                >>=-Post (λ done. Rested) Returned Rested (updates r) _ w2 rested
                  (λ done w3 rested3. parses-Post response _ w3 rested3)))

    completes-Post :
        (last_error : Option ProviderError) (answer : Option ProviderResponse) (w : Session)
        → Left invocation origin g.retry_policy.max_attempts answer w.ledger w.attempts
        → Post Returned Rested
            (completes s g invocation started_at started_monotonic last_error answer w.attempts w)
    unfolding completes
    completes-Post none none w left = tt
    completes-Post (some failure) none w left = left
    completes-Post none (some response) w left = Answered-Post response w.attempts w (refl, left)
    completes-Post (some failure) (some response) w left =
        Answered-Post response w.attempts w (refl, left)

    handles-Post :
        (fault : BudgetFault) (w : Session)
        → Rested w
        → Post Returned Rested (handles s g invocation started_at started_monotonic fault w)
    unfolding handles
    handles-Post (invocation_error category detail) w rested =
        >>=-Post (λ at. Rested) Returned Rested (utc_now s) _ w
          (utc_now-Post s Rested Rested w rested)
          (λ completed_at w1 rested1.
            >>=-Post Counted Returned Rested (trace started_at completed_at) _ w1
              (trace-Post completed_at w1 rested1)
              (λ t w2 counted.
                >>=-Post (λ failure. Counted t) Returned Rested _ _ w2
                  (lifts-Post (Counted t) Rested
                    (failure_record invocation.descriptor.role category detail completed_at) w2
                    counted counted.1)
                  (λ failure w3 counted3. traced-Post t _ w3 (λ m. refl) counted3)))
    handles-Post value_error w rested = tt
    handles-Post key_error w rested = tt

    -- Before the first attempt.
    abbrev Untried : Session → Type 0
    Untried w = Ready invocation origin g.retry_policy.max_attempts 0 w

    checks-Post :
        {A : Type 0} (r : Result BudgetFault A) (w : Session)
        → Untried w
        → Post (λ a. Untried) Rested (r, w)
    checks-Post r w untried =
        lifts-Post Untried Rested r w untried
          (Ready-Rests invocation origin g.retry_policy.max_attempts 0 w untried)

    unit_checks-Post :
        (r : Result BudgetFault (Unit {0})) (w : Session)
        → Untried w
        → Post (λ a. Untried) Rested (r, w)
    unit_checks-Post r w untried =
        lifts-Post Untried Rested r w untried
          (Ready-Rests invocation origin g.retry_policy.max_attempts 0 w untried)

    tries_to_invoke-Post :
        (w : Session)
        → Untried w
        → Post Returned Rested (tries_to_invoke s g invocation started_at started_monotonic w)
    unfolding tries_to_invoke
    tries_to_invoke-Post w untried =
        >>=-Post (λ same. Untried) Returned Rested _ _ w (unit_checks-Post _ w untried)
          (λ same w1 untried1.
            >>=-Post (λ prompt. Untried) Returned Rested _ _ w1 (checks-Post _ w1 untried1)
              (λ prompt w2 untried2.
                >>=-Post (λ adapter. Untried) Returned Rested _ _ w2 (checks-Post _ w2 untried2)
                  (λ adapter w3 untried3.
                    >>=-Post (λ prepared. Untried) Returned Rested _ _ w3
                      (unit_checks-Post adapter.prepare w3 untried3)
                      (λ prepared w4 untried4.
                        >>=-Post (λ estimate. Untried) Returned Rested _ _ w4
                          (checks-Post adapter.estimate_input_tokens w4 untried4)
                          (λ estimate w5 untried5.
                            >>=-Post (λ fits. Untried) Returned Rested _ _ w5
                              (unit_checks-Post _ w5 untried5)
                              (λ fits w6 untried6.
                                >>=-Post (λ e. Behind) Returned Rested _ _ w6
                                  (tries-Post adapter estimate started_monotonic
                                    g.retry_policy.max_attempts 0 w6 untried6 (omega arith))
                                  (λ e w7 left. completes-Post e w7.provider_response w7 left)))))))

    caught-Post :
        (o : Result BudgetFault AgentInvocationResult × Session)
        → Post Returned Rested o
        → Post Returned Rested (caught s g invocation started_at started_monotonic o)
    unfolding handles
    caught-Post (ok result, w) h = h
    caught-Post (err (invocation_error category detail), w) h =
        handles-Post (invocation_error category detail) w h
    caught-Post (err value_error, w) h = tt
    caught-Post (err key_error, w) h = tt

    invoke_from-Post :
        (w : Session)
        → Untried w
        → Post Returned Rested (invoke_from s g invocation started_at started_monotonic w)
    unfolding invoke_from
    invoke_from-Post w untried = caught-Post _ (tries_to_invoke-Post w untried)

  invoke-Post :
      (readings ticks : ℕ)
      → Post
          (λ result w. (result.trace.attempts ≡ w.attempts) × Rested w)
          Rested
          (invoke s g invocation origin readings ticks)
  unfolding invoke
  invoke-Post readings ticks =
      let begun : Ready invocation origin g.retry_policy.max_attempts 0
          (new_session origin readings ticks) =
        (refl, (start-Closed invocation.invocation_id origin, (refl, omega arith))) in
      >>=-Post (λ at. Ready invocation origin g.retry_policy.max_attempts 0) _ Rested (utc_now s) _
        _ (utc_now-Post s (Ready invocation origin g.retry_policy.max_attempts 0) Rested _ begun)
        (λ started_at w1 untried1.
          >>=-Post (λ moment. Ready invocation origin g.retry_policy.max_attempts 0) _ Rested
            (monotonic s) _ w1 untried1
            (λ started_monotonic w2 untried2.
              invoke_from-Post started_at started_monotonic w2 untried2))

  returned_by :
      (o : Result BudgetFault AgentInvocationResult × Session) (result : AgentInvocationResult)
      (w : Session)
      → o ≡ (ok result, w)
      → Post (λ result w. (result.trace.attempts ≡ w.attempts) × Rested w) Rested o
      → (result.trace.attempts ≡ w.attempts) × Rested w
  returned_by o result w h post =
      subst (Post (λ result w. (result.trace.attempts ≡ w.attempts) × Rested w) Rested) h post

  -- When an invocation returns its result, an output or a failure, every attempt that its trace counts
  -- stands in the ledger settled, released or uncertain, none is left reserved or dispatched; there are
  -- no more of them than the retry policy allows, and no other reservation has changed.
  pub invoke-IsClosed :
      (readings ticks : ℕ) (result : AgentInvocationResult) (w : Session)
      → invoke s g invocation origin readings ticks ≡ (ok result, w)
      → (result.trace.attempts ≤ g.retry_policy.max_attempts)
        × Closed invocation.invocation_id origin w.ledger result.trace.attempts
  invoke-IsClosed readings ticks result w h =
      let (same, (closed, top)) = returned_by _ result w h (invoke-Post readings ticks) in
      (
        omega (arith, same, top),
        subst (Closed invocation.invocation_id origin w.ledger) (sym same) closed,
      )
