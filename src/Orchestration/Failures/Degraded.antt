-- ===== src/Orchestration/Failures/Degraded.antt =====
-- When a failure lets the cycle go on.
use my_team_tradding.Orchestration.Failures.{
  AgentFailureCategory, AgentRole, FailureDisposition, continue_degraded, invalid_output,
  invalid_snapshot, is_advisory, is_reviewer, is_stage_one, market_context,
  missing_required_upstream, performance_reviewer, price_action_analyst, quant_researcher, resolve,
  resolve_absence, resolve_category, schema_mismatch, senior_quant_developer, stale_snapshot,
  timeout, trend_analyst, unavailable_agent, unknown, value_error,
}
use my_team_tradding.Prelude.{Bool-cases, Option, arith, inl, inr, refl, some, true, ◌↔◌, ◌≡◌, ◌⊎◌}
use my_team_tradding.Prelude.Int.{ge→ltb_ℤ, leb_ℤ→le, le→leb_ℤ, ltb_ℤ, lt→ltb_ℤ, pos, ℤ, ◌<ℤ◌, ◌≤ℤ◌}
use my_team_tradding.Prelude.Result.{err, ok}

-- The agent gave no answer, by itself or in time.
abbrev pub IsAbsence : AgentFailureCategory → Type 0
IsAbsence timeout = Unit
IsAbsence unavailable_agent = Unit
IsAbsence _ = ⊥

abbrev pub IsAdvisory : Option AgentRole → Type 0
IsAdvisory role =
    (role ≡ some quant_researcher)
    ⊎ (role ≡ some senior_quant_developer)
    ⊎ (role ≡ some performance_reviewer)

abbrev pub IsStageOne : Option AgentRole → Type 0
IsStageOne role =
    (role ≡ some market_context) ⊎ (role ≡ some trend_analyst) ⊎ (role ≡ some price_action_analyst)

-- What the policy tolerates.
abbrev pub IsTolerable : AgentFailureCategory → Option AgentRole → ℤ → Type 0
IsTolerable category role successes =
    ((category ≡ invalid_output) × (role ≡ some performance_reviewer))
    ⊎ (IsAbsence category × (IsAdvisory role ⊎ (IsStageOne role × (pos 2 ≤ℤ successes))))

IsAdvisory-iff : (role : Option AgentRole) → (is_advisory role ≡ true) ↔ IsAdvisory role
IsAdvisory-iff role = (λ h. ground arith, λ h. ground arith)

IsStageOne-iff : (role : Option AgentRole) → (is_stage_one role ≡ true) ↔ IsStageOne role
IsStageOne-iff role = (λ h. ground arith, λ h. ground arith)

reviewer_iff :
    (role : Option AgentRole) → (is_reviewer role ≡ true) ↔ (role ≡ some performance_reviewer)
reviewer_iff role = (λ h. ground arith, λ h. ground arith)

absence_iff :
    (role : Option AgentRole) (n : ℤ)
    → (resolve_absence role n ≡ continue_degraded)
      ↔ (IsAdvisory role ⊎ (IsStageOne role × (pos 2 ≤ℤ n)))
unfolding resolve_absence
absence_iff role n =
    let advisory = IsAdvisory-iff role in
    let stage_one = IsStageOne-iff role in
    let enough = leb_ℤ→le (pos 2) n in
    let few = le→leb_ℤ (pos 2) n in (λ h. ground arith, λ h. ground arith)

category_iff :
    (category : AgentFailureCategory) (role : Option AgentRole) (n : ℤ)
    → (resolve_category category role n ≡ continue_degraded) ↔ IsTolerable category role n
unfolding resolve_category
category_iff invalid_snapshot role n = (λ h. cc, λ h. ground arith)
category_iff schema_mismatch role n = (λ h. cc, λ h. ground arith)
category_iff unknown role n = (λ h. cc, λ h. ground arith)
category_iff stale_snapshot role n = (λ h. cc, λ h. ground arith)
category_iff missing_required_upstream role n = (λ h. cc, λ h. ground arith)
category_iff invalid_output role n =
    let reviewer = reviewer_iff role in (λ h. ground arith, λ h. ground arith)
category_iff timeout role n = (
  λ h. inr (tt, (absence_iff role n).0 h),
  λ h. elim h [ inl q ↦ cc (q.0) | inr absent ↦ (absence_iff role n).1 (absent.1) ],
)
category_iff unavailable_agent role n = (
  λ h. inr (tt, (absence_iff role n).0 h),
  λ h. elim h [ inl q ↦ cc (q.0) | inr absent ↦ (absence_iff role n).1 (absent.1) ],
)

-- For a count of stage-one successes between zero and three the policy gives a disposition, and lets
-- the cycle go on exactly when the failure is tolerable: an invalid output of the performance
-- reviewer, or an absence, of an advisory role, or of a stage-one role while two others succeeded.
-- For any other count it raises `ValueError`.
pub resolve_exact :
    (category : AgentFailureCategory) (role : Option AgentRole) (n : ℤ)
    → ((pos 0 ≤ℤ n) × (n ≤ℤ pos 3)
        → (x : FailureDisposition) × (resolve category role n ≡ ok x)
          × ((x ≡ continue_degraded) ↔ IsTolerable category role n))
      × (((n <ℤ pos 0) ⊎ (pos 3 <ℤ n)) → resolve category role n ≡ err value_error)
unfolding resolve
resolve_exact category role n = (
  λ h. (
    resolve_category category role n,
    rw (ge→ltb_ℤ n (pos 0) h.0, ge→ltb_ℤ (pos 3) n h.1) refl,
    category_iff category role n,
  ),
  λ h. elim h [
    | inl low ↦ rw (lt→ltb_ℤ n (pos 0) low) refl
    | inr high ↦ elim (Bool-cases (ltb_ℤ n (pos 0))) [
      | inl low ↦ rw low refl
      | inr not_low ↦ rw (not_low, lt→ltb_ℤ (pos 3) n high) refl
    ]
  ],
)
