-- ===== src/Execution/Authority/Sound.antt =====
-- What holds when `validate_execution_authority` raises nothing.
use my_team_tradding.Budget.Types.{ModelProvider, fake}
use my_team_tradding.Execution.Authority.{
  approval_failure, approval_matches, control_failure, is_eligible, is_fake, is_over,
  is_valid_evidence, shadow_intent_of, standing_checks, validate_execution_authority,
}
use my_team_tradding.Execution.Records.{
  DemoExecutionApproval, DemoExecutionEnvironmentAcceptance, DemoExecutionPolicy, Digests,
  ExecutionControlState, GraduationDisposition, QualificationEvidenceValidity,
  QualifiedDemoExecutionCandidate, ShadowTradeIntent, eligible_for_demo_review, not_eligible,
}
use my_team_tradding.Execution.Types.{
  Check, DemoExecutionFailure, all_true, and_then, first_failure,
}
use my_team_tradding.Prelude.{
  All, Bool, List, Option, String, [], and_elim, any, ap, arith, false, if◌then◌else◌, leb, leb→le,
  ltb, ltb→lt, none, not, not-eq-false, or-eq-false, refl, some, str_eq, str_eq_iff, true, ℕ, ◌<◌,
  ◌∷◌, ◌≡◌, ◌≢◌, ◌≤◌,
}

pub first_failure-none :
    (checks : List Check) → first_failure checks ≡ none → All (λ check. check.0 ≡ false) checks
unfolding first_failure
first_failure-none [] h = tt
first_failure-none ((true, failure) ∷ checks) h = cc
first_failure-none ((false, failure) ∷ checks) h = (refl, first_failure-none checks h)

pub and_then-none :
    (a b : Option DemoExecutionFailure) → and_then a b ≡ none → (a ≡ none) × (b ≡ none)
and_then-none none b h = (refl, h)
and_then-none (some failure) b h = cc

pub all_true-All : (bs : List Bool) → all_true bs ≡ true → All (λ b. b ≡ true) bs
all_true-All [] h = tt
all_true-All (true ∷ bs) h = (refl, all_true-All bs h)
all_true-All (false ∷ bs) h = cc

any-All-false :
    {A : Type 0} (p : A → Bool) (xs : List A) → any p xs ≡ false → All (λ x. p x ≡ false) xs
any-All-false p [] h = tt
any-All-false p (x ∷ xs) h =
    let (here, rest) = or-eq-false (p x) (any p xs) h in (here, any-All-false p xs rest)

pub same_string : {s t : String} → str_eq s t ≡ true → s ≡ t
same_string h = (str_eq_iff _ _).0 h

pub refused_text : {s t : String} → not (str_eq s t) ≡ false → s ≡ t
refused_text h = same_string (not-eq-false _ h)

pub ltb→le : (a b : ℕ) → ltb a b ≡ false → b ≤ a
ltb→le a b h = ground arith

pub leb→gt : (a b : ℕ) → leb a b ≡ false → b < a
leb→gt a b h = ground arith

enabled_only :
    (state : ExecutionControlState)
    → control_failure state ≡ none
    → state ≡ ExecutionControlState.enabled
enabled_only ExecutionControlState.enabled h = refl
enabled_only ExecutionControlState.disabled h = cc
enabled_only ExecutionControlState.paused h = cc
enabled_only ExecutionControlState.halted h = cc

eligible_only : (g : GraduationDisposition) → is_eligible g ≡ true → g ≡ eligible_for_demo_review
eligible_only eligible_for_demo_review h = refl
eligible_only not_eligible h = cc

valid_only :
    (v : QualificationEvidenceValidity)
    → is_valid_evidence v ≡ true
    → v ≡ QualificationEvidenceValidity.valid
valid_only QualificationEvidenceValidity.valid h = refl
valid_only QualificationEvidenceValidity.expired h = cc
valid_only QualificationEvidenceValidity.invalidated h = cc
valid_only QualificationEvidenceValidity.contaminated h = cc

-- A limit that is given and lies ahead.
abbrev pub IsAhead : ℕ → Option ℕ → Type 0
IsAhead now limit = (t : ℕ) × (limit ≡ some t) × (now < t)

is_over-IsAhead : (now : ℕ) (limit : Option ℕ) → is_over now limit ≡ false → IsAhead now limit
is_over-IsAhead now none h = cc
is_over-IsAhead now (some t) h = (t, refl, leb→gt _ _ h)

map_All :
    {A : Type 0} {P Q : A → Type 0} (xs : List A) → ((x : A) → P x → Q x) → All P xs → All Q xs
map_All [] f h = tt
map_All (x ∷ xs) f h = (f x h.0, map_All xs f h.1)

real_provider : (provider : ModelProvider) → is_fake provider ≡ false → provider ≢ fake
real_provider provider h fakes = cc (ap is_fake fakes)

pub passed_if :
    (b : Bool) (failure : DemoExecutionFailure)
    → (if not b then some failure else none) ≡ none
    → b ≡ true
passed_if true failure h = refl
passed_if false failure h = cc

module _ (d : Digests) (candidate : QualifiedDemoExecutionCandidate)
    (acceptance : DemoExecutionEnvironmentAcceptance) (approval : DemoExecutionApproval)
    (policy : DemoExecutionPolicy) where
  -- The qualification is current, the environment is accepted and a human has approved exactly this.
  pub record IsApproved (control_state : ExecutionControlState) (is_revoked : Bool) (now : ℕ)
      (shadow : ShadowTradeIntent) : Type 0 where
    pub control : control_state ≡ ExecutionControlState.enabled
    pub eligible : candidate.qualification_status.graduation_disposition ≡ eligible_for_demo_review
    pub evidence :
        candidate.qualification_status.validity_assessment.state
        ≡ QualificationEvidenceValidity.valid
    pub assessed : candidate.qualification_status.validity_assessment.assessed_at ≤ now
    pub current : IsAhead now candidate.qualification_status.validity_assessment.valid_until
    pub real : All (λ item. item.provider ≢ fake) candidate.dependency_manifest.assignments
    pub providers :
        All
          (λ item. IsAhead now item.acceptance_valid_until)
          candidate.dependency_manifest.assignments
    pub same_manifest :
        candidate.dependency_manifest_digest ≡ d.of_manifest candidate.dependency_manifest
    pub assessed_manifest :
        candidate.qualification_status.validity_assessment.dependency_manifest_digest
        ≡ candidate.dependency_manifest_digest
    pub same_status :
        candidate.qualification_status_digest ≡ d.of_status candidate.qualification_status
    pub same_timestamps :
        candidate.dependency_manifest.symbol_timestamp_acceptance.symbol ≡ candidate.decision.symbol
    pub timestamps : now < candidate.dependency_manifest.symbol_timestamp_acceptance.expires_at
    pub environment : now < acceptance.expires_at
    pub same_policy : acceptance.execution_policy_digest ≡ d.of_policy policy
    pub same_symbol : acceptance.symbol ≡ candidate.decision.symbol
    pub not_revoked : is_revoked ≡ false
    pub effective : approval.effective_from ≤ now
    pub unexpired : now < approval.expires_at
    pub has_shadow : shadow_intent_of candidate.decision ≡ some shadow
    pub approved_candidate : approval.candidate_id ≡ candidate.candidate_id
    pub approved_decision :
        approval.source_decision_record_digest ≡ d.of_decision candidate.decision
    pub approved_intent : approval.source_shadow_intent_digest ≡ d.of_shadow_intent shadow
    pub approved_risk :
        approval.analysis_risk_decision_digest ≡ d.of_risk_decision shadow.risk_decision
    pub approved_proposal : approval.analysis_proposal_digest ≡ d.of_proposal shadow.proposal
    pub approved_run :
        approval.qualification_run_id ≡ candidate.qualification_status.qualification_run_id
    pub approved_status :
        approval.qualification_status_digest ≡ candidate.qualification_status_digest
    pub approved_generation : approval.generation_id ≡ candidate.dependency_manifest.generation_id
    pub approved_manifest : approval.generation_digest ≡ candidate.dependency_manifest_digest
    pub approved_acceptance : approval.environment_acceptance_id ≡ acceptance.acceptance_id
    pub approved_terminal : approval.environment_ref ≡ acceptance.environment_ref
    pub approved_symbol : approval.symbol ≡ acceptance.symbol
    pub approved_environment : approval.environment_acceptance_digest ≡ d.of_acceptance acceptance
    pub approved_account : approval.account_ref ≡ acceptance.account_ref
    pub approved_policy : approval.execution_policy_digest ≡ d.of_policy policy

  approval_of_none :
      (o : Option ShadowTradeIntent)
      → approval_failure d candidate acceptance approval policy o ≡ none
      → (shadow : ShadowTradeIntent) × (o ≡ some shadow)
        × (all_true (approval_matches d candidate acceptance approval policy shadow) ≡ true)
  unfolding approval_failure
  approval_of_none none h = cc
  approval_of_none (some shadow) h = (shadow, refl, passed_if _ _ h)

  -- An authority check that raises nothing finds everything approved.
  pub validate_execution_authority-IsApproved :
      (control_state : ExecutionControlState) (is_revoked : Bool) (now : ℕ)
      → validate_execution_authority d candidate acceptance approval policy control_state is_revoked
          now
        ≡ none
      → (shadow : ShadowTradeIntent) × IsApproved control_state is_revoked now shadow
  unfolding validate_execution_authority standing_checks approval_matches
  validate_execution_authority-IsApproved control_state is_revoked now h =
      let (control, h1) = and_then-none (control_failure control_state) _ h in
      let standing = standing_checks d candidate acceptance approval policy is_revoked now in
      let (clear, h2) = and_then-none (first_failure standing) _ h1 in
      let (
        eligible,
        (
          evidence,
          (
            window,
            (
              chain,
              (
                status,
                (
                  real,
                  (
                    providers,
                    (
                      timestamps,
                      (bound, (environment, (symbol, (not_revoked, (effective, done))))),
                    ),
                  ),
                ),
              ),
            ),
          ),
        ),
      ) =
        first_failure-none standing clear in
      let (shadow, given, matches) = approval_of_none _ h2 in
      let (
        m0,
        (
          m1,
          (m2, (m3, (m4, (m5, (m6, (m7, (m8, (m9, (m10, (m11, (m12, (m13, (m14, end))))))))))))),
        ),
      ) =
        all_true-All (approval_matches d candidate acceptance approval policy shadow) matches in
      let (assessed, current) = or-eq-false _ _ window in
      let (ahead, same_timestamps) = or-eq-false _ _ timestamps in
      let (bound_manifest, bound_assessment) = or-eq-false _ _ chain in
      let (from, until) = and_elim _ _ (not-eq-false _ effective) in
      (
        shadow,
        record {
          control = enabled_only control_state control;
          eligible = eligible_only _ (not-eq-false _ eligible);
          evidence = valid_only _ (not-eq-false _ evidence);
          assessed = ltb→le _ _ assessed;
          current = is_over-IsAhead now _ current;
          real =
              map_All _ (λ item. real_provider item.provider)
                (any-All-false (λ item. is_fake item.provider) _ real);
          providers =
              map_All _ (λ item. is_over-IsAhead now item.acceptance_valid_until)
                (any-All-false (λ item. is_over now item.acceptance_valid_until) _ providers);
          same_manifest = refused_text bound_manifest;
          assessed_manifest = refused_text bound_assessment;
          same_status = refused_text status;
          same_timestamps = refused_text same_timestamps;
          timestamps = leb→gt _ _ ahead;
          environment = leb→gt _ _ environment;
          same_policy = refused_text bound;
          same_symbol = refused_text symbol;
          not_revoked = not_revoked;
          effective = leb→le _ _ from;
          unexpired = ltb→lt _ _ until;
          has_shadow = given;
          approved_candidate = same_string m0;
          approved_decision = same_string m1;
          approved_intent = same_string m2;
          approved_risk = same_string m4;
          approved_proposal = same_string m3;
          approved_run = same_string m5;
          approved_status = same_string m6;
          approved_generation = same_string m7;
          approved_manifest = same_string m8;
          approved_acceptance = same_string m9;
          approved_terminal = same_string m12;
          approved_symbol = same_string m13;
          approved_environment = same_string m10;
          approved_account = same_string m11;
          approved_policy = same_string m14;
        },
      )
