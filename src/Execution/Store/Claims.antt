-- ===== src/Execution/Store/Claims.antt =====
-- What a claim in the repository of src/ai_trading_team/storage/execution.py leaves behind.
-- A claim that returns has found no record of the intent.
use my_team_tradding.Execution.Lifecycle.{DemoExecutionRecord, build_execution, is_valid_lifecycle}
use my_team_tradding.Execution.Store.{ExecutionFault, Repository}
use my_team_tradding.Execution.Store.Records.{
  claim, claim_is_owned, claimed_record, get_by_source_digest, get_record, is_known, store_claim,
}
use my_team_tradding.Execution.Types.{DemoOrderIntent, duplicate_execution_intent, failure_of}
use my_team_tradding.Prelude.{
  Bool, Bool-cases, List, String, ap, arith, inl, inr, none, or-eq-false, refl, some, str_eq_iff,
  sym, true, ℕ, ◌||◌, ◌∙◌, ◌≡◌, ◌⊎◌,
}
use my_team_tradding.Prelude.Dict.{
  has, has-eq-false, has_of_lookup, insert, lookup, lookup-insert_self,
}
use my_team_tradding.Prelude.Result.{err, ok, ok-injective, refused-eq-ok}
use my_team_tradding.Risk.Engine.{RiskDecision}

pub claim-wrote :
    (intent : DemoOrderIntent) (risk_revalidation : RiskDecision) (owner : String) (at : ℕ)
    (r r' : Repository) (x : DemoExecutionRecord)
    → claim intent risk_revalidation owner at r ≡ ok (x, r')
    → (x ≡ claimed_record intent risk_revalidation owner at)
      × (r' ≡ store_claim x r)
      × (lookup x.intent.execution_intent_id r.records ≡ none)
unfolding claim build_execution
claim-wrote intent risk_revalidation owner at r r' x h =
    let s = claimed_record intent risk_revalidation owner at in
    let (unknown_intent, built) = refused-eq-ok (is_known intent r) _ _ (x, r') h in
    elim (Bool-cases (is_valid_lifecycle s)) [
      | inr bad ↦ cc (rw bad at built)
      | inl good ↦
          let pairs = ok-injective (rw good at built) in
          let same : x ≡ s = sym (ap (λ p. p.0) pairs) in
          let (unstored, others) =
            or-eq-false (has intent.execution_intent_id r.records) _ unknown_intent in
          (
            same,
            sym (ap (λ p. p.1) pairs) ∙ ap (λ z. store_claim z r) (sym same),
            rw same (has-eq-false intent.execution_intent_id r.records unstored),
          )
    ]

abbrev pub SharesIdentity : DemoOrderIntent → DemoOrderIntent → Type 0
SharesIdentity a b =
    (a.execution_intent_id ≡ b.execution_intent_id)
    ⊎ ((a.source_shadow_intent_digest ≡ b.source_shadow_intent_digest)
        ⊎ (a.client_trade_id ≡ b.client_trade_id))

has-insert_self {ℓ} :
    {V : Type ℓ} (k j : String) (v : V) (m : List (String × V))
    → k ≡ j
    → has k (insert j v m) ≡ true
has-insert_self k j v m e =
    has_of_lookup k v (insert j v m)
      (ap (λ i. lookup i (insert j v m)) e ∙ lookup-insert_self j v m)

or_second : (a b c : Bool) → b ≡ true → (a || (b || c)) ≡ true
or_second a b c h = ground arith

or_third : (a b c : Bool) → c ≡ true → (a || (b || c)) ≡ true
or_third a b c h = ground arith

known_by_identity :
    (a : DemoOrderIntent) (x : DemoExecutionRecord) (r : Repository)
    → SharesIdentity a x.intent
    → is_known a (store_claim x r) ≡ true
known_by_identity a x r (inl e) =
    let id = x.intent.execution_intent_id in
    rw (has-insert_self a.execution_intent_id id x r.records e) refl
known_by_identity a x r (inr (inl e)) =
    let id = x.intent.execution_intent_id in
    let h =
      has-insert_self a.source_shadow_intent_digest x.intent.source_shadow_intent_digest id
        r.source_index e in
    or_second _ _ _ h
known_by_identity a x r (inr (inr e)) =
    let id = x.intent.execution_intent_id in
    let h = has-insert_self a.client_trade_id x.intent.client_trade_id id r.client_index e in
    or_third _ _ _ h

-- Behind a claim that returns, the record is read back under the identity of its intent and under the
-- digest of its source, its claim is owned, and every further claim that shares the identity, the
-- source or the client trade id is refused as a duplicate.
pub claim_roundtrip :
    (intent : DemoOrderIntent) (risk_revalidation : RiskDecision) (owner : String) (at : ℕ)
    (r r' : Repository) (x : DemoExecutionRecord)
    → claim intent risk_revalidation owner at r ≡ ok (x, r')
    → (get_record intent.execution_intent_id r' ≡ some x)
      × (get_by_source_digest intent.source_shadow_intent_digest r' ≡ some x)
      × (claim_is_owned intent.execution_intent_id owner r' ≡ true)
      × ((again : DemoOrderIntent) (decision : RiskDecision) (other : String) (later_time : ℕ)
          → SharesIdentity again intent
          → claim again decision other later_time r'
            ≡ err (
                ExecutionFault.execution_error (
                  failure_of duplicate_execution_intent
                    "execution identity or source shadow intent was already claimed")))
unfolding claim get_record get_by_source_digest claim_is_owned
claim_roundtrip intent risk_revalidation owner at r r' x h =
    let s = claimed_record intent risk_revalidation owner at in
    let (same, stored, absent) = claim-wrote intent risk_revalidation owner at r r' x h in
    let whole : r' ≡ store_claim s r = stored ∙ ap (λ z. store_claim z r) same in
    let found : lookup intent.execution_intent_id r'.records ≡ some s =
      ap (λ z. lookup intent.execution_intent_id z.records) whole
      ∙ lookup-insert_self intent.execution_intent_id s r.records in
    let indexed : lookup intent.source_shadow_intent_digest r'.source_index
        ≡ some intent.execution_intent_id =
      ap (λ z. lookup intent.source_shadow_intent_digest z.source_index) whole
      ∙ lookup-insert_self intent.source_shadow_intent_digest intent.execution_intent_id
          r.source_index in
    let by_source : get_by_source_digest intent.source_shadow_intent_digest r' ≡ some x =
      rw (indexed, get_by_source_digest) (found ∙ ap some (sym same)) in
    let owned_now : claim_is_owned intent.execution_intent_id owner r' ≡ true =
      rw (found, claim_is_owned) (rw ((str_eq_iff owner owner).1 refl) refl) in
    (
      found ∙ ap some (sym same),
      by_source,
      owned_now,
      λ again decision other later_time shares.
          rw whole (rw (known_by_identity again s r shares) refl),
    )
