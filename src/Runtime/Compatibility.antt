-- ===== src/Runtime/Compatibility.antt =====
-- `validate_compatibility` of src/ai_trading_team/runtime/validation.py and the input types of the
-- contracts of src/ai_trading_team/runtime/contracts.py.
use my_team_tradding.Budget.Guard.{same_provider}
use my_team_tradding.Budget.Types.{
  BudgetFault, ModelProvider, ReasoningEffort, RuntimeProfile, capability_incompatible, effort_high,
  effort_low, effort_medium, effort_none, fake, invocation_error, schema_incompatible,
}
use my_team_tradding.Orchestration.Failures.{AgentRole}
use my_team_tradding.Prelude.{
  Bool, List, Option, String, [], any, false, if◌then◌else◌, ltb, none, not, some, str_eq, true, ℕ,
  ◌&&◌, ◌+◌, ◌||◌, ◌∷◌,
}
use my_team_tradding.Prelude.Result.{Result, err, ok}
use my_team_tradding.Runtime.Types.{
  AgentInvocationRequest, ModelCapabilityProfile, PromptArtifact, SchemaReference, TokenEstimate,
  TokenEstimateMethod, conservative_estimate, provider_reported, provider_tokenizer, unavailable,
}

unfoldable pub input_type : AgentRole → String
input_type AgentRole.market_context = "MarketContextInput"
input_type AgentRole.trend_analyst = "TrendAnalysisInput"
input_type AgentRole.price_action_analyst = "PriceActionInput"
input_type AgentRole.entry_analyst = "EntryAnalysisInput"
input_type AgentRole.quant_researcher = "QuantResearchInput"
input_type AgentRole.senior_quant_developer = "QuantDeveloperInput"
input_type AgentRole.skeptic = "SkepticInput"
input_type AgentRole.chief_trader = "ChiefTraderInput"
input_type AgentRole.performance_reviewer = "PerformanceReviewInput"

unfoldable pub same_role : AgentRole → AgentRole → Bool
unfolding input_type
same_role a b = str_eq (input_type a) (input_type b)

abbrev pub same_effort : ReasoningEffort → ReasoningEffort → Bool
same_effort effort_none effort_none = true
same_effort effort_low effort_low = true
same_effort effort_medium effort_medium = true
same_effort effort_high effort_high = true
same_effort _ _ = false

abbrev pub same_method : TokenEstimateMethod → TokenEstimateMethod → Bool
same_method provider_reported provider_reported = true
same_method provider_tokenizer provider_tokenizer = true
same_method conservative_estimate conservative_estimate = true
same_method unavailable unavailable = true
same_method _ _ = false

abbrev pub same_schema : SchemaReference → SchemaReference → Bool
same_schema a b =
    str_eq a.schema_id b.schema_id
    && (str_eq a.schema_version b.schema_version && str_eq a.schema_digest b.schema_digest)

-- `==` of a digest that may be `None`
abbrev pub is_digest : Option String → String → Bool
is_digest none digest = false
is_digest (some own) digest = str_eq own digest

abbrev pub exceeds_context : Option ℕ → ℕ → ℕ → Bool
exceeds_context none maximum_output limit = false
exceeds_context (some tokens) maximum_output limit = ltb limit (tokens + maximum_output)

abbrev pub is_fake_provider : ModelProvider → Bool
is_fake_provider provider = same_provider provider fake

abbrev pub incompatible : String → BudgetFault
incompatible detail = invocation_error capability_incompatible detail

abbrev pub unreasonable : RuntimeProfile → ModelCapabilityProfile → Bool
unreasonable runtime capability =
    not (same_effort runtime.reasoning_effort effort_none)
    && (not capability.reasoning_configuration_supported
        || not (any (same_effort runtime.reasoning_effort) capability.supported_reasoning_efforts))

-- The first condition that holds and what it raises, or nothing.
abbrev pub first_fault : List (Bool × BudgetFault) → Result BudgetFault (Unit {0})
first_fault [] = ok tt
first_fault ((found, fault) ∷ rest) = if found then err fault else first_fault rest

-- The conditions in the order of the source, with what each raises.
abbrev pub incompatibilities :
    AgentInvocationRequest
    → PromptArtifact
    → RuntimeProfile
    → ModelCapabilityProfile
    → TokenEstimate
    → List (Bool × BudgetFault)
incompatibilities invocation prompt runtime capability estimate =
    let descriptor = invocation.descriptor in
    (
      not (str_eq descriptor.prompt_ref.prompt_id prompt.prompt_id)
          || not (str_eq descriptor.prompt_ref.prompt_version prompt.prompt_version),
      incompatible "descriptor prompt reference does not match artifact",
    )
    ∷ ((
      not (is_digest descriptor.prompt_ref.content_digest prompt.content_digest),
      incompatible "descriptor prompt digest does not match artifact",
    )
        ∷ ((
          not (same_role descriptor.role prompt.role),
          incompatible "prompt role does not match agent role",
        )
            ∷ ((
              not (str_eq descriptor.runtime_profile_ref runtime.profile_ref),
              incompatible "descriptor runtime profile does not match requested profile",
            )
                ∷ ((
                  not (str_eq runtime.capability_profile_ref capability.profile_ref),
                  incompatible "runtime capability reference does not match validated profile",
                )
                    ∷ ((
                      not (same_provider runtime.provider capability.provider)
                          || not (str_eq runtime.model_identifier capability.model_identifier),
                      incompatible "runtime provider/model does not match capability profile",
                    )
                        ∷ ((
                          not (same_schema invocation.input_schema prompt.compatible_input_schema)
                              || not (
                                  same_schema invocation.output_schema
                                    prompt.compatible_output_schema),
                          invocation_error schema_incompatible
                              "invocation schema references are incompatible with prompt artifact",
                        )
                            ∷ ((
                              not (str_eq invocation.context_type (input_type descriptor.role)),
                              invocation_error schema_incompatible
                                  "context type is incompatible with the role contract",
                            )
                                ∷ ((
                                  not capability.structured_output_supported,
                                  incompatible "structured output is unsupported",
                                )
                                    ∷ ((
                                      not capability.json_schema_supported,
                                      incompatible "JSON Schema output is unsupported",
                                    )
                                        ∷ ((
                                          ltb capability.max_output_tokens
                                              runtime.max_output_tokens,
                                          incompatible
                                              "requested output limit exceeds model capability",
                                        )
                                            ∷ ((
                                              unreasonable runtime capability,
                                              incompatible
                                                  "requested reasoning configuration is unsupported",
                                            )
                                                ∷ ((
                                                  exceeds_context estimate.tokens
                                                      runtime.max_output_tokens
                                                      capability.max_context_tokens,
                                                  incompatible
                                                      "estimated invocation exceeds model context limit",
                                                )
                                                    ∷ ((
                                                      not (
                                                          any (same_method estimate.method)
                                                            capability.token_estimation_methods),
                                                      incompatible
                                                          "token estimation method is not validated for this model",
                                                    )
                                                        ∷ ((
                                                          not capability.adapter_contract_accepted,
                                                          incompatible
                                                            "provider adapter contract has not been accepted",
                                                        )
                                                            ∷ ((
                                                            not
                                                            (is_fake_provider capability.provider)
                                                            && not capability.live_smoke_accepted,
                                                            incompatible
                                                            "provider live smoke acceptance is required for runtime use",
                                                            )
                                                            ∷ [])))))))))))))))

unfoldable pub validate_compatibility :
    AgentInvocationRequest
    → PromptArtifact
    → RuntimeProfile
    → ModelCapabilityProfile
    → TokenEstimate
    → Result BudgetFault (Unit {0})
unfolding input_type same_role
validate_compatibility invocation prompt runtime capability estimate =
    first_fault (incompatibilities invocation prompt runtime capability estimate)
