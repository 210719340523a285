-- ===== src/Capabilities/Inputs.antt =====
-- What a decision that has passed the validator brings along.
use runtime_assistant_agent.Base.{true, ◌≡◌, ◌≢◌, ◌⊎◌, List, [], All}
use runtime_assistant_agent.Capabilities.{
  Capability, price_compare, ask_followup, has, IntentDecision, UserRequest, has_product_candidates,
  missing_inputs_for_capability, missing_inputs,
}

-- Every capability of some has its inputs.
abbrev pub HaveInputs : List Capability → IntentDecision → UserRequest → Type 0
HaveInputs cs d q = All (λ c. missing_inputs_for_capability c d q ≡ []) cs

-- A decision of the validator: its capabilities have their inputs, and prices are compared only with
-- candidates, which the request brings or a step searches for.
pub record IsReady (d : IntentDecision) (q : UserRequest) : Type 0 where
  pub given : HaveInputs d.capabilities d q
  pub candidates : has d.capabilities price_compare ≡ true → has_product_candidates d q ≡ true

-- a question back, for inputs that are named
pub record IsQuestion (d : IntentDecision) : Type 0 where
  pub intent : d.primary_intent ≡ ask_followup
  pub no_steps : d.plan_steps ≡ []
  pub asks : d.missing_inputs ≢ []

-- The outcome: a question, or a decision that is ready.
abbrev pub IsSettled : UserRequest → IntentDecision → Type 0
IsSettled q d = IsQuestion d ⊎ IsReady d q
