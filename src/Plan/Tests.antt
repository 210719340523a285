-- ===== src/Plan/Tests.antt =====
-- The validator at concrete plans.
use runtime_assistant_agent.Base.{
  ◌≤◌, ◌<◌, String, Bool, true, false, ◌≡◌, ◌≢◌, refl, none, some, List, [], ◌∷◌, length, any, All,
}
use runtime_assistant_agent.Base.Dict.{lookup, insert}
use runtime_assistant_agent.Plan.{
  TaskStep, TaskPlan, first_cycle, dependencies, PlanValidationResult, validate, step_ids,
}
use runtime_assistant_agent.Plan.Validate.{
  IsUnique, IsKnown, HasOrder, is_executable, accepted_plan_is_executable, validate_total,
}

abbrev tools : List String
tools = "product_search" ∷ "price_compare" ∷ []

abbrev step_of : String → String → List String → TaskStep
step_of step_id tool depends_on = record {
  step_id = step_id;
  action = tool;
  tool_name = some tool;
  depends_on = depends_on;
  optional = false;
}

abbrev plan : TaskPlan
plan = record {
  steps =
      step_of "compare" "price_compare" ("search" ∷ []) ∷ step_of "search" "product_search" [] ∷ [];
  requires_followup = false;
  followup_question = none;
}

abbrev looping : TaskPlan
looping = record {
  steps =
      step_of "compare" "price_compare" ("search" ∷ [])
      ∷ step_of "search" "product_search" ("compare" ∷ [])
      ∷ [];
  requires_followup = false;
  followup_question = none;
}

abbrev verdict : Bool → String → PlanValidationResult
verdict accepted code = record { accepted = accepted; code = code }

plan_accepted : validate 8 plan tools ≡ some (verdict true "accepted")
unfolding validate first_cycle lookup insert
plan_accepted = refl

looping_rejected : validate 8 looping tools ≡ some (verdict false "cyclic_dependency")
unfolding validate first_cycle lookup insert
looping_rejected = refl

too_large : validate 1 plan tools ≡ some (verdict false "plan_too_large")
unfolding validate
too_large = refl

accepted_plan_is_executable_example :
    (0 < length plan.steps)
    × (length plan.steps ≤ 8)
    × IsUnique (step_ids plan.steps)
    × All (IsKnown (step_ids plan.steps) tools) plan.steps
    × (any is_executable plan.steps ≡ true)
    × All (λ s. lookup s.step_id (dependencies plan.steps) ≡ some s.depends_on) plan.steps
    × HasOrder plan.steps
accepted_plan_is_executable_example =
    accepted_plan_is_executable 8 plan tools (verdict true "accepted") refl refl plan_accepted

validate_total_example : validate 8 looping tools ≢ none
validate_total_example = validate_total 8 looping tools
