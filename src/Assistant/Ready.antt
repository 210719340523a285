-- ===== src/Assistant/Ready.antt =====
-- The calls that are made in plan mode.
use runtime_assistant_agent.Base.{
  String, Bool, true, false, not, ◌≡◌, ◌≢◌, refl, ◌∙◌, ap, sym, subst, ◌⊎◌, inl, inr, Option, none,
  some, List, [], ◌∷◌, ◌==◌, if◌then◌else◌, is_some, given, All, ◌&&◌, if_intro, if_cases,
  Bool-cases, arith, eq_iff,
}
use runtime_assistant_agent.Base.Dict.{Dict, lookup}
use runtime_assistant_agent.Plan.{TaskStep, TaskPlan}
use runtime_assistant_agent.Executor.{ToolResult}
use runtime_assistant_agent.Actions.{tool_call, AssistantDecision, validate_action}
use runtime_assistant_agent.Actions.Accepted.{IsAcceptable, accepted_call-IsAcceptable}
use runtime_assistant_agent.Assistant.{Env, LoopState, is_plan_mode_active}
use runtime_assistant_agent.Assistant.PlanMode.{has_succeeded}
use runtime_assistant_agent.Assistant.Execute.{
  StepChoice, chosen, refused, same_tool, check_step, check_tool, check_dependencies, found_step,
  planned_step, step_in_plan, plan_step_by_id, next_matching_plan_step, has_dependency_error,
  current_plan_step, execute_tool, by_choice, validated, at_step, reject_action, call_tool,
  refuse_step,
}
use runtime_assistant_agent.Assistant.Executes.{Core, reject_action-core}

abbrev pub IsStepOf : TaskStep → List TaskStep → Type 0
IsStepOf step [] = ⊥
IsStepOf step (s ∷ rest) = (s ≡ step) ⊎ IsStepOf step rest

-- A step of the plan whose tool is the one called, and whose dependencies have all succeeded.
pub record IsReady (plan : TaskPlan) (tool : Option String) (outputs : Dict ToolResult)
    (step : TaskStep) : Type 0 where
  pub planned : IsStepOf step plan.steps
  pub agrees : step.tool_name ≡ tool
  pub done : All (λ d. has_succeeded (lookup d outputs) ≡ true) step.depends_on

plan_step_by_id-IsStepOf :
    (id : String) (steps : List TaskStep) (step : TaskStep)
    → plan_step_by_id id steps ≡ some step
    → IsStepOf step steps
plan_step_by_id-IsStepOf id [] step e = absurd cc
plan_step_by_id-IsStepOf id (s ∷ rest) step e =
    if_cases (λ o. o ≡ some step → IsStepOf step (s ∷ rest)) (s.step_id == id) {x = some s}
      {y = plan_step_by_id id rest} (λ h f. inl cc)
      (λ h f. inr (plan_step_by_id-IsStepOf id rest step f)) e

next_matching-IsStepOf :
    (tool : Option String) (outputs : Dict ToolResult) (steps : List TaskStep) (step : TaskStep)
    → next_matching_plan_step tool outputs steps ≡ some step
    → IsStepOf step steps
next_matching-IsStepOf tool outputs [] step e = absurd cc
next_matching-IsStepOf tool outputs (s ∷ rest) step e =
    if_cases (λ o. o ≡ some step → IsStepOf step (s ∷ rest))
      (same_tool s.tool_name tool && not (has_succeeded (lookup s.step_id outputs))) {x = some s}
      {y = next_matching_plan_step tool outputs rest} (λ h f. inl cc)
      (λ h f. inr (next_matching-IsStepOf tool outputs rest step f)) e

same_tool-eq : (a b : Option String) → same_tool a b ≡ true → a ≡ b
same_tool-eq none none h = refl
same_tool-eq (some a) (some b) h = ap some ((eq_iff a b).0 h)
same_tool-eq none (some b) h = absurd cc
same_tool-eq (some a) none h = absurd cc

dependencies-done :
    (ds : List String) (outputs : Dict ToolResult)
    → has_dependency_error ds outputs ≡ false
    → All (λ d. has_succeeded (lookup d outputs) ≡ true) ds
dependencies-done [] outputs h = tt
dependencies-done (d ∷ ds) outputs h =
    let rest : has_dependency_error ds outputs ≡ false = ground arith in
    (ground arith, dependencies-done ds outputs rest)

-- what the choice of a step says in plan mode
abbrev Chooses : TaskPlan → Option String → Dict ToolResult → StepChoice → Type 0
Chooses plan tool outputs (refused code) = Unit
Chooses plan tool outputs (chosen none) = ⊥
Chooses plan tool outputs (chosen (some step)) = IsReady plan tool outputs step

not-false : (b : Bool) → not b ≡ false → b ≡ true
not-false b h = ground arith

check_step-Chooses :
    (plan : TaskPlan) (tool : Option String) (outputs : Dict ToolResult) (found : TaskStep)
    → IsStepOf found plan.steps
    → Chooses plan tool outputs (check_step tool outputs found)
check_step-Chooses plan tool outputs found m =
    let P = Chooses plan tool outputs in
    if_intro P (not (is_some found.tool_name)) {x = refused "non_executable_step"}
      {y = check_tool tool outputs found} tt
      (if_cases P (not (same_tool found.tool_name tool)) {x = refused "plan_tool_mismatch"}
        {y = check_dependencies outputs found} (λ h. tt)
        (λ agrees.
          if_cases P (has_dependency_error found.depends_on outputs)
            {x = refused "dependency_not_satisfied"} {y = chosen (some found)} (λ h. tt)
            (λ done. record {
              planned = m;
              agrees = same_tool-eq found.tool_name tool (not-false _ agrees);
              done = dependencies-done found.depends_on outputs done;
            })))

found_step-Chooses :
    (code : String) (plan : TaskPlan) (tool : Option String) (outputs : Dict ToolResult)
    (o : Option TaskStep)
    → ((step : TaskStep) → o ≡ some step → IsStepOf step plan.steps)
    → Chooses plan tool outputs (found_step code tool outputs o)
found_step-Chooses code plan tool outputs none h = tt
found_step-Chooses code plan tool outputs (some step) h =
    check_step-Chooses plan tool outputs step (h step refl)

planned_step-Chooses :
    (plan : TaskPlan) (id tool : Option String) (outputs : Dict ToolResult)
    → Chooses plan tool outputs (planned_step plan id tool outputs)
planned_step-Chooses plan none tool outputs =
    found_step-Chooses "plan_step_not_found" plan tool outputs
      (next_matching_plan_step tool outputs plan.steps)
      (next_matching-IsStepOf tool outputs plan.steps)
planned_step-Chooses plan (some id) tool outputs =
    found_step-Chooses "unknown_step" plan tool outputs (plan_step_by_id id plan.steps)
      (plan_step_by_id-IsStepOf id plan.steps)

current_plan_step-Chooses :
    (s : LoopState) (d : AssistantDecision) (plan : TaskPlan)
    → is_plan_mode_active s ≡ true
    → s.plan ≡ some plan
    → Chooses plan d.tool_name s.outputs_by_step (current_plan_step s d)
unfolding current_plan_step
current_plan_step-Chooses s d plan on e =
    let choice : current_plan_step s d ≡ step_in_plan s.plan d s.outputs_by_step = rw on refl in
    subst (Chooses plan d.tool_name s.outputs_by_step)
      (sym (choice ∙ ap (λ o. step_in_plan o d s.outputs_by_step) e))
      (planned_step-Chooses plan (given d.step_id) d.tool_name s.outputs_by_step)

module _ (env : Env) (d : AssistantDecision) (call : d.type ≡ tool_call) where
  abbrev Result : TaskPlan → LoopState → Type 0
  Result plan s =
      (step : TaskStep) × IsReady plan d.tool_name s.outputs_by_step step
      × IsAcceptable env.fits env.registry d env.request

  validated-IsReady :
      (s s' : LoopState) (plan : TaskPlan) (step : TaskStep)
      → IsReady plan d.tool_name s.outputs_by_step step
      → validated env d s (some step) (validate_action env.fits env.registry d env.request)
        ≡ some s'
      → s'.agent.tool_calls ≢ s.agent.tool_calls
      → Result plan s
  validated-IsReady s s' plan step r e new =
      let v = validate_action env.fits env.registry d env.request in
      let t = at_step (some step) s in
      elim (Bool-cases v.accepted) [
        | inl ok ↦ (step, r, accepted_call-IsAcceptable env.fits env.registry d env.request call ok)
        | inr bad ↦
            let f : some (reject_action v d t) ≡ some s' =
              ap (λ b. if b then call_tool env d t (some step) else some (reject_action v d t))
                (sym bad)
              ∙ e in
            let same : reject_action v d t ≡ s' = cc in
            absurd (
              new (
                ap (λ (u : LoopState). u.agent.tool_calls) (sym same)
                ∙ ap (λ (c : Core). c.tool_calls) (reject_action-core v d t)))
      ]

  by_choice-IsReady :
      (s s' : LoopState) (plan : TaskPlan) (c : StepChoice)
      → Chooses plan d.tool_name s.outputs_by_step c
      → by_choice env d s c ≡ some s'
      → s'.agent.tool_calls ≢ s.agent.tool_calls
      → Result plan s
  by_choice-IsReady s s' plan (refused code) h e new =
      let same : refuse_step code d s ≡ s' = cc in
      absurd (new (ap (λ (u : LoopState). u.agent.tool_calls) (sym same)))
  by_choice-IsReady s s' plan (chosen none) h e new = absurd h
  by_choice-IsReady s s' plan (chosen (some step)) h e new =
      validated-IsReady s s' plan step h e new

  -- A call that is made in plan mode is for a step of the plan: the tool is the step's, and every
  -- dependency of the step has a result that succeeded. And the call has passed the action validator.
  pub planned_call-IsReady :
      (s s' : LoopState) (plan : TaskPlan)
      → is_plan_mode_active s ≡ true
      → s.plan ≡ some plan
      → execute_tool env d s ≡ some s'
      → s'.agent.tool_calls ≢ s.agent.tool_calls
      → (step : TaskStep) × IsReady plan d.tool_name s.outputs_by_step step
        × IsAcceptable env.fits env.registry d env.request
  unfolding execute_tool
  planned_call-IsReady s s' plan on e run new =
      by_choice-IsReady s s' plan (current_plan_step s d) (current_plan_step-Chooses s d plan on e)
        run new
