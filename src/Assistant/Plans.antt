-- ===== src/Assistant/Plans.antt =====
-- The plan of a run that asks a model.
use runtime_assistant_agent.Base.{
  ℕ, zero, suc, ◌<◌, ◌≤◌, true, false, ◌≡◌, refl, ◌∙◌, ap, sym, subst, Option, none, some,
  if◌then◌else◌, if_intro, inl, inr, arith, length, All,
}
use runtime_assistant_agent.Budget.{ProviderCallBudget}
use runtime_assistant_agent.Plan.{step_ids, TaskPlan, PlanValidationResult, validate}
use runtime_assistant_agent.Plan.Validate.{IsKnown, HasOrder, accepted_plan_is_executable}
use runtime_assistant_agent.Actions.{AssistantDecision}
use runtime_assistant_agent.Assistant.{Env, LoopState, ChatResult, start}
use runtime_assistant_agent.Assistant.Decide.{
  interpret, read_result, keep_to_limit, retry_overflow, decide_with_llm, after_chat, next_result,
  repaired, ensure_rule_plan, decide_with_mock_plan,
}
use runtime_assistant_agent.Assistant.Guards.{
  guard_decision, apply_decision_guards, end_run, close_plan, apply_terminal_decision,
  required_price_compare,
}
use runtime_assistant_agent.Assistant.PlanMode.{exit}
use runtime_assistant_agent.Assistant.Loop.{
  Route, finish, execute, enter_plan, exit_plan, route_after_assistant, assistant_node, run_loop,
  follow, go_on, decided, guarded, decide_next_action, has_answer, old_answer,
}
use runtime_assistant_agent.Assistant.Executes.{Core, exit-core, execute_tool-Comes}
use runtime_assistant_agent.Assistant.Rounds.{Entered, enter-Enters}

module _ (env : Env) where
  keep_to_limit-plan :
      (s : LoopState) (d : AssistantDecision) → (keep_to_limit env s d).0.plan ≡ s.plan
  keep_to_limit-plan s d = ground arith

  read_result-plan : (s : LoopState) (r : ChatResult) → (read_result env s r).0.plan ≡ s.plan
  read_result-plan s r = ground (
    arith,
    keep_to_limit-plan (after_chat s) (repaired env (next_result env s) (interpret env r)),
    keep_to_limit-plan s (interpret env r),
  )

  retry_overflow-plan : (s : LoopState) → (retry_overflow env s).0.plan ≡ s.plan
  retry_overflow-plan s =
      let s' = after_chat (record s { overflow_retries = suc s.overflow_retries }) in
      ground (arith, read_result-plan s' (next_result env s))

  decide_with_llm-plan : (s : LoopState) → (decide_with_llm env s).0.plan ≡ s.plan
  unfolding decide_with_llm
  decide_with_llm-plan s = ground (
    arith,
    retry_overflow-plan (after_chat s),
    read_result-plan (after_chat s) (next_result env s),
  )

  guard_decision-plan :
      (s : LoopState) (d : AssistantDecision) (o : Option AssistantDecision)
      → (guard_decision env s d o).0.plan ≡ s.plan
  guard_decision-plan s d none = ground arith
  guard_decision-plan s d (some required) = ground arith

  end_run-plan : (d : AssistantDecision) (s : LoopState) → (end_run env d s).plan ≡ s.plan
  end_run-plan d s = ground arith

  terminal-plan :
      (d : AssistantDecision) (s : LoopState) → (apply_terminal_decision env d s).plan ≡ s.plan
  unfolding apply_terminal_decision
  terminal-plan d s = ground (arith, end_run-plan d (close_plan s))

  guarded-plan :
      (s : LoopState) (p : LoopState × AssistantDecision)
      → p.0.plan ≡ s.plan
      → (guarded env p).plan ≡ s.plan
  unfolding apply_decision_guards
  guarded-plan s (s', d) e =
      let g = guard_decision env s' d (required_price_compare env s') in
      terminal-plan g.1 g.0 ∙ guard_decision-plan s' d (required_price_compare env s') ∙ e

  -- A plan that the run has was accepted by the validator.
  abbrev IsValidated : LoopState → Type 0
  IsValidated s =
      (plan : TaskPlan)
      → s.plan ≡ some plan
      → (v : PlanValidationResult) × (validate env.max_plan_steps plan env.registry ≡ some v)
        × (v.accepted ≡ true)

  same_plan-IsValidated : (s t : LoopState) → t.plan ≡ s.plan → IsValidated s → IsValidated t
  same_plan-IsValidated s t e h plan f = h plan (sym e ∙ f)

  Entered-IsValidated : (s t : LoopState) → Entered env s t → IsValidated s → IsValidated t
  Entered-IsValidated s t (i, c, inl r) h = same_plan-IsValidated s t r.1 h
  Entered-IsValidated s t (i, c, inr (plan, v, p, e, ok, revised, room)) h = λ plan' f.
      let same : plan ≡ plan' = cc in
      (v, ap (λ q. validate env.max_plan_steps q env.registry) (sym same) ∙ e, ok)

  module _ (online : env.is_mock ≡ false) where
    assistant_node-plan : (s : LoopState) → (assistant_node env s).plan ≡ s.plan
    unfolding assistant_node decide_next_action
    assistant_node-plan s =
        let mode : decide_next_action env s ≡ decide_with_llm env s =
          ap
            (λ b.
              if b
              then (ensure_rule_plan env s, decide_with_mock_plan env (ensure_rule_plan env s))
              else decide_with_llm env s)
            online in
        let decide =
          ap (λ (p : LoopState × AssistantDecision). p.0.plan) mode ∙ decide_with_llm-plan s in
        if_intro (λ (t : LoopState). t.plan ≡ s.plan) (has_answer s)
          {x = decided (old_answer s.response) s} {y = guarded env (decide_next_action env s)} refl
          (guarded-plan s (decide_next_action env s) decide)

    abbrev Kept : (LoopState → Option LoopState) → Type 0
    Kept rest = (t s' : LoopState) → IsValidated t → rest t ≡ some s' → IsValidated s'

    follow-IsValidated :
        (rest : LoopState → Option LoopState) (s s' : LoopState) (r : Route)
        → Kept rest
        → IsValidated s
        → follow env rest s r ≡ some s'
        → IsValidated s'
    follow-IsValidated rest s s' finish k h e = let q : s ≡ s' = cc in subst IsValidated q h
    follow-IsValidated rest s s' (execute d) k h e =
        let (t, f, x) = execute_tool-Comes env d s in
        k t s' (same_plan-IsValidated s t x.0 h) (sym (ap (go_on rest) f) ∙ e)
    follow-IsValidated rest s s' (enter_plan d) k h e =
        let (t, f, x) = enter-Enters env s d.plan in
        k t s' (Entered-IsValidated s t x h) (sym (ap (go_on rest) f) ∙ e)
    follow-IsValidated rest s s' (exit_plan d) k h e =
        k (exit d s) s'
          (same_plan-IsValidated s (exit d s) (ap (λ (c : Core). c.plan) (exit-core d s)) h) e

    run_loop-IsValidated : (fuel : ℕ) → Kept (run_loop fuel env)
    unfolding run_loop
    run_loop-IsValidated zero t s' h e = cc
    run_loop-IsValidated (suc fuel) t s' h e =
        let s = assistant_node env t in
        follow-IsValidated (run_loop fuel env) s s' (route_after_assistant env s)
          (run_loop-IsValidated fuel) (same_plan-IsValidated t s (assistant_node-plan t) h) e

    -- The plan that an online run ends with, where it needs no follow-up, can be carried out: it has
    -- between one and the allowed number of steps, its steps depend on its own steps and name tools of
    -- the registry only, and there is an order of all of them that meets the dependencies.
    pub plan_of_run_is_executable :
        (fuel : ℕ) (budget : ProviderCallBudget) (s : LoopState) (plan : TaskPlan)
        → run_loop fuel env (start budget) ≡ some s
        → s.plan ≡ some plan
        → plan.requires_followup ≡ false
        → (0 < length plan.steps)
          × (length plan.steps ≤ env.max_plan_steps)
          × All (IsKnown (step_ids plan.steps) env.registry) plan.steps
          × HasOrder plan.steps
    plan_of_run_is_executable fuel budget s plan e p q =
        let valid = run_loop-IsValidated fuel (start budget) s (λ plan h. absurd cc) e in
        let (v, f, ok) = valid plan p in
        let x = accepted_plan_is_executable env.max_plan_steps plan env.registry v q ok f in
        (x.0, x.1, x.3, x.6)
