-- ===== src/Assistant/Repeats.antt =====
-- The guard on tools that have given their artifact, followed through the rounds of a run.
use runtime_assistant_agent.Base.{
  ℕ, zero, suc, [], ◌∷◌, ◌++◌, contains, length, length-append, ◌⊎◌, String, true, false, ◌≡◌, ◌≢◌,
  refl, ◌∙◌, ap, sym, subst, Option, none, some, get_or, if_intro, inl, inr, arith,
}
use runtime_assistant_agent.Plan.{TaskStep}
use runtime_assistant_agent.Executor.{ToolResult}
use runtime_assistant_agent.Executor.Added.{run_one-Adds}
use runtime_assistant_agent.Assistant.PlanMode.{enter, exit}
use runtime_assistant_agent.Assistant.Execute.{
  StepChoice, chosen, refused, after_result, last_result, reject_action, refuse_step, at_step,
  call_tool, validated, by_choice, execute_tool, current_plan_step, call_of, after_run, with_result,
  step_id_of,
}
use runtime_assistant_agent.Assistant.Executes.{last_result-append}
use runtime_assistant_agent.Assistant.Keeps.{assistant_node-Visited}
use runtime_assistant_agent.Assistant.Succeeded.{
  Shown, shown, HasMade, HasMade-shown, keep_result-HasMade, after_result_keeps,
  after_result-results, reject_action-shown, at_step-shown, exit-shown, enter-shown,
}
use runtime_assistant_agent.LoopGuard.{terminal_tools}
use runtime_assistant_agent.Actions.{AssistantDecision, ActionValidationResult, validate_action}
use runtime_assistant_agent.Assistant.{Env, LoopState, ToolObservation, is_plan_mode_active}
use runtime_assistant_agent.Assistant.Loop.{
  Route, finish, execute, enter_plan, exit_plan, route_after_assistant, assistant_node, run_for,
  follow, go_on,
}
use runtime_assistant_agent.Assistant.NewCalls.{called_tool_is_new}

assistant_node-HasMade :
    (env : Env) (tool : String) (s : LoopState)
    → HasMade tool s
    → HasMade tool (assistant_node env s)
assistant_node-HasMade env tool s h =
    ap (λ tools. contains tools tool) (assistant_node-Visited env s).6 ∙ h

-- What the tool node does: nothing that shows, or a call whose result is added and handled.
abbrev Acts : Env → AssistantDecision → LoopState → LoopState → Type 0
Acts env d s t =
    (shown t ≡ shown s)
    ⊎ ((step : Option TaskStep) × (step_id : String) × (r : ToolResult) × (s' : LoopState)
        × (s'.agent.tool_results ≡ s.agent.tool_results ++ r ∷ [])
        × (s'.guard.succeeded_terminal_tools ≡ s.guard.succeeded_terminal_tools)
        × (t ≡ after_result step step_id (get_or d.tool_name "") (env.observe r) r s'))

module _ (env : Env) (d : AssistantDecision) where
  abbrev Arrives : LoopState → Option LoopState → Type 0
  Arrives s o = (t : LoopState) × (o ≡ some t) × Acts env d s t

  call_tool-Arrives : (s : LoopState) (step : Option TaskStep) → Arrives s (call_tool env d s step)
  call_tool-Arrives s step =
      let tool = get_or d.tool_name "" in
      let q = call_of env step tool (get_or d.tool_input []) (length s.agent.tool_calls) in
      let (a, n, r, e, adds) = run_one-Adds env.retry env.recovery q s.agent in
      let s' = record s { agent = a } in
      let last : last_result a.tool_results ≡ some r =
        ap last_result adds.1 ∙ last_result-append s.agent.tool_results r in
      (
        after_result step (step_id_of step s) tool (env.observe r) r s',
        ap (after_run env step (step_id_of step s) tool s) e
            ∙ ap (with_result env step (step_id_of step s) tool s') last,
        inr (step, step_id_of step s, r, s', adds.1, refl, refl),
      )

  at_step-Acts :
      (s t : LoopState) (step : Option TaskStep) → Acts env d (at_step step s) t → Acts env d s t
  at_step-Acts s t none h = h
  at_step-Acts s t (some step) h = h

  validated-Arrives :
      (s : LoopState) (step : Option TaskStep) (v : ActionValidationResult)
      → Arrives s (validated env d s step v)
  validated-Arrives s step v =
      let u = at_step step s in
      let (t, e, x) = call_tool-Arrives u step in
      if_intro (Arrives s) v.accepted {x = call_tool env d u step} {y = some (reject_action v d u)}
        (t, e, at_step-Acts s t step x)
        (reject_action v d u, refl, inl (reject_action-shown v d u ∙ at_step-shown step s))

  by_choice-Arrives : (s : LoopState) (c : StepChoice) → Arrives s (by_choice env d s c)
  by_choice-Arrives s (refused code) = (refuse_step code d s, refl, inl refl)
  by_choice-Arrives s (chosen step) =
      validated-Arrives s step (validate_action env.fits env.registry d env.request)

  execute_tool-Acts : (s t : LoopState) → execute_tool env d s ≡ some t → Acts env d s t
  unfolding execute_tool
  execute_tool-Acts s t e =
      let (u, f, x) = by_choice-Arrives s (current_plan_step s d) in
      let same : u ≡ t = cc in subst (Acts env d s) same x

  execute_tool_keeps :
      (tool : String) (s t : LoopState)
      → execute_tool env d s ≡ some t
      → HasMade tool s
      → HasMade tool t
  execute_tool_keeps tool s t e h = elim (execute_tool-Acts s t e) [
    | inl idle ↦ HasMade-shown tool s t idle h
    | inr (step, step_id, r, s', added, kept, same) ↦ subst (HasMade tool) (sym same) (
        after_result_keeps step step_id (get_or d.tool_name "") tool (env.observe r) r s'
          (ap (λ tools. contains tools tool) kept ∙ h))
  ]

  -- A call of a terminal tool that has added a success, with its observation, is on record.
  success-HasMade :
      (tool : String) (s t : LoopState) (r : ToolResult) (o : ToolObservation)
      → contains terminal_tools tool ≡ true
      → d.tool_name ≡ some tool
      → execute_tool env d s ≡ some t
      → t.agent.tool_results ≡ s.agent.tool_results ++ r ∷ []
      → r.success ≡ true
      → env.observe r ≡ some o
      → HasMade tool t
  success-HasMade tool s t r o terminal named e added ok seen = elim (execute_tool-Acts s t e) [
    | inl idle ↦ absurd (
        omega (
          arith,
          ap length (sym added ∙ ap (λ (x : Shown). x.results) idle),
          length-append s.agent.tool_results (r ∷ []),
        ))
    | inr (step, step_id, q, s', adds, kept, same) ↦
        let name = get_or d.tool_name "" in
        let results =
          ap (λ (x : LoopState). x.agent.tool_results) same
          ∙ after_result-results step step_id name (env.observe q) q s'
          ∙ adds in
        let last : some q ≡ some r =
          sym (last_result-append s.agent.tool_results q)
          ∙ ap last_result (sym results ∙ added)
          ∙ last_result-append s.agent.tool_results r in
        let result : q ≡ r = cc in
        let handled : t ≡ after_result step step_id tool (some o) q s' =
          same
          ∙ ap (λ x. after_result step step_id (get_or x "") (env.observe q) q s') named
          ∙ ap (λ x. after_result step step_id tool x q s') (ap env.observe result ∙ seen) in
        subst (HasMade tool) (sym handled) (
          keep_result-HasMade step step_id tool q o s' terminal
            (ap (λ (x : ToolResult). x.success) result ∙ ok))
  ]

module _ (env : Env) (tool : String) where
  abbrev Remembers : (LoopState → Option LoopState) → Type 0
  Remembers rest = (t u : LoopState) → HasMade tool t → rest t ≡ some u → HasMade tool u

  go_on-HasMade :
      (rest : LoopState → Option LoopState) (o : Option LoopState) (u : LoopState)
      → Remembers rest
      → ((t : LoopState) → o ≡ some t → HasMade tool t)
      → go_on rest o ≡ some u
      → HasMade tool u
  go_on-HasMade rest none u k h e = cc
  go_on-HasMade rest (some t) u k h e = k t u (h t refl) e

  follow-HasMade :
      (rest : LoopState → Option LoopState) (s u : LoopState) (r : Route)
      → Remembers rest
      → HasMade tool s
      → follow env rest s r ≡ some u
      → HasMade tool u
  follow-HasMade rest s u finish k h e = let same : s ≡ u = cc in subst (HasMade tool) same h
  follow-HasMade rest s u (execute d) k h e =
      go_on-HasMade rest (execute_tool env d s) u k (λ t f. execute_tool_keeps env d tool s t f h) e
  follow-HasMade rest s u (enter_plan d) k h e =
      go_on-HasMade rest (enter env s d.plan) u k
        (λ t f. HasMade-shown tool s t (enter-shown env s t d.plan f) h) e
  follow-HasMade rest s u (exit_plan d) k h e =
      k (exit d s) u (HasMade-shown tool s (exit d s) (exit-shown d s) h) e

  run_for-HasMade : (rounds : ℕ) → Remembers (run_for rounds env)
  unfolding run_for
  run_for-HasMade zero t u h e = let same : t ≡ u = cc in subst (HasMade tool) same h
  run_for-HasMade (suc rounds) t u h e =
      let s = assistant_node env t in
      follow-HasMade (run_for rounds env) s u (route_after_assistant env s) (run_for-HasMade rounds)
        (assistant_node-HasMade env tool t h) e

-- Images and renderings are made once outside plan mode: if a call of one of their tools has added a
-- result that is a success and can be observed, then in every later round of the run in which plan mode
-- is not active at the assistant's decision, no call of this tool is sent to the tool node.
pub terminal_tool_is_not_repeated :
    (env : Env) (tool : String) (d d' : AssistantDecision) (s t u : LoopState) (r : ToolResult)
    (o : ToolObservation) (rounds : ℕ)
    → contains terminal_tools tool ≡ true
    → d.tool_name ≡ some tool
    → execute_tool env d s ≡ some t
    → t.agent.tool_results ≡ s.agent.tool_results ++ r ∷ []
    → r.success ≡ true
    → env.observe r ≡ some o
    → run_for rounds env t ≡ some u
    → is_plan_mode_active (assistant_node env u) ≡ false
    → d'.tool_name ≡ some tool
    → route_after_assistant env (assistant_node env u) ≢ execute d'
terminal_tool_is_not_repeated env tool d d' s t u r o rounds terminal n e added ok seen later off n'
      call =
    let made = success-HasMade env d tool s t r o terminal n e added ok seen in
    let kept = assistant_node-HasMade env tool u (run_for-HasMade env tool rounds t u made later) in
    let new = called_tool_is_new env u d' tool call n' off in
    absurd (ground (arith, kept, terminal, new))
