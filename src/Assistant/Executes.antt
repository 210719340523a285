-- ===== src/Assistant/Executes.antt =====
-- What a call of a tool leaves as it is, and that it comes to an end.
use runtime_assistant_agent.Base.{
  ℕ, suc, ◌≤◌, String, Bool, true, false, not, ◌&&◌, ◌≡◌, refl, ◌∙◌, ap, Option, none, some, List,
  [], ◌∷◌, ◌++◌, length, if◌then◌else◌, is_some, get_or, if_intro, arith,
}
use runtime_assistant_agent.Base.Dict.{insert}
use runtime_assistant_agent.Plan.{TaskStep, TaskPlan}
use runtime_assistant_agent.Executor.{AgentState, ToolCall, ToolResult, is_optional}
use runtime_assistant_agent.Executor as Run
use runtime_assistant_agent.Executor.Added.{run_one-Adds}
use runtime_assistant_agent.LoopGuard.{
  LoopGuardDecision, record_terminal_tool_success, record_validation_rejection, record_tool_result,
}
use runtime_assistant_agent.Actions.{AssistantDecision, ActionValidationResult, validate_action}
use runtime_assistant_agent.Assistant.{
  Env, LoopState, ToolObservation, is_plan_mode_active, mark_plan_mode_status, active, replanning,
  finished, is_failed, with_status, set_response, add_error,
}
use runtime_assistant_agent.Assistant.PlanMode.{
  next_pending_plan_step_id, exit, exit_answers, exit_response, leave_plan,
}
use runtime_assistant_agent.Assistant.Execute.{
  StepChoice, chosen, refused, reopen, note_success, stop_repeated, note_result, advance_plan,
  advance, keep_result, after_result, last_result, stop_on, reject_action, refuse_step, at_step,
  call_tool, validated, by_choice, execute_tool, current_plan_step, call_of, after_run, with_result,
  step_id_of,
}

-- what the handling of a result keeps
pub record Core : Type 0 where
  pub plan : Option TaskPlan
  pub revisions : ℕ
  pub iterations : ℕ
  pub tool_calls : List ToolCall

abbrev pub core : LoopState → Core
core s = record {
  plan = s.plan;
  revisions = s.plan_revision_count;
  iterations = s.iterations;
  tool_calls = s.agent.tool_calls;
}

-- one branch or the other has the core
pub of_core :
    (c : Core) (b : Bool) (x y : LoopState)
    → core x ≡ c
    → core y ≡ c
    → core (if b then x else y) ≡ c
of_core c true x y h k = h
of_core c false x y h k = k

reopen-core : (r : ToolResult) (s : LoopState) → core (reopen r s) ≡ core s
reopen-core r s =
    of_core (core s) (is_plan_mode_active s && (not r.success && is_failed s.agent.status))
      (mark_plan_mode_status replanning (with_status Run.active s)) s refl refl

note_success-core :
    (tool : String) (r : ToolResult) (s : LoopState) → core (note_success tool r s) ≡ core s
note_success-core tool r s =
    of_core (core s) r.success (record s { guard = record_terminal_tool_success tool s.guard }) s
      refl refl

stop_repeated-core : (v : LoopGuardDecision) (s : LoopState) → core (stop_repeated v s) ≡ core s
stop_repeated-core v s =
    of_core (core s)
      (v.triggered && (not (is_plan_mode_active s) && not (is_failed s.agent.status)))
      (set_response (record { message = "执行失败，我已停止重复调用并保留当前结果。"; followup_question = none }) s) s
      refl refl

note_result-core :
    (step : Option TaskStep) (tool : String) (r : ToolResult) (s : LoopState)
    → core (note_result step tool r s) ≡ core s
note_result-core step tool r s =
    let verdict = record_tool_result tool r.success s.guard in
    of_core (core s) (is_optional step) s (stop_repeated verdict.1 (record s { guard = verdict.0 }))
      refl (stop_repeated-core verdict.1 (record s { guard = verdict.0 }))

advance_plan-core :
    (plan : Option TaskPlan) (r : ToolResult) (s : LoopState)
    → core (advance_plan plan r s) ≡ core s
advance_plan-core none r s = refl
advance_plan-core (some plan) r s =
    let next = next_pending_plan_step_id plan.steps s.outputs_by_step in
    of_core (core s) r.success
      (mark_plan_mode_status (if is_some next then active else finished)
        (record s { current_step_id = next }))
      (mark_plan_mode_status replanning s) refl refl

advance-core :
    (step : Option TaskStep) (r : ToolResult) (s : LoopState) → core (advance step r s) ≡ core s
advance-core none r s = refl
advance-core (some step) r s = advance_plan-core s.plan r s

keep_result-core :
    (step : Option TaskStep) (step_id tool : String) (r : ToolResult) (o : ToolObservation)
    (s : LoopState)
    → core (keep_result step step_id tool r o s) ≡ core s
keep_result-core step step_id tool r o s =
    let s' = note_result step tool r (note_success tool r (reopen r s)) in
    advance-core step r (record s' { outputs_by_step = insert step_id r s'.outputs_by_step })
    ∙ note_result-core step tool r (note_success tool r (reopen r s))
    ∙ note_success-core tool r (reopen r s)
    ∙ reopen-core r s

after_result-core :
    (step : Option TaskStep) (step_id tool : String) (o : Option ToolObservation) (r : ToolResult)
    (s : LoopState)
    → core (after_result step step_id tool o r s) ≡ core s
after_result-core step step_id tool none r s = refl
after_result-core step step_id tool (some o) r s = keep_result-core step step_id tool r o s

stop_on-core : (b : Bool) (m : String) (s : LoopState) → core (stop_on b m s) ≡ core s
stop_on-core true m s = refl
stop_on-core false m s = refl

pub reject_action-core :
    (v : ActionValidationResult) (d : AssistantDecision) (s : LoopState)
    → core (reject_action v d s) ≡ core s
reject_action-core v d s =
    let verdict = record_validation_rejection v.code s.guard in
    stop_on-core verdict.1.triggered "我没有执行这个工具调用"
      (record (add_error v.code s) { guard = verdict.0 })

pub at_step-core : (step : Option TaskStep) (s : LoopState) → core (at_step step s) ≡ core s
at_step-core none s = refl
at_step-core (some step) s = refl

pub exit-core : (d : AssistantDecision) (s : LoopState) → core (exit d s) ≡ core s
exit-core d s =
    of_core (core s) (exit_answers d) (set_response (exit_response d) (leave_plan s)) (leave_plan s)
      refl refl

pub last_result-append :
    (rs : List ToolResult) (r : ToolResult) → last_result (rs ++ r ∷ []) ≡ some r
last_result-append [] r = refl
last_result-append (q ∷ []) r = refl
last_result-append (q ∷ p ∷ rest) r = last_result-append (p ∷ rest) r

-- What a visit of the tool node leaves: at most one call more, and the plan, its revisions and the
-- count of iterations as they were.
abbrev pub Executed : LoopState → LoopState → Type 0
Executed s s' =
    (s'.plan ≡ s.plan)
    × (s'.plan_revision_count ≡ s.plan_revision_count)
    × (s'.iterations ≡ s.iterations)
    × (length s'.agent.tool_calls ≤ suc (length s.agent.tool_calls))

Executed-of_core : (s s' : LoopState) → core s' ≡ core s → Executed s s'
Executed-of_core s s' e = (
  ap (λ (c : Core). c.plan) e,
  ap (λ (c : Core). c.revisions) e,
  ap (λ (c : Core). c.iterations) e,
  omega (arith, ap (λ (c : Core). length c.tool_calls) e),
)

Executed-core : (s t s' : LoopState) → core t ≡ core s → Executed t s' → Executed s s'
Executed-core s t s' e x = (
  x.0 ∙ ap (λ (c : Core). c.plan) e,
  x.1 ∙ ap (λ (c : Core). c.revisions) e,
  x.2 ∙ ap (λ (c : Core). c.iterations) e,
  omega (arith, x.3, ap (λ (c : Core). length c.tool_calls) e),
)

-- A step of the loop comes to a state with a property.
abbrev Comes : LoopState → Option LoopState → Type 0
Comes s o = (s' : LoopState) × (o ≡ some s') × Executed s s'

module _ (env : Env) (d : AssistantDecision) where
  call_tool-Comes : (s : LoopState) (step : Option TaskStep) → Comes s (call_tool env d s step)
  call_tool-Comes s step =
      let tool = get_or d.tool_name "" in
      let q = call_of env step tool (get_or d.tool_input []) (length s.agent.tool_calls) in
      let (a, n, r, e, adds) = run_one-Adds env.retry env.recovery q s.agent in
      let s' = record s { agent = a } in
      let last : last_result a.tool_results ≡ some r =
        ap last_result adds.1 ∙ last_result-append s.agent.tool_results r in
      let kept = after_result-core step (step_id_of step s) tool (env.observe r) r s' in
      (
        after_result step (step_id_of step s) tool (env.observe r) r s',
        ap (after_run env step (step_id_of step s) tool s) e
            ∙ ap (with_result env step (step_id_of step s) tool s') last,
        (
          ap (λ (c : Core). c.plan) kept,
          ap (λ (c : Core). c.revisions) kept,
          ap (λ (c : Core). c.iterations) kept,
          omega (arith, adds.0, ap (λ (c : Core). length c.tool_calls) kept),
        ),
      )

  validated-Comes :
      (s : LoopState) (step : Option TaskStep) (v : ActionValidationResult)
      → Comes s (validated env d s step v)
  validated-Comes s step v =
      let t = at_step step s in
      let (s', e, x) = call_tool-Comes t step in
      if_intro (Comes s) v.accepted {x = call_tool env d t step} {y = some (reject_action v d t)}
        (s', e, Executed-core s t s' (at_step-core step s) x)
        (
          reject_action v d t,
          refl,
          Executed-of_core s (reject_action v d t) (reject_action-core v d t ∙ at_step-core step s),
        )

  by_choice-Comes : (s : LoopState) (c : StepChoice) → Comes s (by_choice env d s c)
  by_choice-Comes s (refused code) =
      (refuse_step code d s, refl, Executed-of_core s (refuse_step code d s) refl)
  by_choice-Comes s (chosen step) =
      validated-Comes s step (validate_action env.fits env.registry d env.request)

  pub execute_tool-Comes :
      (s : LoopState) → (s' : LoopState) × (execute_tool env d s ≡ some s') × Executed s s'
  unfolding execute_tool
  execute_tool-Comes s = by_choice-Comes s (current_plan_step s d)
