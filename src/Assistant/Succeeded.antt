-- ===== src/Assistant/Succeeded.antt =====
-- The terminal tools that the guard has on record as succeeded, over the rounds of a run.
use runtime_assistant_agent.Base.{
  leb, suc, String, Bool, true, false, not, ◌&&◌, ◌||◌, ◌≡◌, refl, ◌∙◌, ap, Option, none, some,
  List, [], ◌∷◌, ◌++◌, if◌then◌else◌, is_some, contains, if_intro, arith, eq_refl,
}
use runtime_assistant_agent.Base.Dict.{insert}
use runtime_assistant_agent.Plan.{TaskStep, TaskPlan, PlanValidationResult, validate}
use runtime_assistant_agent.Executor.{ToolResult, is_optional}
use runtime_assistant_agent.Executor as Run
use runtime_assistant_agent.LoopGuard.{
  LoopGuard, LoopGuardDecision, terminal_tools, add_once, record_terminal_tool_success,
  record_validation_rejection, record_tool_result,
}
use runtime_assistant_agent.Actions.{AssistantDecision, ActionValidationResult}
use runtime_assistant_agent.Assistant.{
  Env, LoopState, ToolObservation, is_plan_mode_active, mark_plan_mode_status, active, replanning,
  finished, is_failed, with_status, set_response, add_error,
}
use runtime_assistant_agent.Assistant.PlanMode.{
  next_pending_plan_step_id, exit, exit_answers, exit_response, leave_plan, enter, by_verdict,
  adopt_plan, ask_for_followup, count_revision, fail_plan_mode_transition,
}
use runtime_assistant_agent.Assistant.Execute.{
  reopen, note_success, stop_repeated, note_result, advance_plan, advance, keep_result,
  after_result, stop_on, reject_action, at_step,
}

-- what is on record of a run: the results, and the terminal tools that have succeeded
pub record Shown : Type 0 where
  pub results : List ToolResult
  pub succeeded : List String

abbrev pub shown : LoopState → Shown
shown s = record { results = s.agent.tool_results; succeeded = s.guard.succeeded_terminal_tools }

-- A terminal tool is on record as succeeded.
abbrev pub HasMade : String → LoopState → Type 0
HasMade tool s = contains s.guard.succeeded_terminal_tools tool ≡ true

pub HasMade-shown :
    (tool : String) (s s' : LoopState) → shown s' ≡ shown s → HasMade tool s → HasMade tool s'
HasMade-shown tool s s' e h = ap (λ (x : Shown). contains x.succeeded tool) e ∙ h

of_shown :
    (x : Shown) (b : Bool) (s t : LoopState)
    → shown s ≡ x
    → shown t ≡ x
    → shown (if b then s else t) ≡ x
of_shown x true s t h k = h
of_shown x false s t h k = k

contains-append :
    (xs ys : List String) (y : String) → contains (xs ++ ys) y ≡ (contains xs y || contains ys y)
contains-append [] ys y = refl
contains-append (x ∷ xs) ys y = ground (arith, contains-append xs ys y)

add_once_self : (tool : String) (tools : List String) → contains (add_once tool tools) tool ≡ true
add_once_self tool tools = ground (arith, contains-append tools (tool ∷ []) tool, eq_refl tool)

add_once_keeps :
    (tool t : String) (tools : List String)
    → contains tools t ≡ true
    → contains (add_once tool tools) t ≡ true
add_once_keeps tool t tools h = ground (arith, contains-append tools (tool ∷ []) t, h)

note_success-results :
    (tool : String) (r : ToolResult) (s : LoopState)
    → (note_success tool r s).agent.tool_results ≡ s.agent.tool_results
note_success-results tool r s =
    if_intro (λ (t : LoopState). t.agent.tool_results ≡ s.agent.tool_results) r.success
      {x = record s { guard = record_terminal_tool_success tool s.guard }} {y = s} refl refl

recorded :
    (tool : String) (g : LoopGuard)
    → contains terminal_tools tool ≡ true
    → contains (record_terminal_tool_success tool g).succeeded_terminal_tools tool ≡ true
recorded tool g h = rw h (add_once_self tool g.succeeded_terminal_tools)

recorded_before :
    (tool t : String) (g : LoopGuard)
    → contains g.succeeded_terminal_tools t ≡ true
    → contains (record_terminal_tool_success tool g).succeeded_terminal_tools t ≡ true
recorded_before tool t g h =
    if_intro (λ (x : LoopGuard). contains x.succeeded_terminal_tools t ≡ true)
      (contains terminal_tools tool)
      {x = record g { succeeded_terminal_tools = add_once tool g.succeeded_terminal_tools }} {y = g}
      (add_once_keeps tool t g.succeeded_terminal_tools h) h

note_success-HasMade :
    (tool : String) (r : ToolResult) (s : LoopState)
    → contains terminal_tools tool ≡ true
    → r.success ≡ true
    → HasMade tool (note_success tool r s)
note_success-HasMade tool r s h k = rw k (recorded tool s.guard h)

note_success_keeps :
    (tool t : String) (r : ToolResult) (s : LoopState)
    → HasMade t s
    → HasMade t (note_success tool r s)
note_success_keeps tool t r s h =
    if_intro (HasMade t) r.success
      {x = record s { guard = record_terminal_tool_success tool s.guard }} {y = s}
      (recorded_before tool t s.guard h) h

reopen-shown : (r : ToolResult) (s : LoopState) → shown (reopen r s) ≡ shown s
reopen-shown r s =
    of_shown (shown s) (is_plan_mode_active s && (not r.success && is_failed s.agent.status))
      (mark_plan_mode_status replanning (with_status Run.active s)) s refl refl

stop_repeated-shown : (v : LoopGuardDecision) (s : LoopState) → shown (stop_repeated v s) ≡ shown s
stop_repeated-shown v s =
    of_shown (shown s)
      (v.triggered && (not (is_plan_mode_active s) && not (is_failed s.agent.status)))
      (set_response (record { message = "执行失败，我已停止重复调用并保留当前结果。"; followup_question = none }) s) s
      refl refl

record_tool_result-succeeded :
    (tool : String) (success : Bool) (g : LoopGuard)
    → (record_tool_result tool success g).0.succeeded_terminal_tools ≡ g.succeeded_terminal_tools
unfolding record_tool_result
record_tool_result-succeeded tool true g = refl
record_tool_result-succeeded tool false g = refl

note_result-shown :
    (step : Option TaskStep) (tool : String) (r : ToolResult) (s : LoopState)
    → shown (note_result step tool r s) ≡ shown s
note_result-shown step tool r s =
    let verdict = record_tool_result tool r.success s.guard in
    let s' = record s { guard = verdict.0 } in
    of_shown (shown s) (is_optional step) s (stop_repeated verdict.1 s') refl (
      stop_repeated-shown verdict.1 s'
      ∙ ap (λ (x : List String). record { results = s.agent.tool_results; succeeded = x })
          (record_tool_result-succeeded tool r.success s.guard))

advance_plan-shown :
    (plan : Option TaskPlan) (r : ToolResult) (s : LoopState)
    → shown (advance_plan plan r s) ≡ shown s
advance_plan-shown none r s = refl
advance_plan-shown (some plan) r s =
    let next = next_pending_plan_step_id plan.steps s.outputs_by_step in
    of_shown (shown s) r.success
      (mark_plan_mode_status (if is_some next then active else finished)
        (record s { current_step_id = next }))
      (mark_plan_mode_status replanning s) refl refl

advance-shown :
    (step : Option TaskStep) (r : ToolResult) (s : LoopState) → shown (advance step r s) ≡ shown s
advance-shown none r s = refl
advance-shown (some step) r s = advance_plan-shown s.plan r s

-- what the handling of a result leaves after the note of a success
keep_result-shown :
    (step : Option TaskStep) (step_id tool : String) (r : ToolResult) (o : ToolObservation)
    (s : LoopState)
    → shown (keep_result step step_id tool r o s) ≡ shown (note_success tool r (reopen r s))
keep_result-shown step step_id tool r o s =
    let s' = note_result step tool r (note_success tool r (reopen r s)) in
    advance-shown step r (record s' { outputs_by_step = insert step_id r s'.outputs_by_step })
    ∙ note_result-shown step tool r (note_success tool r (reopen r s))

pub keep_result-HasMade :
    (step : Option TaskStep) (step_id tool : String) (r : ToolResult) (o : ToolObservation)
    (s : LoopState)
    → contains terminal_tools tool ≡ true
    → r.success ≡ true
    → HasMade tool (keep_result step step_id tool r o s)
keep_result-HasMade step step_id tool r o s h k =
    HasMade-shown tool (note_success tool r (reopen r s)) (keep_result step step_id tool r o s)
      (keep_result-shown step step_id tool r o s) (note_success-HasMade tool r (reopen r s) h k)

pub after_result_keeps :
    (step : Option TaskStep) (step_id tool t : String) (o : Option ToolObservation) (r : ToolResult)
    (s : LoopState)
    → HasMade t s
    → HasMade t (after_result step step_id tool o r s)
after_result_keeps step step_id tool t none r s h = h
after_result_keeps step step_id tool t (some o) r s h =
    HasMade-shown t (note_success tool r (reopen r s)) (keep_result step step_id tool r o s)
      (keep_result-shown step step_id tool r o s)
      (note_success_keeps tool t r (reopen r s)
        (HasMade-shown t s (reopen r s) (reopen-shown r s) h))

pub after_result-results :
    (step : Option TaskStep) (step_id tool : String) (o : Option ToolObservation) (r : ToolResult)
    (s : LoopState)
    → (after_result step step_id tool o r s).agent.tool_results ≡ s.agent.tool_results
after_result-results step step_id tool none r s = refl
after_result-results step step_id tool (some o) r s =
    ap (λ (x : Shown). x.results) (keep_result-shown step step_id tool r o s)
    ∙ note_success-results tool r (reopen r s)
    ∙ ap (λ (x : Shown). x.results) (reopen-shown r s)

stop_on-shown : (b : Bool) (m : String) (s : LoopState) → shown (stop_on b m s) ≡ shown s
stop_on-shown true m s = refl
stop_on-shown false m s = refl

rejection-succeeded :
    (code : String) (g : LoopGuard)
    → (record_validation_rejection code g).0.succeeded_terminal_tools ≡ g.succeeded_terminal_tools
rejection-succeeded code g = ground arith

pub reject_action-shown :
    (v : ActionValidationResult) (d : AssistantDecision) (s : LoopState)
    → shown (reject_action v d s) ≡ shown s
reject_action-shown v d s =
    let verdict = record_validation_rejection v.code s.guard in
    stop_on-shown verdict.1.triggered "我没有执行这个工具调用"
      (record (add_error v.code s) { guard = verdict.0 })
    ∙ ap (λ (x : List String). record { results = s.agent.tool_results; succeeded = x })
        (rejection-succeeded v.code s.guard)

pub at_step-shown : (step : Option TaskStep) (s : LoopState) → shown (at_step step s) ≡ shown s
at_step-shown none s = refl
at_step-shown (some step) s = refl

pub exit-shown : (d : AssistantDecision) (s : LoopState) → shown (exit d s) ≡ shown s
exit-shown d s =
    of_shown (shown s) (exit_answers d) (set_response (exit_response d) (leave_plan s))
      (leave_plan s) refl refl

count_revision-shown : (s : LoopState) → shown (count_revision s) ≡ shown s
count_revision-shown s =
    of_shown (shown s) (is_some s.plan)
      (record s { plan_revision_count = suc s.plan_revision_count }) s refl refl

ask_for_followup-shown :
    (plan : TaskPlan) (s : LoopState) → shown (ask_for_followup plan s) ≡ shown s
ask_for_followup-shown plan s =
    of_shown (shown s) plan.requires_followup (set_response _ s) s refl refl

adopt_plan-shown : (plan : TaskPlan) (s : LoopState) → shown (adopt_plan plan s) ≡ shown s
adopt_plan-shown plan s = ask_for_followup-shown plan _ ∙ count_revision-shown s

by_verdict-shown :
    (plan : TaskPlan) (s t : LoopState) (o : Option PlanValidationResult)
    → by_verdict plan s o ≡ some t
    → shown t ≡ shown s
by_verdict-shown plan s t none e = cc
by_verdict-shown plan s t (some v) e =
    let same : t ≡ (if v.accepted then adopt_plan plan s else fail_plan_mode_transition v.code s) =
      cc in
    ap shown same
    ∙ of_shown (shown s) v.accepted (adopt_plan plan s) (fail_plan_mode_transition v.code s)
        (adopt_plan-shown plan s) refl

failed-shown :
    (code : String) (s t : LoopState)
    → some (fail_plan_mode_transition code s) ≡ some t
    → shown t ≡ shown s
failed-shown code s t e = let same : t ≡ fail_plan_mode_transition code s = cc in ap shown same

pub enter-shown :
    (env : Env) (s t : LoopState) (o : Option TaskPlan) → enter env s o ≡ some t → shown t ≡ shown s
enter-shown env s t none e = failed-shown "planner_output_invalid" s t e
enter-shown env s t (some plan) e =
    if_intro (λ (o : Option LoopState). o ≡ some t → shown t ≡ shown s)
      (is_some s.plan && leb env.max_plan_revisions s.plan_revision_count)
      {x = some (fail_plan_mode_transition "plan_revision_limit_exceeded" s)}
      {y = by_verdict plan s (validate env.max_plan_steps plan env.registry)}
      (failed-shown "plan_revision_limit_exceeded" s t)
      (by_verdict-shown plan s t (validate env.max_plan_steps plan env.registry)) e
