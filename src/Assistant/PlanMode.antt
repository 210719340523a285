-- ===== src/Assistant/PlanMode.antt =====
-- `apply_plan_mode_transition_node` and what it calls, of agent/assistant_loop_nodes.py. `none` means that
-- the search of the validator ran out of fuel.
use runtime_assistant_agent.Base.{
  suc, String, Bool, false, not, ◌&&◌, ◌||◌, Option, none, some, List, [], ◌∷◌, ◌==◌, if◌then◌else◌,
  get_or, given, is_some, leb,
}
use runtime_assistant_agent.Base.Dict.{Dict, lookup}
use runtime_assistant_agent.Plan.{TaskStep, TaskPlan, PlanValidationResult, validate}
use runtime_assistant_agent.Executor.{ToolResult}
use runtime_assistant_agent.Actions.{AssistantDecision}
use runtime_assistant_agent.Assistant.{
  Env, LoopState, AgentResponse, set_plan, set_response, mark_plan_mode_status, active, finished,
  broken, add_error,
}

abbrev pub has_succeeded : Option ToolResult → Bool
has_succeeded none = false
has_succeeded (some r) = r.success

-- `_next_pending_plan_step_id`
abbrev pub next_pending_plan_step_id : List TaskStep → Dict ToolResult → Option String
next_pending_plan_step_id [] outputs = none
next_pending_plan_step_id (s ∷ rest) outputs =
    let later = next_pending_plan_step_id rest outputs in
    if is_some s.tool_name && not (has_succeeded (lookup s.step_id outputs))
    then some s.step_id
    else later

-- `_fail_plan_mode_transition`
abbrev pub fail_plan_mode_transition : String → LoopState → LoopState
fail_plan_mode_transition code s =
    set_response (record { message = "计划无效"; followup_question = none })
      (add_error code (mark_plan_mode_status broken s))

-- the revisions, once a plan is accepted
abbrev pub count_revision : LoopState → LoopState
count_revision s =
    if is_some s.plan then record s { plan_revision_count = suc s.plan_revision_count } else s

abbrev pub ask_for_followup : TaskPlan → LoopState → LoopState
ask_for_followup plan s =
    if plan.requires_followup
    then set_response
        (record {
          message = get_or (given plan.followup_question) "请补充必要信息后我再继续。";
          followup_question = plan.followup_question;
        })
        s
    else s

-- the plan that was accepted takes the place of the old one
abbrev pub adopt_plan : TaskPlan → LoopState → LoopState
adopt_plan plan s =
    let s' = set_plan plan (count_revision s) in
    let step =
      if plan.requires_followup
      then none
      else next_pending_plan_step_id plan.steps s.outputs_by_step in
    ask_for_followup plan (
      mark_plan_mode_status (if plan.requires_followup then finished else active)
        (record s' { current_step_id = step }))

abbrev pub by_verdict : TaskPlan → LoopState → Option PlanValidationResult → Option LoopState
by_verdict plan s none = none
by_verdict plan s (some v) =
    some (if v.accepted then adopt_plan plan s else fail_plan_mode_transition v.code s)

-- `_enter_plan_mode`, with the decision's plan
abbrev pub enter : Env → LoopState → Option TaskPlan → Option LoopState
enter env s none = some (fail_plan_mode_transition "planner_output_invalid" s)
enter env s (some plan) =
    if is_some s.plan && leb env.max_plan_revisions s.plan_revision_count
    then some (fail_plan_mode_transition "plan_revision_limit_exceeded" s)
    else by_verdict plan s (validate env.max_plan_steps plan env.registry)

abbrev next_action : AssistantDecision → String
next_action d = get_or (given d.next_action) "continue"

-- whether leaving plan mode ends the run
abbrev pub exit_answers : AssistantDecision → Bool
exit_answers d = next_action d == "final_answer" || next_action d == "ask_followup"

abbrev pub exit_response : AssistantDecision → AgentResponse
exit_response d = record {
  message = get_or (given d.message) "已处理请求。";
  followup_question = if next_action d == "ask_followup" then d.message else none;
}

abbrev pub leave_plan : LoopState → LoopState
leave_plan s = mark_plan_mode_status finished (record s { current_step_id = none })

-- `_exit_plan_mode`
abbrev pub exit : AssistantDecision → LoopState → LoopState
exit d s = if exit_answers d then set_response (exit_response d) (leave_plan s) else leave_plan s
