-- ===== src/Assistant/Execute.antt =====
-- `execute_requested_tool_node` and what it calls, of agent/assistant_loop_nodes.py. `none` means that the
-- executor's loop of retries ran out of fuel.
use Prim.Native.Nat.{◌-◌, ◌/◌, ◌%◌}
use runtime_assistant_agent.Base.{
  ℕ, zero, suc, String, Bool, true, false, not, ◌&&◌, Option, none, some, List, [], ◌∷◌, ◌==◌,
  if◌then◌else◌, get_or, given, is_some, ltb, length, get_elem?, any,
}
use runtime_assistant_agent.Base.Dict.{Dict, lookup, insert}
use runtime_assistant_agent.Plan.{TaskStep, TaskPlan}
use runtime_assistant_agent.Executor.{AgentState, ToolResult, Call, run_tool, is_optional}
use runtime_assistant_agent.Executor as Run
use runtime_assistant_agent.LoopGuard.{
  LoopGuardDecision, record_terminal_tool_success, record_validation_rejection, record_tool_result,
}
use runtime_assistant_agent.Actions.{
  Value, AssistantDecision, ActionValidationResult, validate_action,
}
use runtime_assistant_agent.Assistant.{
  Env, LoopState, ToolObservation, set_response, with_status, is_plan_mode_active,
  mark_plan_mode_status, active, replanning, finished, add_error, add_observation,
  rejected_observation, is_failed,
}
use runtime_assistant_agent.Assistant.Decide.{executable_steps}
use runtime_assistant_agent.Assistant.PlanMode.{has_succeeded, next_pending_plan_step_id}
use Prim.Native.String.{◌++◌ as ◌<>◌}

-- the step that a call is for, or the code of the observation that rejects it
pub data StepChoice : Type 0 where
  chosen : Option TaskStep → StepChoice
  refused : String → StepChoice

abbrev pub same_tool : Option String → Option String → Bool
same_tool none none = true
same_tool (some a) (some b) = a == b
same_tool _ _ = false

-- `_plan_step_by_id`
abbrev pub plan_step_by_id : String → List TaskStep → Option TaskStep
plan_step_by_id step_id [] = none
plan_step_by_id step_id (s ∷ rest) =
    let later = plan_step_by_id step_id rest in if s.step_id == step_id then some s else later

-- `_next_matching_plan_step`
abbrev pub next_matching_plan_step :
    Option String → Dict ToolResult → List TaskStep → Option TaskStep
next_matching_plan_step tool outputs [] = none
next_matching_plan_step tool outputs (s ∷ rest) =
    let later = next_matching_plan_step tool outputs rest in
    if same_tool s.tool_name tool && not (has_succeeded (lookup s.step_id outputs))
    then some s
    else later

-- `_dependency_error`, as whether there is one
abbrev pub has_dependency_error : List String → Dict ToolResult → Bool
has_dependency_error depends_on outputs =
    any (λ d. not (has_succeeded (lookup d outputs))) depends_on

abbrev pub check_dependencies : Dict ToolResult → TaskStep → StepChoice
check_dependencies outputs step =
    if has_dependency_error step.depends_on outputs
    then refused "dependency_not_satisfied"
    else chosen (some step)

abbrev pub check_tool : Option String → Dict ToolResult → TaskStep → StepChoice
check_tool tool outputs step =
    if not (same_tool step.tool_name tool)
    then refused "plan_tool_mismatch"
    else check_dependencies outputs step

-- the checks of `_current_plan_step` on a step that was found
abbrev pub check_step : Option String → Dict ToolResult → TaskStep → StepChoice
check_step tool outputs step =
    if not (is_some step.tool_name)
    then refused "non_executable_step"
    else check_tool tool outputs step

abbrev pub found_step : String → Option String → Dict ToolResult → Option TaskStep → StepChoice
found_step code tool outputs none = refused code
found_step code tool outputs (some step) = check_step tool outputs step

abbrev pub planned_step : TaskPlan → Option String → Option String → Dict ToolResult → StepChoice
planned_step plan (some step_id) tool outputs =
    found_step "unknown_step" tool outputs (plan_step_by_id step_id plan.steps)
planned_step plan none tool outputs =
    found_step "plan_step_not_found" tool outputs (next_matching_plan_step tool outputs plan.steps)

abbrev first_of_tool : String → List TaskStep → Option TaskStep
first_of_tool tool [] = none
first_of_tool tool (s ∷ rest) =
    let later = first_of_tool tool rest in
    if same_tool s.tool_name (some tool) then some s else later

abbrev is_for_tool : String → Option TaskStep → Bool
is_for_tool tool none = false
is_for_tool tool (some s) = same_tool s.tool_name (some tool)

abbrev min : ℕ → ℕ → ℕ
min a b = if ltb b a then b else a

abbrev legacy_step : List TaskStep → ℕ → String → Option TaskStep
legacy_step steps result_count tool =
    let here = get_elem? steps (min result_count (length steps - 1)) in
    if is_for_tool tool here then here else first_of_tool tool steps

-- `_legacy_current_plan_step`
abbrev pub legacy_current_plan_step : Option TaskPlan → ℕ → Option String → Option TaskStep
legacy_current_plan_step none result_count tool = none
legacy_current_plan_step (some plan) result_count none = none
legacy_current_plan_step (some plan) result_count (some tool) =
    legacy_step (executable_steps plan) result_count tool

abbrev pub step_in_plan : Option TaskPlan → AssistantDecision → Dict ToolResult → StepChoice
step_in_plan none d outputs = chosen none
step_in_plan (some plan) d outputs = planned_step plan (given d.step_id) d.tool_name outputs

-- `_current_plan_step`
unfoldable pub current_plan_step : LoopState → AssistantDecision → StepChoice
current_plan_step s d =
    if not (is_plan_mode_active s)
    then chosen (legacy_current_plan_step s.plan (length s.agent.tool_results) d.tool_name)
    else step_in_plan s.plan d s.outputs_by_step

abbrev tool_or_unknown : AssistantDecision → String
tool_or_unknown d = get_or (given d.tool_name) "unknown"

abbrev pub refuse_step : String → AssistantDecision → LoopState → LoopState
refuse_step code d s =
    add_observation (rejected_observation (tool_or_unknown d) code) (add_error code s)

abbrev pub stop_on : Bool → String → LoopState → LoopState
stop_on true message s = set_response (record { message = message; followup_question = none }) s
stop_on false message s = s

-- the branch of an action that the validator rejects
abbrev pub reject_action : ActionValidationResult → AssistantDecision → LoopState → LoopState
reject_action v d s =
    let (g, verdict) = record_validation_rejection v.code s.guard in
    add_observation (rejected_observation (tool_or_unknown d) v.code)
      (stop_on verdict.triggered "我没有执行这个工具调用" (record (add_error v.code s) { guard = g }))

-- `_advance_plan_after_tool_result`
abbrev pub advance_plan : Option TaskPlan → ToolResult → LoopState → LoopState
advance_plan none r s = s
advance_plan (some plan) r s =
    let next = next_pending_plan_step_id plan.steps s.outputs_by_step in
    if r.success
    then mark_plan_mode_status (if is_some next then active else finished)
        (record s { current_step_id = next })
    else mark_plan_mode_status replanning s

abbrev pub advance : Option TaskStep → ToolResult → LoopState → LoopState
advance none r s = s
advance (some step) r s = advance_plan s.plan r s

-- a failed call in plan mode does not end the run
abbrev pub reopen : ToolResult → LoopState → LoopState
reopen r s =
    if is_plan_mode_active s && (not r.success && is_failed s.agent.status)
    then mark_plan_mode_status replanning (with_status Run.active s)
    else s

abbrev pub note_success : String → ToolResult → LoopState → LoopState
note_success tool r s =
    if r.success then record s { guard = record_terminal_tool_success tool s.guard } else s

abbrev pub stop_repeated : LoopGuardDecision → LoopState → LoopState
stop_repeated verdict s =
    if verdict.triggered && (not (is_plan_mode_active s) && not (is_failed s.agent.status))
    then set_response (record { message = "执行失败，我已停止重复调用并保留当前结果。"; followup_question = none }) s
    else s

abbrev pub note_result : Option TaskStep → String → ToolResult → LoopState → LoopState
note_result step tool r s =
    let (g, verdict) = record_tool_result tool r.success s.guard in
    if is_optional step then s else stop_repeated verdict (record s { guard = g })

abbrev pub keep_result :
    Option TaskStep → String → String → ToolResult → ToolObservation → LoopState → LoopState
keep_result step step_id tool r o s =
    let s' = note_result step tool r (note_success tool r (reopen r s)) in
    add_observation o
      (advance step r (record s' { outputs_by_step = insert step_id r s'.outputs_by_step }))

-- what follows a call that gave a result; without an observation an exception was raised
abbrev pub after_result :
    Option TaskStep → String → String → Option ToolObservation → ToolResult → LoopState → LoopState
after_result step step_id tool none r s =
    add_observation (rejected_observation tool "tool_exception") (add_error "tool_exception" s)
after_result step step_id tool (some o) r s = keep_result step step_id tool r o s

-- the result that a call has added
abbrev pub last_result : List ToolResult → Option ToolResult
last_result [] = none
last_result (r ∷ []) = some r
last_result (r ∷ q ∷ rest) = last_result (q ∷ rest)

abbrev pub with_result :
    Env → Option TaskStep → String → String → LoopState → Option ToolResult → Option LoopState
with_result env step step_id tool s none = none
with_result env step step_id tool s (some r) =
    some (after_result step step_id tool (env.observe r) r s)

abbrev pub after_run :
    Env → Option TaskStep → String → String → LoopState → Option (AgentState × ℕ) → Option LoopState
after_run env step step_id tool s none = none
after_run env step step_id tool s (some (a, n)) =
    with_result env step step_id tool (record s { agent = a }) (last_result a.tool_results)

abbrev digits : List String
digits = "0" ∷ "1" ∷ "2" ∷ "3" ∷ "4" ∷ "5" ∷ "6" ∷ "7" ∷ "8" ∷ "9" ∷ []

-- a number's decimal digits before a text; as much fuel as the number, and one, is enough
abbrev decimal : ℕ → ℕ → String → String
decimal zero n rest = rest
decimal (suc fuel) n rest =
    let out = get_or (get_elem? digits (n % 10)) "" <> rest in
    let more = decimal fuel (n / 10) out in if ltb n 10 then out else more

-- the step id of a call that is for no step
abbrev loop_step_id : ℕ → String
loop_step_id n = "assistant_loop_" <> decimal (suc n) n ""

abbrev pub step_id_of : Option TaskStep → LoopState → String
step_id_of none s = loop_step_id (suc (length s.observations))
step_id_of (some step) s = step.step_id

abbrev pub at_step : Option TaskStep → LoopState → LoopState
at_step none s = s
at_step (some step) s = record s { current_step_id = some step.step_id }

abbrev pub call_of : Env → Option TaskStep → String → Dict Value → ℕ → Call
call_of env step tool input number = record {
  tool_name = tool;
  step = step;
  estimated_cost = env.estimated_cost tool input;
  input_size_bytes = env.input_size_bytes tool input;
  attempts = env.attempts tool input number;
}

-- the call of a tool that the validator accepts
abbrev pub call_tool : Env → AssistantDecision → LoopState → Option TaskStep → Option LoopState
call_tool env d s step =
    let tool = get_or d.tool_name "" in
    let input = get_or d.tool_input [] in
    after_run env step (step_id_of step s) tool s (
      run_tool (suc env.retry.max_retries) env.retry env.recovery
        (call_of env step tool input (length s.agent.tool_calls)) s.agent)

abbrev pub validated :
    Env
    → AssistantDecision
    → LoopState
    → Option TaskStep
    → ActionValidationResult
    → Option LoopState
validated env d s step v =
    let s' = at_step step s in
    if v.accepted then call_tool env d s' step else some (reject_action v d s')

abbrev pub by_choice : Env → AssistantDecision → LoopState → StepChoice → Option LoopState
by_choice env d s (refused code) = some (refuse_step code d s)
by_choice env d s (chosen step) =
    validated env d s step (validate_action env.fits env.registry d env.request)

-- `execute_requested_tool_node`, at a decision that calls a tool
unfoldable pub execute_tool : Env → AssistantDecision → LoopState → Option LoopState
execute_tool env d s = by_choice env d s (current_plan_step s d)
