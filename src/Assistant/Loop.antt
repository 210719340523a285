-- ===== src/Assistant/Loop.antt =====
-- `assistant_node` and `route_after_assistant` of agent/assistant_loop_nodes.py, and the loop of nodes
-- that agent/assistant_loop_graph.py builds, from the assistant to its end. A round is a visit of the
-- assistant and what its decision leads to. The loop takes fuel, one for each round, and `none` means that
-- it ran out.
use runtime_assistant_agent.Base.{
  ℕ, zero, suc, Bool, false, Option, none, some, if◌then◌else◌, given, is_some, leb,
}
use runtime_assistant_agent.Actions.{
  DecisionType, final_answer, tool_call, enter_plan_mode, exit_plan_mode, AssistantDecision,
}
use runtime_assistant_agent.Assistant.{Env, LoopState, AgentResponse, is_completed, is_failed}
use runtime_assistant_agent.Assistant.Decide.{
  answer, decide_with_llm, ensure_rule_plan, decide_with_mock_plan,
}
use runtime_assistant_agent.Assistant.Guards.{apply_decision_guards, apply_terminal_decision}
use runtime_assistant_agent.Assistant.PlanMode.{enter, exit}
use runtime_assistant_agent.Assistant.Execute.{execute_tool}

abbrev pub decided : AssistantDecision → LoopState → LoopState
decided d s = record s { decision = some d; iterations = suc s.iterations }

-- `_decide_next_action`, behind the rule plan of an offline run
unfoldable pub decide_next_action : Env → LoopState → LoopState × AssistantDecision
decide_next_action env s =
    if env.is_mock
    then (ensure_rule_plan env s, decide_with_mock_plan env (ensure_rule_plan env s))
    else decide_with_llm env s

abbrev pub guarded : Env → LoopState × AssistantDecision → LoopState
guarded env (s, d) =
    let (s', d') = apply_decision_guards env s d in decided d' (apply_terminal_decision env d' s')

abbrev pub has_answer : LoopState → Bool
has_answer s = if is_completed s.agent.status then is_some s.response else false

abbrev pub old_answer : Option AgentResponse → AssistantDecision
old_answer none = answer final_answer none "Run already completed before the next assistant turn."
old_answer (some r) =
    answer final_answer (some r.message) "Run already completed before the next assistant turn."

unfoldable pub assistant_node : Env → LoopState → LoopState
assistant_node env s =
    if has_answer s
    then decided (old_answer s.response) s
    else guarded env (decide_next_action env s)

-- where the graph goes from the assistant
pub data Route : Type 0 where
  finish : Route
  execute : AssistantDecision → Route
  enter_plan : AssistantDecision → Route
  exit_plan : AssistantDecision → Route

abbrev pub route_call : Env → LoopState → AssistantDecision → Route
route_call env s d =
    if leb env.max_tool_iterations s.iterations
    then finish
    else if is_some (given d.tool_name)
    then execute d
    else finish

-- the routes by the type of the decision
abbrev pub route_type : Env → LoopState → AssistantDecision → DecisionType → Route
route_type env s d enter_plan_mode = enter_plan d
route_type env s d exit_plan_mode = exit_plan d
route_type env s d tool_call = route_call env s d
route_type env s d _ = finish

abbrev pub route_decision : Env → LoopState → Option AssistantDecision → Route
route_decision env s none = finish
route_decision env s (some d) = route_type env s d d.type

-- `route_after_assistant`
unfoldable pub route_after_assistant : Env → LoopState → Route
route_after_assistant env s =
    if is_failed s.agent.status
    then finish
    else if is_completed s.agent.status
    then finish
    else route_decision env s s.decision

abbrev pub go_on : (LoopState → Option LoopState) → Option LoopState → Option LoopState
go_on rest none = none
go_on rest (some s) = rest s

abbrev pub follow : Env → (LoopState → Option LoopState) → LoopState → Route → Option LoopState
follow env rest s finish = some s
follow env rest s (execute d) = go_on rest (execute_tool env d s)
follow env rest s (enter_plan d) = go_on rest (enter env s d.plan)
follow env rest s (exit_plan d) = rest (exit d s)

unfoldable pub run_loop : ℕ → Env → LoopState → Option LoopState
run_loop zero env s = none
run_loop (suc fuel) env s =
    let s' = assistant_node env s in
    follow env (run_loop fuel env) s' (route_after_assistant env s')

-- the state after some rounds, or at the end where the run has ended before
unfoldable pub run_for : ℕ → Env → LoopState → Option LoopState
run_for zero env s = some s
run_for (suc rounds) env s =
    let s' = assistant_node env s in
    follow env (run_for rounds env) s' (route_after_assistant env s')
