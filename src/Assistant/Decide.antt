-- ===== src/Assistant/Decide.antt =====
-- How the next action is decided: `_decide_with_llm`, `_decide_with_mock_plan` and what they call, of
-- agent/assistant_loop_nodes.py, with `from_llm_output` and `to_assistant_decision` of
-- schemas/assistant_decision.py. Left out are the finish reason that is added to a reason, the number in
-- the text at the limit, and the words around the action in the reason of a planned call.
use runtime_assistant_agent.Base.{
  suc, String, Bool, true, false, not, ◌&&◌, Option, none, some, List, [], ◌∷◌, ◌==◌, if◌then◌else◌,
  get_or, given, is_some, leb, ltb, length, get_elem?, filter_if, contains, any,
}
use runtime_assistant_agent.Base.Strings.{is_blank, strip_text, is_in}
use runtime_assistant_agent.Plan.{TaskStep, TaskPlan}
use runtime_assistant_agent.Actions.{
  DecisionType, final_answer, tool_call, ask_followup, AssistantDecision,
}
use runtime_assistant_agent.Assistant.{
  NativeToolCall, ChatResult, Env, LoopState, set_plan, with_status,
}
use runtime_assistant_agent.Executor as Run

abbrev checked_text : Bool → Option String → Option String
checked_text false message = message
checked_text true message = if is_blank (get_or message "") then some "已处理请求。" else message

-- `validate_message`: an answer or a question without a text is given one
abbrev pub validate_message : DecisionType → Option String → Option String
validate_message final_answer message = checked_text true message
validate_message ask_followup message = checked_text true message
validate_message type message = checked_text false message

abbrev pub answer : DecisionType → Option String → String → AssistantDecision
answer type message reason = record {
  type = type;
  message = validate_message type message;
  tool_name = none;
  tool_input = none;
  step_id = none;
  plan = none;
  next_action = none;
  reason = some reason;
}

abbrev pub is_call : DecisionType → Bool
is_call tool_call = true
is_call _ = false

abbrev pub is_final : DecisionType → Bool
is_final final_answer = true
is_final _ = false

abbrev pub empty_reason : String
empty_reason = "Empty or whitespace-only output."

-- `AssistantDecision.from_llm_output`
abbrev pub from_llm_output : Env → String → AssistantDecision
from_llm_output env text =
    if is_blank text then answer final_answer (some "已处理请求。") empty_reason else env.parse text

-- `NativeToolCall.to_assistant_decision`
abbrev pub to_assistant_decision : NativeToolCall → AssistantDecision
to_assistant_decision call = record {
  type = tool_call;
  message = none;
  tool_name = some call.name;
  tool_input = some call.arguments;
  step_id = none;
  plan = none;
  next_action = none;
  reason = some "Provider-native tool call (openai_compatible).";
}

abbrev provider_context_overflow_codes : List String
provider_context_overflow_codes =
    "provider_context_overflow" ∷ "context_length_exceeded" ∷ "context_overflow" ∷ "input_too_large"
    ∷ "provider_request_too_large" ∷ "provider_input_size_exceeded" ∷ []

-- `_is_provider_context_overflow_result`
abbrev pub is_overflow : ChatResult → Bool
is_overflow r = any (λ code. contains provider_context_overflow_codes code) r.error_codes

-- `_looks_like_assistant_decision_json`
abbrev looks_like_json : String → Bool
looks_like_json text = is_in "{" text && is_in "\"type\"" text

abbrev pub final_text : Env → String → AssistantDecision
final_text env raw =
    if looks_like_json raw
    then from_llm_output env raw
    else if raw == ""
    then answer final_answer (some "模型没有返回可用回答。") "Provider finished without content or tool calls."
    else answer final_answer (some raw) "Provider finished without requesting another tool."

-- `_native_final_decision`, with the refusal of the result
abbrev pub native_final_decision : Env → Option String → String → AssistantDecision
native_final_decision env (some refusal) text =
    answer final_answer (some refusal) "Provider returned a refusal instead of a tool call."
native_final_decision env none text = final_text env (strip_text text)

abbrev pub native_decision : Env → ChatResult → List NativeToolCall → AssistantDecision
native_decision env r (call ∷ calls) = to_assistant_decision call
native_decision env r [] = native_final_decision env (given r.refusal) r.response_text

abbrev pub uses_native : Env → Bool
uses_native env = env.native_tools && not env.is_mock

abbrev pub raw_output : ChatResult → String
raw_output r = if r.success then r.response_text else ""

abbrev pub interpret : Env → ChatResult → AssistantDecision
interpret env r =
    if uses_native env && r.success
    then native_decision env r r.tool_calls
    else from_llm_output env (raw_output r)

abbrev parse_failures : List String
parse_failures =
    "JSON parsing failed, treated as final_answer."
    ∷ "JSON was not an object, treated as final_answer."
    ∷ "No valid JSON found, treated as final_answer." ∷ []

-- `_is_parse_failure_reason`
abbrev pub is_parse_failure : Option String → Bool
is_parse_failure none = false
is_parse_failure (some reason) = contains parse_failures reason

-- `_should_repair_llm_decision`
abbrev pub should_repair : String → AssistantDecision → Bool
should_repair raw d = (not (is_blank raw) && is_in "{" raw) && is_parse_failure d.reason

-- `chat_adapter.chat`: the next answer of the model
abbrev pub next_result : Env → LoopState → ChatResult
next_result env s = env.chat s.chats

abbrev pub after_chat : LoopState → LoopState
after_chat s = record s { chats = suc s.chats }

-- `_repair_llm_decision`, by the answer to the chat
abbrev pub repaired : Env → ChatResult → AssistantDecision → AssistantDecision
repaired env r fallback =
    let d = from_llm_output env (raw_output r) in if is_parse_failure d.reason then fallback else d

-- `_max_iteration_final_answer`
abbrev pub max_iteration_final_answer : AssistantDecision
max_iteration_final_answer = answer final_answer (some "已达到最大工具调用次数，这是我能提供的最好回答。") "安全限制：防止无限工具调用循环"

-- `_request_final_answer_after_tool_limit`, by the answer to the chat
abbrev pub final_after_limit : Env → ChatResult → AssistantDecision
final_after_limit env r =
    let d = from_llm_output env (raw_output r) in
    if is_final d.type && is_some (given d.message) then d else max_iteration_final_answer

-- a tool call that would reach the limit
abbrev pub at_limit : Env → LoopState → AssistantDecision → Bool
at_limit env s d = is_call d.type && leb env.max_tool_iterations (suc s.iterations)

abbrev pub keep_to_limit : Env → LoopState → AssistantDecision → LoopState × AssistantDecision
keep_to_limit env s d =
    if at_limit env s d then (after_chat s, final_after_limit env (next_result env s)) else (s, d)

-- what `_decide_with_llm` makes of an answer
abbrev pub read_result : Env → LoopState → ChatResult → LoopState × AssistantDecision
read_result env s r =
    let d = interpret env r in
    if should_repair (raw_output r) d
    then keep_to_limit env (after_chat s) (repaired env (next_result env s) d)
    else keep_to_limit env s d

abbrev pub overflow_answer : AssistantDecision
overflow_answer =
    answer final_answer (some "模型上下文超出限制，已尝试压缩后重试一次但仍失败。请缩短输入或拆分任务后再试。")
      "Provider context overflow persisted after one compaction retry."

-- the second chat, after a context that was too large
abbrev pub retry_overflow : Env → LoopState → LoopState × AssistantDecision
retry_overflow env s =
    let s' = after_chat (record s { overflow_retries = suc s.overflow_retries }) in
    if is_overflow (next_result env s)
    then (s', overflow_answer)
    else read_result env s' (next_result env s)

-- `_decide_with_llm`
unfoldable pub decide_with_llm : Env → LoopState → LoopState × AssistantDecision
decide_with_llm env s =
    let r = next_result env s in
    if is_overflow r && ltb s.overflow_retries 1
    then retry_overflow env (after_chat s)
    else read_result env (after_chat s) r

abbrev pub know_intent : Env → LoopState → LoopState
know_intent env s =
    if is_some s.intent
    then s
    else with_status Run.active (record s { intent = some env.detected_intent })

-- `_ensure_rule_plan`
unfoldable pub ensure_rule_plan : Env → LoopState → LoopState
ensure_rule_plan env s =
    let s' = know_intent env s in if is_some s.plan then s' else set_plan env.rule_plan s'

abbrev pub executable_steps : TaskPlan → List TaskStep
executable_steps plan = filter_if (λ s. is_some s.tool_name) plan.steps

abbrev pub next_step_decision : Env → LoopState → Option TaskStep → AssistantDecision
next_step_decision env s none = answer final_answer none "计划步骤已执行完毕，交给响应合成器生成最终答复。"
next_step_decision env s (some step) = record {
  type = tool_call;
  message = none;
  tool_name = step.tool_name;
  tool_input = some (env.build_tool_input step s.outputs_by_step);
  step_id = none;
  plan = none;
  next_action = none;
  reason = some step.action;
}

-- `_mock_assistant_decision_from_plan`
abbrev pub mock_decision : Env → LoopState → Option TaskPlan → AssistantDecision
mock_decision env s none =
    answer final_answer (some "离线计划不可用，无法选择下一步工具。")
      "_decide_with_mock_plan(...) requires state.plan from the rule router."
mock_decision env s (some plan) =
    if plan.requires_followup
    then answer ask_followup (some (get_or (given plan.followup_question) "请补充你想让我处理的对象或目标。"))
        "计划缺少必要输入，需要追问用户。"
    else next_step_decision env s (get_elem? (executable_steps plan) (length s.agent.tool_results))

-- `_decide_with_mock_plan`
unfoldable pub decide_with_mock_plan : Env → LoopState → AssistantDecision
decide_with_mock_plan env s =
    let d = mock_decision env s s.plan in if at_limit env s d then max_iteration_final_answer else d
