-- ===== src/Assistant/Guards.antt =====
-- The guards on a proposed decision and the response of a terminal one: `_apply_decision_guards`,
-- `_apply_terminal_decision` and what they call, of agent/assistant_loop_nodes.py. Of a response the
-- message and the question are kept, and a decision of a guard has the guard's code as its reason.
use runtime_assistant_agent.Base.{
  String, Bool, true, false, not, ◌&&◌, ◌||◌, Option, none, some, List, [], ◌∷◌, ◌==◌,
  if◌then◌else◌, get_or, given, is_some, any,
}
use runtime_assistant_agent.Base.Dict.{Dict, lookup}
use runtime_assistant_agent.Base.Strings.{is_in, is_in_lower, has_marker}
use runtime_assistant_agent.Budget.{record_call}
use runtime_assistant_agent.Executor.{ToolResult, completed}
use runtime_assistant_agent.LoopGuard.{
  LoopGuardDecision, record_empty_decision, terminal_tool_already_succeeded,
}
use runtime_assistant_agent.Actions.{
  DecisionType, final_answer, tool_call, ask_followup, AssistantDecision,
}
use runtime_assistant_agent.Assistant.{
  Env, LoopState, ChatResult, set_response, with_status, is_plan_mode_active, mark_plan_mode_status,
  finished, is_failed,
}
use runtime_assistant_agent.Assistant.Decide.{
  answer, is_call, is_final, empty_reason, is_parse_failure, next_result, after_chat,
}
use Prim.Native.String.{len, ◌++◌ as ◌<>◌}

abbrev compare_markers : List String
compare_markers =
    "比价" ∷ "比较价格" ∷ "比较一下价格" ∷ "价格比较" ∷ "哪个便宜" ∷ "哪款便宜" ∷ "最低价" ∷ "最便宜" ∷ "compare price"
    ∷ "price compare" ∷ "cheapest" ∷ []

-- `_request_asks_for_price_compare`
unfoldable pub asks_for_price_compare : String → Bool
asks_for_price_compare text = any (λ m. is_in m text || is_in_lower m text) compare_markers

-- `_latest_successful_tool_result`
abbrev pub latest_success : String → List ToolResult → Option ToolResult
latest_success tool [] = none
latest_success tool (r ∷ rest) = elim (latest_success tool rest) [
  | some later ↦ some later
  | none ↦ if r.tool_name == tool && r.success then some r else none
]

abbrev pub compare_call : Env → ToolResult → Option AssistantDecision
compare_call env r =
    if r.has_items
    then some (record {
      type = tool_call;
      message = none;
      tool_name = some "price_compare";
      tool_input = some (env.compare_input r);
      step_id = none;
      plan = none;
      next_action = none;
      reason = some "用户明确要求比较价格；product_search 已返回候选商品，继续执行 price_compare 后再回答。";
    })
    else none

abbrev pub compare_after : Env → Option ToolResult → Option AssistantDecision
compare_after env none = none
compare_after env (some r) = compare_call env r

-- `_required_price_compare_after_search`
unfoldable pub required_price_compare : Env → LoopState → Option AssistantDecision
required_price_compare env s =
    if not (asks_for_price_compare (get_or env.request.text ""))
    then none
    else if any (λ r. r.tool_name == "price_compare") s.agent.tool_results
    then none
    else compare_after env (latest_success "product_search" s.agent.tool_results)

-- `_repair_price_compare_decision_from_search`
abbrev pub repair_compare : Env → AssistantDecision → AssistantDecision → AssistantDecision
repair_compare env d fallback = record d {
  tool_input = some (env.repair_input (get_or d.tool_input []) (get_or fallback.tool_input []));
  reason = some "用户明确要求比价；使用上一次 product_search 的完整商品对象修复 price_compare 入参。";
}

abbrev pub names_tool : String → AssistantDecision → Bool
names_tool tool d = is_call d.type && get_or d.tool_name "" == tool

abbrev pub is_reason : String → Option String → Bool
is_reason r none = false
is_reason r (some s) = s == r

abbrev pub guard_final_answer : LoopGuardDecision → AssistantDecision
guard_final_answer g = answer final_answer (some "工具调用保护已触发，我已停止继续调用工具。请补充更明确的信息，或稍后重试。") g.code

abbrev pub terminal_tool_called_again : Option String → LoopState → Bool
terminal_tool_called_again none s = false
terminal_tool_called_again (some tool) s =
    not (is_plan_mode_active s) && terminal_tool_already_succeeded tool s.guard

-- the guard on a terminal tool that has already succeeded
abbrev pub guard_terminal : LoopState → AssistantDecision → LoopState × AssistantDecision
guard_terminal s d =
    if is_call d.type && terminal_tool_called_again (given d.tool_name) s
    then (s, answer final_answer none "duplicate_terminal_tool")
    else (s, d)

-- the guard on an answer that is empty
abbrev pub guard_empty : LoopState → AssistantDecision → LoopState × AssistantDecision
guard_empty s d =
    let (g, verdict) = record_empty_decision s.guard in
    if is_reason empty_reason d.reason
    then (if verdict.triggered
        then (record s { guard = g }, guard_final_answer verdict)
        else guard_terminal (record s { guard = g }) d)
    else guard_terminal s d

abbrev pub guard_decision :
    Env → LoopState → AssistantDecision → Option AssistantDecision → LoopState × AssistantDecision
guard_decision env s d none = guard_empty s d
guard_decision env s d (some required) =
    if is_final d.type
    then (s, required)
    else if names_tool "product_search" d
    then (s, required)
    else if names_tool "price_compare" d
    then (s, repair_compare env d required)
    else guard_empty s d

-- `_apply_decision_guards`
unfoldable pub apply_decision_guards :
    Env → LoopState → AssistantDecision → LoopState × AssistantDecision
apply_decision_guards env s d = guard_decision env s d (required_price_compare env s)

abbrev default_message : String
default_message = "已处理请求。"

abbrev with_memory : List String → String → String
with_memory [] message = message
with_memory (m ∷ ms) message = message <> "；参考记忆：" <> m

abbrev direct_message : Env → ChatResult → AssistantDecision → String
direct_message env r d =
    if r.success
    then with_memory env.memory_summaries r.response_text
    else get_or (given d.message) default_message

abbrev call_status : Bool → String
call_status true = "succeeded"
call_status false = "failed"

-- `_set_direct_chat_response`
abbrev pub set_direct_chat_response : Env → AssistantDecision → LoopState → LoopState
set_direct_chat_response env d s =
    let r = next_result env s in
    set_response (record { message = direct_message env r d; followup_question = none })
      (record (after_chat s) {
        agent = record s.agent {
          provider_budget =
              record_call "direct_chat" none (some (len (get_or env.request.text "")))
                (call_status r.success) s.agent.provider_budget;
        };
      })

abbrev legacy_intent_aliases : Dict String
legacy_intent_aliases =
    ("chat", "direct_chat")
    ∷ ("generate_image", "image_generation")
    ∷ ("understand_image", "image_understanding")
    ∷ ("understand_video", "video_understanding")
    ∷ ("search_product", "product_search")
    ∷ ("compare_price", "price_compare")
    ∷ ("render_3d", "render_3d")
    ∷ ("retrieve_memory", "memory_retrieval")
    ∷ ("multi_tool_task", "multi_step_orchestration")
    ∷ ("ask_followup", "ask_followup")
    ∷ ("save_memory", "memory_save")
    ∷ []

-- `canonical_intent` of an intent that it knows
abbrev pub canonical_intent : String → String
canonical_intent intent = get_or (lookup intent legacy_intent_aliases) intent

-- `_is_direct_chat_state`
abbrev pub is_direct_chat : Option String → Bool
is_direct_chat none = false
is_direct_chat (some intent) = canonical_intent intent == "direct_chat"

abbrev technical_markers : List String
technical_markers = "无法解析" ∷ "解析失败" ∷ "格式不完整" ∷ "不是合法" ∷ "JSON" ∷ []

abbrev technical_messages : List String
technical_messages = "原始输出格式不完整" ∷ "无法正常解析" ∷ "助手决策输出格式不完整" ∷ []

-- `_assistant_final_answer_is_technical_failure`
abbrev is_technical_failure : AssistantDecision → Bool
is_technical_failure d =
    has_marker (if is_parse_failure d.reason then technical_markers else technical_messages)
      (get_or d.message "")

-- `_should_preserve_assistant_final_answer`
unfoldable pub should_preserve : Env → AssistantDecision → Bool
should_preserve env d =
    (is_final d.type && is_some (given d.message))
    && (not env.is_mock && not (is_technical_failure d))

abbrev pub is_followup : DecisionType → Bool
is_followup ask_followup = true
is_followup _ = false

abbrev pub has_results : List ToolResult → Bool
has_results [] = false
has_results (r ∷ rs) = true

abbrev pub plain_response : AssistantDecision → LoopState → LoopState
plain_response d s =
    set_response
      (record {
        message = get_or (given d.message) default_message;
        followup_question = if is_followup d.type then d.message else none;
      })
      s

-- `_set_assistant_final_answer_response`
abbrev pub final_response : AssistantDecision → LoopState → LoopState
final_response d s =
    set_response
      (record { message = get_or (given d.message) default_message; followup_question = none }) s

-- what ends a run that has come to an answer
abbrev pub end_run : Env → AssistantDecision → LoopState → LoopState
end_run env d s =
    if is_followup d.type || not (has_results s.agent.tool_results)
    then (if is_direct_chat s.intent then set_direct_chat_response env d s else plain_response d s)
    else if should_preserve env d
    then final_response d s
    else if is_failed s.agent.status
    then s
    else with_status completed s

abbrev pub is_terminal : DecisionType → Bool
is_terminal final_answer = true
is_terminal ask_followup = true
is_terminal _ = false

abbrev pub close_plan : LoopState → LoopState
close_plan s = if is_plan_mode_active s then mark_plan_mode_status finished s else s

-- `_apply_terminal_decision`
unfoldable pub apply_terminal_decision : Env → AssistantDecision → LoopState → LoopState
apply_terminal_decision env d s = if is_terminal d.type then end_run env d (close_plan s) else s
