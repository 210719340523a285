-- ===== src/Assistant/Staying.antt =====
-- Decisions that do not leave plan mode.
use runtime_assistant_agent.Base.{
  ℕ, suc, String, false, ◌≡◌, refl, Option, none, some, List, [], ◌∷◌, given, if_intro, arith,
  get_elem?, length,
}
use runtime_assistant_agent.Base.Strings.{strip_text}
use runtime_assistant_agent.Plan.{TaskPlan, TaskStep}
use runtime_assistant_agent.Executor.{ToolResult}
use runtime_assistant_agent.LoopGuard.{record_empty_decision}
use runtime_assistant_agent.Actions.{AssistantDecision}
use runtime_assistant_agent.Assistant.{Env, LoopState, ChatResult, NativeToolCall, AgentResponse}
use runtime_assistant_agent.Assistant.Decide.{
  from_llm_output, interpret, native_decision, native_final_decision, final_text, repaired,
  raw_output, final_after_limit, keep_to_limit, read_result, retry_overflow, decide_with_llm,
  decide_with_mock_plan, mock_decision, next_step_decision, next_result, after_chat,
  executable_steps, ensure_rule_plan,
}
use runtime_assistant_agent.Assistant.Guards.{
  guard_terminal, guard_empty, guard_decision, compare_after, apply_decision_guards,
  required_price_compare, latest_success,
}
use runtime_assistant_agent.Assistant.Loop.{
  assistant_node, decided, has_answer, decide_next_action, guarded, old_answer,
}
use runtime_assistant_agent.Assistant.Rounds.{is_exit}

-- a decision that does not leave plan mode
abbrev pub Stays : AssistantDecision → Type 0
Stays d = is_exit d.type ≡ false

guard_terminal-Stays :
    (s : LoopState) (d : AssistantDecision) → Stays d → Stays (guard_terminal s d).1
guard_terminal-Stays s d h = ground arith

guard_empty-Stays : (s : LoopState) (d : AssistantDecision) → Stays d → Stays (guard_empty s d).1
guard_empty-Stays s d h = ground (
  arith,
  guard_terminal-Stays s d h,
  guard_terminal-Stays (record s { guard = (record_empty_decision s.guard).0 }) d h,
)

-- what is read off a text that is read so
from_llm_output-Stays :
    (env : Env) (text : String) → Stays (env.parse text) → Stays (from_llm_output env text)
from_llm_output-Stays env text h = ground (arith, h)

final_text-Stays : (env : Env) (raw : String) → Stays (env.parse raw) → Stays (final_text env raw)
final_text-Stays env raw h = ground (arith, from_llm_output-Stays env raw h)

native_final_decision-Stays :
    (env : Env) (o : Option String) (text : String)
    → Stays (env.parse (strip_text text))
    → Stays (native_final_decision env o text)
native_final_decision-Stays env none text h = final_text-Stays env (strip_text text) h
native_final_decision-Stays env (some refusal) text h = refl

native_decision-Stays :
    (env : Env) (r : ChatResult) (calls : List NativeToolCall)
    → Stays (env.parse (strip_text r.response_text))
    → Stays (native_decision env r calls)
native_decision-Stays env r [] h =
    native_final_decision-Stays env (given r.refusal) r.response_text h
native_decision-Stays env r (call ∷ calls) h = refl

module _ (env : Env) (parsed : (n : ℕ) → is_exit (env.parse (raw_output (env.chat n))).type ≡ false)
    (stripped : (n : ℕ)
      → is_exit (env.parse (strip_text (env.chat n).response_text)).type ≡ false) where
  interpret-Stays : (n : ℕ) → Stays (interpret env (env.chat n))
  interpret-Stays n = ground (
    arith,
    native_decision-Stays env (env.chat n) (env.chat n).tool_calls (stripped n),
    from_llm_output-Stays env (raw_output (env.chat n)) (parsed n),
  )

  repaired-Stays : (n : ℕ) (d : AssistantDecision) → Stays d → Stays (repaired env (env.chat n) d)
  repaired-Stays n d h =
      ground (arith, from_llm_output-Stays env (raw_output (env.chat n)) (parsed n))

  final_after_limit-Stays : (n : ℕ) → Stays (final_after_limit env (env.chat n))
  final_after_limit-Stays n =
      ground (arith, from_llm_output-Stays env (raw_output (env.chat n)) (parsed n))

  keep_to_limit-Stays :
      (s : LoopState) (d : AssistantDecision) → Stays d → Stays (keep_to_limit env s d).1
  keep_to_limit-Stays s d h = ground (arith, final_after_limit-Stays s.chats)

  read_result-Stays : (s : LoopState) (n : ℕ) → Stays (read_result env s (env.chat n)).1
  read_result-Stays s n =
      let d = interpret env (env.chat n) in
      ground (
        arith,
        keep_to_limit-Stays (after_chat s) (repaired env (next_result env s) d)
            (repaired-Stays s.chats d (interpret-Stays n)),
        keep_to_limit-Stays s d (interpret-Stays n),
      )

  retry_overflow-Stays : (s : LoopState) → Stays (retry_overflow env s).1
  retry_overflow-Stays s =
      let s' = after_chat (record s { overflow_retries = suc s.overflow_retries }) in
      ground (arith, read_result-Stays s' s.chats)

  decide_with_llm-Stays : (s : LoopState) → Stays (decide_with_llm env s).1
  unfolding decide_with_llm
  decide_with_llm-Stays s =
      ground (arith, retry_overflow-Stays (after_chat s), read_result-Stays (after_chat s) s.chats)

  next_step_decision-Stays :
      (s : LoopState) (o : Option TaskStep) → Stays (next_step_decision env s o)
  next_step_decision-Stays s none = refl
  next_step_decision-Stays s (some step) = refl

  mock_decision-Stays : (s : LoopState) (o : Option TaskPlan) → Stays (mock_decision env s o)
  mock_decision-Stays s none = refl
  mock_decision-Stays s (some plan) = ground (
    arith,
    next_step_decision-Stays s (get_elem? (executable_steps plan) (length s.agent.tool_results)),
  )

  decide_with_mock_plan-Stays : (s : LoopState) → Stays (decide_with_mock_plan env s)
  unfolding decide_with_mock_plan
  decide_with_mock_plan-Stays s = ground (arith, mock_decision-Stays s s.plan)

  decide_next_action-Stays : (s : LoopState) → Stays (decide_next_action env s).1
  unfolding decide_next_action
  decide_next_action-Stays s =
      ground (arith, decide_with_llm-Stays s, decide_with_mock_plan-Stays (ensure_rule_plan env s))

  compare_after-Stays :
      (o : Option ToolResult) (d : AssistantDecision) → compare_after env o ≡ some d → Stays d
  compare_after-Stays none d e = cc
  compare_after-Stays (some r) d e = ground arith

  required-Stays :
      (s : LoopState) (d : AssistantDecision) → required_price_compare env s ≡ some d → Stays d
  unfolding required_price_compare
  required-Stays s d e =
      ground (arith, compare_after-Stays (latest_success "product_search" s.agent.tool_results) d)

  guard_decision-Stays :
      (s : LoopState) (d : AssistantDecision) (o : Option AssistantDecision)
      → Stays d
      → ((r : AssistantDecision) → o ≡ some r → Stays r)
      → Stays (guard_decision env s d o).1
  guard_decision-Stays s d none h k = guard_empty-Stays s d h
  guard_decision-Stays s d (some required) h k =
      ground (arith, k required refl, guard_empty-Stays s d h)

  -- the last decision of a state does not leave plan mode
  abbrev pub Decides : LoopState → Type 0
  Decides t = (d : AssistantDecision) × (t.decision ≡ some d) × Stays d

  guarded-Decides : (s : LoopState) (d : AssistantDecision) → Stays d → Decides (guarded env (s, d))
  unfolding apply_decision_guards
  guarded-Decides s d h =
      let o = required_price_compare env s in
      ((guard_decision env s d o).1, refl, guard_decision-Stays s d o h (required-Stays s))

  old_answer-Decides :
      (s : LoopState) (o : Option AgentResponse) → Decides (decided (old_answer o) s)
  old_answer-Decides s none = (old_answer none, refl, refl)
  old_answer-Decides s (some r) = (old_answer (some r), refl, refl)

  pub assistant_node-Decides : (s : LoopState) → Decides (assistant_node env s)
  unfolding assistant_node
  assistant_node-Decides s =
      let p = decide_next_action env s in
      if_intro Decides (has_answer s) {x = decided (old_answer s.response) s} {y = guarded env p}
        (old_answer-Decides s s.response) (guarded-Decides p.0 p.1 (decide_next_action-Stays s))
