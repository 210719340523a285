-- ===== src/Assistant/Keeps.antt =====
-- What a visit of the assistant leaves as it is.
use runtime_assistant_agent.Base.{
  ℕ, suc, String, Bool, true, false, not, ◌||◌, ◌≡◌, refl, ◌∙◌, ap, Option, none, some, List,
  if◌then◌else◌, is_some, if_intro, Bool-cases, inl, inr,
}
use runtime_assistant_agent.Base.Dict.{Dict}
use runtime_assistant_agent.Executor.{ToolCall, ToolResult, completed}
use runtime_assistant_agent.LoopGuard.{record_empty_decision}
use runtime_assistant_agent.Actions.{AssistantDecision}
use runtime_assistant_agent.Assistant.{
  Env, LoopState, ChatResult, is_failed, with_status, set_plan, is_plan_mode_active,
}
use runtime_assistant_agent.Assistant.Decide.{
  read_result, keep_to_limit, at_limit, retry_overflow, decide_with_llm, ensure_rule_plan,
  know_intent, after_chat, next_result, is_overflow, is_final, empty_reason,
}
use runtime_assistant_agent.Assistant.Guards.{
  guard_terminal, guard_empty, guard_decision, apply_decision_guards, end_run, close_plan,
  apply_terminal_decision, required_price_compare, set_direct_chat_response, is_reason, names_tool,
  is_followup, has_results, is_direct_chat, plain_response, should_preserve, final_response,
  is_terminal,
}
use runtime_assistant_agent.Assistant.Loop.{
  decide_next_action, guarded, assistant_node, decided, has_answer, old_answer,
}

-- what a visit keeps
pub record Frame : Type 0 where
  pub tool_calls : List ToolCall
  pub tool_results : List ToolResult
  pub revisions : ℕ
  pub outputs : Dict ToolResult
  pub iterations : ℕ
  pub succeeded : List String

abbrev pub frame : LoopState → Frame
frame s = record {
  tool_calls = s.agent.tool_calls;
  tool_results = s.agent.tool_results;
  revisions = s.plan_revision_count;
  outputs = s.outputs_by_step;
  iterations = s.iterations;
  succeeded = s.guard.succeeded_terminal_tools;
}

-- The plan is kept too, where there is one.
abbrev pub Keeps : LoopState → LoopState → Type 0
Keeps s s' = (frame s' ≡ frame s) × (is_some s.plan ≡ true → s'.plan ≡ s.plan)

pub Keeps-refl : (s : LoopState) → Keeps s s
Keeps-refl s = (refl, λ h. refl)

pub Keeps-trans : (s s' s'' : LoopState) → Keeps s s' → Keeps s' s'' → Keeps s s''
Keeps-trans s s' s'' k l = (l.0 ∙ k.0, λ h. l.1 (ap is_some (k.1 h) ∙ h) ∙ k.1 h)

abbrev Proposal : Type 0
Proposal = LoopState × AssistantDecision

-- A property of the state of both branches.
of_branch :
    (P : LoopState → Type 0) (b : Bool) (p q : Proposal) → P p.0 → P q.0 → P (if b then p else q).0
of_branch P true p q h k = h
of_branch P false p q h k = k

module _ (env : Env) where
  keep_to_limit-Keeps : (s : LoopState) (d : AssistantDecision) → Keeps s (keep_to_limit env s d).0
  keep_to_limit-Keeps s d =
      of_branch (Keeps s) (at_limit env s d) (after_chat s, _) (s, d) (Keeps-refl s) (Keeps-refl s)

  read_result-Keeps : (s : LoopState) (r : ChatResult) → Keeps s (read_result env s r).0
  read_result-Keeps s r =
      of_branch (Keeps s) _ (keep_to_limit env (after_chat s) _) (keep_to_limit env s _)
        (keep_to_limit-Keeps (after_chat s) _) (keep_to_limit-Keeps s _)

  retry_overflow-Keeps : (s : LoopState) → Keeps s (retry_overflow env s).0
  retry_overflow-Keeps s =
      let s' = after_chat (record s { overflow_retries = suc s.overflow_retries }) in
      of_branch (Keeps s) (is_overflow (next_result env s)) (s', _)
        (read_result env s' (next_result env s)) (Keeps-refl s)
        (read_result-Keeps s' (next_result env s))

  decide_with_llm-Keeps : (s : LoopState) → Keeps s (decide_with_llm env s).0
  unfolding decide_with_llm
  decide_with_llm-Keeps s =
      of_branch (Keeps s) _ (retry_overflow env (after_chat s))
        (read_result env (after_chat s) (next_result env s)) (retry_overflow-Keeps (after_chat s))
        (read_result-Keeps (after_chat s) (next_result env s))

  know_intent-Keeps : (s : LoopState) → Keeps s (know_intent env s)
  know_intent-Keeps s = elim (Bool-cases (is_some s.intent)) [
    | inl known ↦ rw known (Keeps-refl s)
    | inr new ↦ rw new (Keeps-refl s)
  ]

  ensure_rule_plan-Keeps : (s : LoopState) → Keeps s (ensure_rule_plan env s)
  unfolding ensure_rule_plan
  ensure_rule_plan-Keeps s =
      let k = know_intent-Keeps s in
      (
        if_intro (λ (t : LoopState). frame t ≡ frame s) (is_some s.plan) {x = know_intent env s}
            {y = set_plan env.rule_plan (know_intent env s)} k.0 k.0,
        λ h. rw h (k.1 h),
      )

  pub decide_next_action-Keeps : (s : LoopState) → Keeps s (decide_next_action env s).0
  unfolding decide_next_action
  decide_next_action-Keeps s =
      of_branch (Keeps s) env.is_mock (ensure_rule_plan env s, _) (decide_with_llm env s)
        (ensure_rule_plan-Keeps s) (decide_with_llm-Keeps s)

guard_terminal-Keeps : (s : LoopState) (d : AssistantDecision) → Keeps s (guard_terminal s d).0
guard_terminal-Keeps s d = of_branch (Keeps s) _ (s, _) (s, d) (Keeps-refl s) (Keeps-refl s)

guard_empty-Keeps : (s : LoopState) (d : AssistantDecision) → Keeps s (guard_empty s d).0
guard_empty-Keeps s d =
    let s' = record s { guard = (record_empty_decision s.guard).0 } in
    of_branch (Keeps s) (is_reason empty_reason d.reason) _ (guard_terminal s d)
      (of_branch (Keeps s) (record_empty_decision s.guard).1.triggered (s', _) (guard_terminal s' d)
        (Keeps-refl s) (guard_terminal-Keeps s' d))
      (guard_terminal-Keeps s d)

guard_decision-Keeps :
    (env : Env) (s : LoopState) (d : AssistantDecision) (o : Option AssistantDecision)
    → Keeps s (guard_decision env s d o).0
guard_decision-Keeps env s d none = guard_empty-Keeps s d
guard_decision-Keeps env s d (some required) =
    of_branch (Keeps s) (is_final d.type) (s, required) _ (Keeps-refl s)
      (of_branch (Keeps s) (names_tool "product_search" d) (s, required) _ (Keeps-refl s)
        (of_branch (Keeps s) (names_tool "price_compare" d) (s, _) (guard_empty s d) (Keeps-refl s)
          (guard_empty-Keeps s d)))

close_plan-Keeps : (s : LoopState) → Keeps s (close_plan s)
close_plan-Keeps s = elim (Bool-cases (is_plan_mode_active s)) [
  | inl on ↦ rw on (Keeps-refl s)
  | inr off ↦ rw off (Keeps-refl s)
]

end_run-Keeps : (env : Env) (d : AssistantDecision) (s : LoopState) → Keeps s (end_run env d s)
end_run-Keeps env d s =
    if_intro (Keeps s) (is_followup d.type || not (has_results s.agent.tool_results))
      {x = if is_direct_chat s.intent then set_direct_chat_response env d s else plain_response d s}
      {y = if should_preserve env d
        then final_response d s
        else if is_failed s.agent.status
        then s
        else with_status completed s}
      (if_intro (Keeps s) (is_direct_chat s.intent) {x = set_direct_chat_response env d s}
        {y = plain_response d s} (Keeps-refl s) (Keeps-refl s))
      (if_intro (Keeps s) (should_preserve env d) {x = final_response d s}
        {y = if is_failed s.agent.status then s else with_status completed s} (Keeps-refl s)
        (if_intro (Keeps s) (is_failed s.agent.status) {x = s} {y = with_status completed s}
          (Keeps-refl s) (Keeps-refl s)))

apply_terminal_decision-Keeps :
    (env : Env) (d : AssistantDecision) (s : LoopState) → Keeps s (apply_terminal_decision env d s)
unfolding apply_terminal_decision
apply_terminal_decision-Keeps env d s =
    if_intro (Keeps s) (is_terminal d.type) {x = end_run env d (close_plan s)} {y = s}
      (Keeps-trans s (close_plan s) (end_run env d (close_plan s)) (close_plan-Keeps s)
        (end_run-Keeps env d (close_plan s)))
      (Keeps-refl s)

-- A visit of the assistant counts one iteration and keeps the rest.
abbrev pub Visited : LoopState → LoopState → Type 0
Visited s s' =
    (s'.agent.tool_calls ≡ s.agent.tool_calls)
    × (s'.agent.tool_results ≡ s.agent.tool_results)
    × (s'.plan_revision_count ≡ s.plan_revision_count)
    × (s'.outputs_by_step ≡ s.outputs_by_step)
    × (s'.iterations ≡ suc s.iterations)
    × (is_some s.plan ≡ true → s'.plan ≡ s.plan)
    × (s'.guard.succeeded_terminal_tools ≡ s.guard.succeeded_terminal_tools)

decided-Visited : (s s' : LoopState) (d : AssistantDecision) → Keeps s s' → Visited s (decided d s')
decided-Visited s s' d k = (
  ap (λ (f : Frame). f.tool_calls) k.0,
  ap (λ (f : Frame). f.tool_results) k.0,
  ap (λ (f : Frame). f.revisions) k.0,
  ap (λ (f : Frame). f.outputs) k.0,
  ap (λ (f : Frame). suc f.iterations) k.0,
  k.1,
  ap (λ (f : Frame). f.succeeded) k.0,
)

guarded-Visited :
    (env : Env) (s : LoopState) (p : Proposal) → Keeps s p.0 → Visited s (guarded env p)
unfolding apply_decision_guards
guarded-Visited env s (s', d) k =
    let g = guard_decision env s' d (required_price_compare env s') in
    decided-Visited s (apply_terminal_decision env g.1 g.0) g.1 (
      Keeps-trans s s' (apply_terminal_decision env g.1 g.0) k (
        Keeps-trans s' g.0 (apply_terminal_decision env g.1 g.0)
          (guard_decision-Keeps env s' d (required_price_compare env s'))
          (apply_terminal_decision-Keeps env g.1 g.0)))

pub assistant_node-Visited : (env : Env) (s : LoopState) → Visited s (assistant_node env s)
unfolding assistant_node
assistant_node-Visited env s =
    if_intro (Visited s) (has_answer s) {x = decided (old_answer s.response) s}
      {y = guarded env (decide_next_action env s)}
      (decided-Visited s s (old_answer s.response) (Keeps-refl s))
      (guarded-Visited env s (decide_next_action env s) (decide_next_action-Keeps env s))
