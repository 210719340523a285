-- ===== src/Assistant/NewCalls.antt =====
-- The calls that the guard lets through, outside plan mode.
use runtime_assistant_agent.Base.{
  String, Bool, true, false, not, ◌&&◌, ◌≡◌, ◌≢◌, refl, ◌∙◌, ap, sym, subst, Option, none, some,
  ◌==◌, if◌then◌else◌, given, get_or, if_cases, if_intro, Bool-cases, inl, inr, arith, eq_iff,
}
use runtime_assistant_agent.Executor.{ToolResult}
use runtime_assistant_agent.LoopGuard.{record_empty_decision, terminal_tool_already_succeeded}
use runtime_assistant_agent.Actions.{final_answer, tool_call, AssistantDecision}
use runtime_assistant_agent.Assistant.{Env, LoopState, AgentResponse, is_plan_mode_active}
use runtime_assistant_agent.Assistant.Decide.{answer, is_call, is_final, empty_reason}
use runtime_assistant_agent.Assistant.Loop.{
  execute, route_after_assistant, assistant_node, decided, guarded, decide_next_action, old_answer,
  has_answer,
}
use runtime_assistant_agent.Assistant.Rounds.{Leads, route_after_assistant-Leads}
use runtime_assistant_agent.Assistant.Guards.{
  guard_terminal, guard_empty, guard_decision, apply_decision_guards, apply_terminal_decision,
  required_price_compare, compare_after, names_tool, terminal_tool_called_again, latest_success,
  is_reason, guard_final_answer, repair_compare, is_terminal, end_run, close_plan,
}

final≢call : final_answer ≢ tool_call
final≢call e = absurd cc

-- A call that a state proposes is not one of a terminal tool that has succeeded.
abbrev IsNew : LoopState × AssistantDecision → Type 0
IsNew (s, d) =
    (tool : String)
    → d.type ≡ tool_call
    → d.tool_name ≡ some tool
    → is_plan_mode_active s ≡ false
    → terminal_tool_already_succeeded tool s.guard ≡ false

and_off : (a b : Bool) → (not a && b) ≡ false → a ≡ false → b ≡ false
and_off a b h e = ground arith

and_right : (a b : Bool) → (a && b) ≡ true → b ≡ true
and_right a b h = ground arith

-- the test of the guard, by the name of the tool
passed_guard :
    (s : LoopState) (tool : String)
    → terminal_tool_called_again (given (some tool)) s ≡ false
    → is_plan_mode_active s ≡ false
    → terminal_tool_already_succeeded tool s.guard ≡ false
passed_guard s tool h p = elim (Bool-cases (tool == "")) [
  | inl empty ↦
      subst (λ t. terminal_tool_already_succeeded t s.guard ≡ false)
        (sym ((eq_iff tool "").0 empty)) refl
  | inr full ↦
      and_off (is_plan_mode_active s) (terminal_tool_already_succeeded tool s.guard)
        (ap (λ b. terminal_tool_called_again (if b then none else some tool) s) (sym full) ∙ h) p
]

guard_terminal-IsNew : (s : LoopState) (d : AssistantDecision) → IsNew (guard_terminal s d)
guard_terminal-IsNew s d =
    if_cases IsNew (is_call d.type && terminal_tool_called_again (given d.tool_name) s)
      {x = (s, answer final_answer none "duplicate_terminal_tool")} {y = (s, d)}
      (λ h tool c e p. absurd (final≢call c))
      (λ h tool c e p.
        let called : is_call d.type ≡ true = ap is_call c in
        let g : terminal_tool_called_again (given d.tool_name) s ≡ false = ground arith in
        passed_guard s tool (ap (λ o. terminal_tool_called_again (given o) s) (sym e) ∙ g) p)

guard_empty-IsNew : (s : LoopState) (d : AssistantDecision) → IsNew (guard_empty s d)
guard_empty-IsNew s d =
    let (g, verdict) = record_empty_decision s.guard in
    let s' = record s { guard = g } in
    if_cases IsNew (is_reason empty_reason d.reason)
      {x = if verdict.triggered then (s', guard_final_answer verdict) else guard_terminal s' d}
      {y = guard_terminal s d}
      (λ h.
        if_cases IsNew verdict.triggered {x = (s', guard_final_answer verdict)}
          {y = guard_terminal s' d} (λ i tool c e p. absurd (final≢call c))
          (λ i. guard_terminal-IsNew s' d))
      (λ h. guard_terminal-IsNew s d)

-- a comparison of prices is no terminal tool
compare_call-IsNew :
    (s : LoopState) (d : AssistantDecision) → d.tool_name ≡ some "price_compare" → IsNew (s, d)
compare_call-IsNew s d n tool c e p =
    let same : "price_compare" ≡ tool = cc in
    subst (λ t. terminal_tool_already_succeeded t s.guard ≡ false) same refl

is_compare :
    (o : Option String) → (get_or o "" == "price_compare") ≡ true → o ≡ some "price_compare"
is_compare none h = cc
is_compare (some t) h = ap some ((eq_iff t "price_compare").0 h)

names_compare :
    (d : AssistantDecision)
    → names_tool "price_compare" d ≡ true
    → d.tool_name ≡ some "price_compare"
names_compare d h = is_compare d.tool_name (and_right (is_call d.type) _ h)

guard_decision-IsNew :
    (env : Env) (s : LoopState) (d : AssistantDecision) (o : Option AssistantDecision)
    → ((r : AssistantDecision) → o ≡ some r → r.tool_name ≡ some "price_compare")
    → IsNew (guard_decision env s d o)
guard_decision-IsNew env s d none h = guard_empty-IsNew s d
guard_decision-IsNew env s d (some r) h =
    let repaired = repair_compare env d r in
    if_cases IsNew (is_final d.type) {x = (s, r)} {y = _} (λ i. compare_call-IsNew s r (h r refl))
      (λ i.
        if_cases IsNew (names_tool "product_search" d) {x = (s, r)}
          {y = if names_tool "price_compare" d then (s, repaired) else guard_empty s d}
          (λ j. compare_call-IsNew s r (h r refl))
          (λ j.
            if_cases IsNew (names_tool "price_compare" d) {x = (s, repaired)} {y = guard_empty s d}
              (λ k. compare_call-IsNew s repaired (names_compare d k))
              (λ k. guard_empty-IsNew s d)))

compare_after-compare :
    (env : Env) (o : Option ToolResult) (r : AssistantDecision)
    → compare_after env o ≡ some r
    → r.tool_name ≡ some "price_compare"
compare_after-compare env none r e = cc
compare_after-compare env (some x) r e = ground arith

required-compare :
    (env : Env) (s : LoopState) (r : AssistantDecision)
    → required_price_compare env s ≡ some r
    → r.tool_name ≡ some "price_compare"
unfolding required_price_compare
required-compare env s r e =
    ground
      (arith, compare_after-compare env (latest_success "product_search" s.agent.tool_results) r)

-- The same of the call that a state has decided.
abbrev DecidesNew : LoopState → Type 0
DecidesNew t =
    (d : AssistantDecision) (tool : String)
    → t.decision ≡ some d
    → d.type ≡ tool_call
    → d.tool_name ≡ some tool
    → is_plan_mode_active t ≡ false
    → terminal_tool_already_succeeded tool t.guard ≡ false

call_goes_on :
    (env : Env) (d : AssistantDecision) (s : LoopState)
    → d.type ≡ tool_call
    → apply_terminal_decision env d s ≡ s
unfolding apply_terminal_decision
call_goes_on env d s c = ap (λ t. if is_terminal t then end_run env d (close_plan s) else s) c

decided-DecidesNew :
    (env : Env) (p : LoopState × AssistantDecision)
    → IsNew p
    → DecidesNew (decided p.1 (apply_terminal_decision env p.1 p.0))
decided-DecidesNew env (s, d') new d tool e c n off =
    let same : d' ≡ d = cc in
    let c' : d'.type ≡ tool_call = ap (λ (x : AssistantDecision). x.type) same ∙ c in
    let n' : d'.tool_name ≡ some tool = ap (λ (x : AssistantDecision). x.tool_name) same ∙ n in
    let stays : s ≡ apply_terminal_decision env d' s = sym (call_goes_on env d' s c') in
    subst (λ (t : LoopState). terminal_tool_already_succeeded tool t.guard ≡ false) stays
      (new tool c' n' (subst (λ (t : LoopState). is_plan_mode_active t ≡ false) (sym stays) off))

guarded-DecidesNew : (env : Env) (p : LoopState × AssistantDecision) → DecidesNew (guarded env p)
unfolding apply_decision_guards
guarded-DecidesNew env (s, d) =
    decided-DecidesNew env (apply_decision_guards env s d)
      (guard_decision-IsNew env s d (required_price_compare env s) (required-compare env s))

old_answer-DecidesNew :
    (s : LoopState) (o : Option AgentResponse) → DecidesNew (decided (old_answer o) s)
old_answer-DecidesNew s none d tool e c n off =
    let same : old_answer none ≡ d = cc in
    absurd (final≢call (ap (λ (x : AssistantDecision). x.type) same ∙ c))
old_answer-DecidesNew s (some r) d tool e c n off =
    let same : old_answer (some r) ≡ d = cc in
    absurd (final≢call (ap (λ (x : AssistantDecision). x.type) same ∙ c))

assistant_node-DecidesNew : (env : Env) (s : LoopState) → DecidesNew (assistant_node env s)
unfolding assistant_node
assistant_node-DecidesNew env s =
    if_intro DecidesNew (has_answer s) {x = decided (old_answer s.response) s}
      {y = guarded env (decide_next_action env s)} (old_answer-DecidesNew s s.response)
      (guarded-DecidesNew env (decide_next_action env s))

-- A call that the assistant sends to the tool node, outside plan mode, is of no terminal tool that the
-- guard has on record.
pub called_tool_is_new :
    (env : Env) (s : LoopState) (d : AssistantDecision) (tool : String)
    → route_after_assistant env (assistant_node env s) ≡ execute d
    → d.tool_name ≡ some tool
    → is_plan_mode_active (assistant_node env s) ≡ false
    → terminal_tool_already_succeeded tool (assistant_node env s).guard ≡ false
called_tool_is_new env s d tool r e p =
    let l =
      subst (Leads env (assistant_node env s)) r
        (route_after_assistant-Leads env (assistant_node env s)) in
    assistant_node-DecidesNew env s d tool l.1 l.3 e p
