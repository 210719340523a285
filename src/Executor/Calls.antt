-- ===== src/Executor/Calls.antt =====
-- How a tool call ends, and what that leaves in the state.
use runtime_assistant_agent.Base.{
  ℕ, suc, ◌+◌, String, Bool, true, false, ◌≡◌, ap, ◌∙◌, Option, none, some, List, [], ◌∷◌, arith,
  Option-cases, inl, inr, length, count_if, modify, length-append, count_if-append, modify-append,
  length-modify, if_intro, if◌then◌else◌,
}
use runtime_assistant_agent.Budget.{check_before_call, ProviderCallBudget}
use runtime_assistant_agent.Executor.{
  ToolResult, RetryPolicy, RecoveryPolicy, Call, AgentState, ToolCall, Action, CallStatus, running,
  succeeded, failed, settle, charge, add_tool_call, complete_tool_call, fail_tool_call,
  blocked_result, blocked_action, finish_call, attempt_call, run_tool, capability_name, decide,
  set_status,
}
use runtime_assistant_agent.Executor.Retry.{EndsAt, retry_loop_ends}

-- the answer of the budget to a call
abbrev pub verdict : Call → AgentState → Option String
verdict q s =
    check_before_call (capability_name q.tool_name q.step) q.estimated_cost
      (some q.input_size_bytes) s.provider_budget

abbrev pub blocked : String → Call → AgentState → AgentState
blocked code q s =
    fail_tool_call (length s.tool_calls) (blocked_result q.tool_name code) (blocked_action q.step)
      (add_tool_call q.tool_name s)

abbrev pub settled : RecoveryPolicy → Call → ToolResult → AgentState → AgentState
settled recovery q result s =
    settle recovery q (length s.tool_calls) result (charge q result (add_tool_call q.tool_name s))

module _ (retry : RetryPolicy) (recovery : RecoveryPolicy) where
  -- `run_tool` with fuel for every retry
  abbrev pub run_one : Call → AgentState → Option (AgentState × ℕ)
  run_one = run_tool (suc retry.max_retries) retry recovery

  -- the two ways in which a call ends
  pub data Ends (q : Call) (s : AgentState) : Type 0 where
    by_budget :
        (code : String)
        → verdict q s ≡ some code
        → run_one q s ≡ some (blocked code q s, 0)
        → Ends q s
    by_tool :
        (k : ℕ)
        → verdict q s ≡ none
        → EndsAt retry q.attempts 0 k
        → run_one q s ≡ some (settled recovery q (q.attempts k) s, suc k)
        → Ends q s

  pub run_tool-Ends : (q : Call) (s : AgentState) → Ends q s
  unfolding run_tool
  run_tool-Ends q s = elim (Option-cases (verdict q s)) [
    | inr (code, v) ↦ by_budget code v (
        ap
          (attempt_call (suc retry.max_retries) retry recovery q (length s.tool_calls)
            (add_tool_call q.tool_name s))
          v)
    | inl v ↦
        let (k, e, x) = retry_loop_ends retry q.attempts in
        by_tool k v x (
          ap
            (attempt_call (suc retry.max_retries) retry recovery q (length s.tool_calls)
              (add_tool_call q.tool_name s))
            v
          ∙ ap (finish_call recovery q (length s.tool_calls) (add_tool_call q.tool_name s)) e)
  ]

abbrev pub is_running : ToolCall → Bool
is_running c = elim c.status [ running ↦ true | _ ↦ false ]

abbrev pub is_failed : ToolCall → Bool
is_failed c = elim c.status [ failed ↦ true | _ ↦ false ]

-- No call is left running, every call has a result, and every failed call an error.
pub record IsSettled (s : AgentState) : Type 0 where
  pub done : count_if is_running s.tool_calls ≡ 0
  pub results : length s.tool_results ≡ length s.tool_calls
  pub explained : length s.errors ≡ count_if is_failed s.tool_calls

-- The call that `run_tool` adds, after it has been settled.
abbrev pub added : AgentState → Call → CallStatus → List ToolCall
added s q status =
    modify (add_tool_call q.tool_name s).tool_calls (length s.tool_calls) (set_status status)

count_if-added :
    (p : ToolCall → Bool) (s : AgentState) (q : Call) (status : CallStatus)
    → count_if p (added s q status)
      ≡ count_if p s.tool_calls
        + (if p (record { tool_name = q.tool_name; status = status }) then 1 else 0)
count_if-added p s q status =
    ap (count_if p) (
      modify-append s.tool_calls (record { tool_name = q.tool_name; status = running })
        (set_status status))
    ∙ count_if-append p s.tool_calls (record { tool_name = q.tool_name; status = status } ∷ [])
    ∙ omega arith

pub length-added :
    (s : AgentState) (q : Call) (status : CallStatus)
    → length (added s q status) ≡ suc (length s.tool_calls)
length-added s q status =
    length-modify (add_tool_call q.tool_name s).tool_calls (length s.tool_calls) (set_status status)
    ∙ length-append s.tool_calls (record { tool_name = q.tool_name; status = running } ∷ [])
    ∙ omega arith

pub fail_tool_call-IsSettled :
    (q : Call) (result : ToolResult) (a : Action) (s : AgentState) (b : ProviderCallBudget)
    → IsSettled s
    → IsSettled (
        fail_tool_call
          (length s.tool_calls)
          result
          a
          (record (add_tool_call q.tool_name s) { provider_budget = b }))
fail_tool_call-IsSettled q result a s b w = record {
  done = omega (arith, count_if-added is_running s q failed, w.done);
  results =
      omega (arith, length-append s.tool_results (result ∷ []), length-added s q failed, w.results);
  explained = omega (
    arith,
    length-append s.errors (record { code = result.error_code; recovery_action = a } ∷ []),
    count_if-added is_failed s q failed,
    w.explained,
  );
}

complete_tool_call-IsSettled :
    (q : Call) (result : ToolResult) (s : AgentState) (b : ProviderCallBudget)
    → IsSettled s
    → IsSettled (
        complete_tool_call
          (length s.tool_calls)
          result
          (record (add_tool_call q.tool_name s) { provider_budget = b }))
complete_tool_call-IsSettled q result s b w = record {
  done = omega (arith, count_if-added is_running s q succeeded, w.done);
  results =
      omega
        (arith, length-append s.tool_results (result ∷ []), length-added s q succeeded, w.results);
  explained = omega (arith, count_if-added is_failed s q succeeded, w.explained);
}

pub settled-IsSettled :
    (recovery : RecoveryPolicy) (q : Call) (result : ToolResult) (s : AgentState)
    → IsSettled s
    → IsSettled (settled recovery q result s)
settled-IsSettled recovery q result s w =
    if_intro IsSettled result.success
      (complete_tool_call-IsSettled q result s
        (charge q result (add_tool_call q.tool_name s)).provider_budget w)
      (fail_tool_call-IsSettled q result (decide recovery q.step) s
        (charge q result (add_tool_call q.tool_name s)).provider_budget w)
