-- ===== src/Executor/Tests.antt =====
-- Tool calls of concrete runs.
use Prim.Native.Nat.{◌*◌}
use runtime_assistant_agent.Base.{
  ℕ, zero, suc, ◌≤◌, String, true, false, ◌≡◌, refl, Option, none, some, [], ◌∷◌,
}
use runtime_assistant_agent.Base.Dict.{lookup}
use runtime_assistant_agent.Budget.{
  ProviderCallBudget, provider_call_count, capability_call_count, input_bytes_total,
  check_before_call, record_call,
}
use runtime_assistant_agent.Budget.Totals.{Within}
use runtime_assistant_agent.Executor.{
  ToolResult, RetryPolicy, RecoveryPolicy, Call, AgentState, default_retryable_provider_errors,
  run_with_retry, run_tool, run_tools, fresh, is_retryable, capability_name,
}
use runtime_assistant_agent.Executor.Retry.{EndsAt, retry_loop_ends}
use runtime_assistant_agent.Executor.Calls.{run_one}
use runtime_assistant_agent.Executor.Limits.{tool_calls_keep_to_budget, retries_are_not_counted}

abbrev retry : RetryPolicy
retry = record { max_retries = 1; retry_on = default_retryable_provider_errors }

abbrev recovery : RecoveryPolicy
recovery = record { allow_skip_optional_steps = true; allow_partial_response = true }

abbrev budget : ProviderCallBudget
budget = record {
  max_provider_calls_per_run = 2;
  max_calls_per_capability = ("render_3d", 1) ∷ [];
  max_estimated_cost_per_run = some 100;
  max_input_bytes_per_run = some 1000;
  call_records = [];
}

abbrev timeout : ToolResult
timeout = record {
  tool_name = "render_3d";
  success = false;
  has_items = false;
  error_code = "provider_timeout";
  estimated_cost = none;
}

-- the first attempt times out and the second succeeds
abbrev second_time : ℕ → ToolResult
second_time zero = timeout
second_time (suc n) = record {
  tool_name = "render_3d";
  success = true;
  has_items = false;
  error_code = "";
  estimated_cost = some 7;
}

abbrev render : Call
render = record {
  tool_name = "render_3d";
  step = none;
  estimated_cost = some 10;
  input_size_bytes = 300;
  attempts = second_time;
}

abbrev slow : Call
slow = record render { attempts = λ n. timeout }

abbrev attempts_made : Option (AgentState × ℕ) → ℕ
attempts_made none = 0
attempts_made (some (s, n)) = n

-- The second call of a capability that may be called once is blocked.
second_render_blocked :
    attempts_made (run_tools 2 retry recovery (render ∷ render ∷ []) (fresh budget)) ≡ 2
unfolding run_tools run_tool run_with_retry check_before_call capability_name lookup is_retryable
    record_call
second_render_blocked = refl

retry_loop_ends_example :
    (k : ℕ) × (run_with_retry 2 retry second_time 0 0 ≡ some (second_time k, k))
    × EndsAt retry second_time 0 k
retry_loop_ends_example = retry_loop_ends retry second_time

tool_calls_keep_to_budget_example :
    (s : AgentState) × (n : ℕ) × (run_tools 2 retry recovery (render ∷ slow ∷ []) (fresh budget)
      ≡ some (s, n))
    × (provider_call_count s.provider_budget ≤ 2)
    × ((c : String)
        → Within
            (lookup c budget.max_calls_per_capability)
            (capability_call_count c s.provider_budget))
    × Within (some 1000) (input_bytes_total s.provider_budget)
    × (n ≤ 2 * 2)
tool_calls_keep_to_budget_example =
    tool_calls_keep_to_budget retry recovery (render ∷ slow ∷ []) budget

retries_are_not_counted_example :
    (s' : AgentState) × (run_one retry recovery slow (fresh budget) ≡ some (s', 2))
    × (provider_call_count s'.provider_budget ≡ 1)
unfolding check_before_call capability_name lookup is_retryable
retries_are_not_counted_example =
    retries_are_not_counted retry recovery slow (fresh budget) refl (λ j. (refl, refl))
