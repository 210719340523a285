-- ===== src/Executor.antt =====
-- assistant_agent/src/assistant_agent/agent/tool_executor.py with services/provider_policy.py,
-- agent/recovery.py and the records of calls of agent/state.py. A failed result is known by the code that
-- `classify_error` gives for its text; the codes of a policy are normalized. A call has a new id, which
-- here is its place in the list. Events, history and traces, which are only written, are left out.
pub mod Retry
pub mod Calls
pub mod Added
pub mod Limits
mod Tests
use runtime_assistant_agent.Base.{
  ℕ, zero, suc, ◌+◌, String, Bool, true, false, not, ◌&&◌, Option, none, some, List, [], ◌∷◌, ◌++◌,
  if◌then◌else◌, get_or, leb, length, modify, contains,
}
use runtime_assistant_agent.Base.Dict.{Dict, lookup}
use runtime_assistant_agent.Budget.{ProviderCallBudget, check_before_call, record_call}
use runtime_assistant_agent.Plan.{TaskStep}

-- `has_items` says whether `data["items"]` is a list that is not empty.
pub record ToolResult : Type 0 where
  pub tool_name : String
  pub success : Bool
  pub has_items : Bool
  pub error_code : String
  pub estimated_cost : Option ℕ

pub record RetryPolicy : Type 0 where
  pub max_retries : ℕ
  pub retry_on : List String

abbrev pub non_retryable_provider_errors : List String
non_retryable_provider_errors =
    "provider_unconfigured" ∷ "provider_missing_api_key" ∷ "provider_missing_base_url"
    ∷ "provider_auth_failed" ∷ "provider_permission_denied" ∷ "provider_request_invalid"
    ∷ "provider_request_too_large" ∷ "provider_unsupported_input" ∷ "provider_unsupported_format"
    ∷ "provider_bad_response" ∷ "provider_schema_mismatch" ∷ []

abbrev pub default_retryable_provider_errors : List String
default_retryable_provider_errors =
    "provider_timeout" ∷ "provider_network_error" ∷ "provider_rate_limited" ∷ "provider_unavailable"
    ∷ []

unfoldable pub is_retryable : RetryPolicy → String → Bool
is_retryable p code = not (contains non_retryable_provider_errors code) && contains p.retry_on code

abbrev pub should_retry : RetryPolicy → String → ℕ → Bool
should_retry p code failed_attempts = leb failed_attempts p.max_retries && is_retryable p code

-- `_run_with_retry`: attempt number n of the tool gives `attempts n`, and the result comes with the
-- retry count. `none` means that the fuel ran out.
unfoldable pub run_with_retry : ℕ → RetryPolicy → (ℕ → ToolResult) → ℕ → ℕ → Option (ToolResult × ℕ)
run_with_retry zero p attempts failed_attempts retry_count = none
run_with_retry (suc fuel) p attempts failed_attempts retry_count =
    let result = attempts failed_attempts in
    let again = run_with_retry fuel p attempts (suc failed_attempts) (suc retry_count) in
    if result.success
    then some (result, retry_count)
    else if should_retry p result.error_code (suc failed_attempts)
    then again
    else some (result, retry_count)

pub data Action : Type 0 where
  continue_with_partial_result : Action
  stop_with_error : Action

pub record RecoveryPolicy : Type 0 where
  pub allow_skip_optional_steps : Bool
  pub allow_partial_response : Bool

abbrev pub is_optional : Option TaskStep → Bool
is_optional none = false
is_optional (some step) = step.optional

-- the action of `RecoveryPolicy.decide`
abbrev pub decide : RecoveryPolicy → Option TaskStep → Action
decide p step =
    if is_optional step && (p.allow_skip_optional_steps && p.allow_partial_response)
    then continue_with_partial_result
    else stop_with_error

abbrev action_map : Dict String
action_map =
    ("understand_image", "image_understanding")
    ∷ ("understand_video", "video_understanding")
    ∷ ("search_product", "product_search")
    ∷ ("compare_price", "price_compare")
    ∷ ("generate_image", "image_generation")
    ∷ ("render_3d", "render_3d")
    ∷ ("retrieve_memory", "memory_retrieval")
    ∷ ("save_memory", "memory_save")
    ∷ []

abbrev tool_map : Dict String
tool_map =
    ("vision_understanding", "image_understanding")
    ∷ ("video_understanding", "video_understanding")
    ∷ ("product_search", "product_search")
    ∷ ("price_compare", "price_compare")
    ∷ ("image_generation", "image_generation")
    ∷ ("render_3d", "render_3d")
    ∷ ("memory_retrieval", "memory_retrieval")
    ∷ ("memory_save", "memory_save")
    ∷ []

abbrev step_capability : Option TaskStep → Option String
step_capability none = none
step_capability (some step) = lookup step.action action_map

-- `_capability_name`
unfoldable pub capability_name : String → Option TaskStep → String
capability_name tool_name step =
    get_or (step_capability step) (get_or (lookup tool_name tool_map) tool_name)

pub data CallStatus : Type 0 where
  running : CallStatus
  succeeded : CallStatus
  failed : CallStatus

-- `AgentStatus`: `active` is its "running" and `stopped` its "failed".
pub data RunStatus : Type 0 where
  created : RunStatus
  active : RunStatus
  waiting_user : RunStatus
  completed : RunStatus
  stopped : RunStatus

pub record ToolCall : Type 0 where
  pub tool_name : String
  pub status : CallStatus

pub record AgentError : Type 0 where
  pub code : String
  pub recovery_action : Action

pub record AgentState : Type 0 where
  pub tool_calls : List ToolCall
  pub tool_results : List ToolResult
  pub errors : List AgentError
  pub status : RunStatus
  pub provider_budget : ProviderCallBudget

abbrev pub add_tool_call : String → AgentState → AgentState
add_tool_call tool_name s = record s {
  tool_calls = s.tool_calls ++ record { tool_name = tool_name; status = running } ∷ [];
  status = active;
}

abbrev set_status : CallStatus → ToolCall → ToolCall
set_status status c = record c { status = status }

abbrev pub complete_tool_call : ℕ → ToolResult → AgentState → AgentState
complete_tool_call call_id result s = record s {
  tool_calls = modify s.tool_calls call_id (set_status succeeded);
  tool_results = s.tool_results ++ result ∷ [];
  status = active;
}

abbrev pub is_stop : Action → Bool
is_stop continue_with_partial_result = false
is_stop stop_with_error = true

-- `fail_tool_call` with `stop_run` where the action is to stop
abbrev pub fail_tool_call : ℕ → ToolResult → Action → AgentState → AgentState
fail_tool_call call_id result action s = record s {
  tool_calls = modify s.tool_calls call_id (set_status failed);
  tool_results = s.tool_results ++ result ∷ [];
  errors = s.errors ++ record { code = result.error_code; recovery_action = action } ∷ [];
  status = if is_stop action then stopped else active;
}

-- the arguments of `run_tool`, with the cost and the size that it reads off the tool's input
pub record Call : Type 0 where
  pub tool_name : String
  pub step : Option TaskStep
  pub estimated_cost : Option ℕ
  pub input_size_bytes : ℕ
  pub attempts : ℕ → ToolResult

abbrev pub status_name : Bool → String
status_name true = "succeeded"
status_name false = "failed"

-- `_record_provider_budget_call`
abbrev pub charge : Call → ToolResult → AgentState → AgentState
charge q result s = record s {
  provider_budget =
      record_call (capability_name q.tool_name q.step) result.estimated_cost
        (some q.input_size_bytes) (status_name result.success) s.provider_budget;
}

abbrev settle : RecoveryPolicy → Call → ℕ → ToolResult → AgentState → AgentState
settle recovery q call_id result s =
    if result.success
    then complete_tool_call call_id result s
    else fail_tool_call call_id result (decide recovery q.step) s

abbrev pub blocked_result : String → String → ToolResult
blocked_result tool_name code = record {
  tool_name = tool_name;
  success = false;
  has_items = false;
  error_code = code;
  estimated_cost = none;
}

abbrev blocked_action : Option TaskStep → Action
blocked_action step = if is_optional step then continue_with_partial_result else stop_with_error

-- A call's state afterwards, with the number of attempts that were made.
abbrev pub finish_call :
    RecoveryPolicy → Call → ℕ → AgentState → Option (ToolResult × ℕ) → Option (AgentState × ℕ)
finish_call recovery q call_id s none = none
finish_call recovery q call_id s (some (result, retry_count)) =
    some (settle recovery q call_id result (charge q result s), suc retry_count)

-- the part of `run_tool` behind the test of the budget
abbrev pub attempt_call :
    ℕ
    → RetryPolicy
    → RecoveryPolicy
    → Call
    → ℕ
    → AgentState
    → Option String
    → Option (AgentState × ℕ)
attempt_call fuel retry recovery q call_id s (some code) =
    some (fail_tool_call call_id (blocked_result q.tool_name code) (blocked_action q.step) s, 0)
attempt_call fuel retry recovery q call_id s none =
    finish_call recovery q call_id s (run_with_retry fuel retry q.attempts 0 0)

unfoldable pub run_tool :
    ℕ → RetryPolicy → RecoveryPolicy → Call → AgentState → Option (AgentState × ℕ)
run_tool fuel retry recovery q s =
    attempt_call fuel retry recovery q (length s.tool_calls) (add_tool_call q.tool_name s) (
      check_before_call (capability_name q.tool_name q.step) q.estimated_cost
        (some q.input_size_bytes) s.provider_budget)

abbrev pub then_run :
    (AgentState → Option (AgentState × ℕ)) → Option (AgentState × ℕ) → Option (AgentState × ℕ)
then_run rest none = none
then_run rest (some (s, n)) = elim (rest s) [ none ↦ none | some (s', m) ↦ some (s', n + m) ]

-- the calls of a run one after another, with the number of attempts in all
pub run_tools : ℕ → RetryPolicy → RecoveryPolicy → List Call → AgentState → Option (AgentState × ℕ)
run_tools fuel retry recovery [] s = some (s, 0)
run_tools fuel retry recovery (q ∷ qs) s =
    then_run (run_tools fuel retry recovery qs) (run_tool fuel retry recovery q s)

-- a new run under a budget's limits
abbrev pub fresh : ProviderCallBudget → AgentState
fresh b = record {
  tool_calls = [];
  tool_results = [];
  errors = [];
  status = created;
  provider_budget = record b { call_records = [] };
}
