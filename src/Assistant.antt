-- ===== src/Assistant.antt =====
-- The assistant loop of assistant_agent/src/assistant_agent/agent/assistant_loop_nodes.py and
-- agent/assistant_loop_graph.py, with the state of agent/state.py: its state, and the outside world that
-- it meets. `agent` holds the part of the run's state that the tool executor keeps; `plan_mode` is
-- `metadata["plan_mode"]["active"]`, and `overflow_retries` the count of retries kept there. The errors
-- that the nodes append are kept by their codes apart from those of tool calls. Traces, audits and the
-- rest of the metadata, which are only written, are left out.
pub mod Decide
pub mod Guards
pub mod PlanMode
pub mod Execute
pub mod Loop
pub mod Keeps
pub mod Executes
pub mod Rounds
pub mod Unended
pub mod Limits
pub mod Staying
pub mod Ending
pub mod Leaving
pub mod Ready
pub mod NewCalls
pub mod Succeeded
pub mod Repeats
pub mod Plans
pub mod Stopping
mod Tests
use runtime_assistant_agent.Base.{
  ℕ, suc, String, Bool, true, false, ◌&&◌, ◌||◌, Option, none, some, List, [], ◌++◌, ◌∷◌,
  if◌then◌else◌, is_some,
}
use runtime_assistant_agent.Base.Dict.{Dict}
use runtime_assistant_agent.Plan.{TaskStep, TaskPlan}
use runtime_assistant_agent.Budget.{ProviderCallBudget}
use runtime_assistant_agent.Executor.{
  AgentState, ToolResult, RetryPolicy, RecoveryPolicy, RunStatus, waiting_user, completed, fresh,
}
use runtime_assistant_agent.Executor as Run
use runtime_assistant_agent.LoopGuard.{LoopGuard}
use runtime_assistant_agent.LoopGuard as Guard
use runtime_assistant_agent.Actions.{Value, AssistantDecision, UserRequest}

pub record NativeToolCall : Type 0 where
  pub name : String
  pub arguments : Dict Value

pub record ChatResult : Type 0 where
  pub success : Bool
  pub response_text : String
  pub tool_calls : List NativeToolCall
  pub refusal : Option String
  pub error_codes : List String

pub record AgentResponse : Type 0 where
  pub message : String
  pub followup_question : Option String

pub record ToolObservation : Type 0 where
  pub tool_name : String
  pub success : Bool
  pub error_code : String

-- What stays the same in a run: the limits, the request, and the outside world. The model's answer to
-- the run's n-th chat is `chat n`. `parse` reads a decision off a text that is not blank. Call number n
-- of a run has the results `attempts tool input n` at its attempts. `observe` is none where the
-- observation of a result cannot be made and an exception is raised.
pub record Env : Type 0 where
  pub max_tool_iterations : ℕ
  pub max_plan_steps : ℕ
  pub max_plan_revisions : ℕ
  pub is_mock : Bool
  pub native_tools : Bool
  pub request : UserRequest
  pub memory_summaries : List String
  pub registry : List String
  pub fits : String → Dict Value → Bool
  pub chat : ℕ → ChatResult
  pub parse : String → AssistantDecision
  pub detected_intent : String
  pub rule_plan : TaskPlan
  pub build_tool_input : TaskStep → Dict ToolResult → Dict Value
  pub compare_input : ToolResult → Dict Value
  pub repair_input : Dict Value → Dict Value → Dict Value
  pub retry : RetryPolicy
  pub recovery : RecoveryPolicy
  pub estimated_cost : String → Dict Value → Option ℕ
  pub input_size_bytes : String → Dict Value → ℕ
  pub attempts : String → Dict Value → ℕ → ℕ → ToolResult
  pub observe : ToolResult → Option ToolObservation

-- `PlanStatus`: `no_plan` is its "none".
pub data PlanStatus : Type 0 where
  no_plan : PlanStatus
  active : PlanStatus
  replanning : PlanStatus
  finished : PlanStatus
  broken : PlanStatus

pub record LoopState : Type 0 where
  pub agent : AgentState
  pub intent : Option String
  pub plan : Option TaskPlan
  pub plan_status : PlanStatus
  pub plan_mode : Bool
  pub current_step_id : Option String
  pub plan_revision_count : ℕ
  pub response : Option AgentResponse
  pub node_errors : List String
  pub guard : LoopGuard
  pub overflow_retries : ℕ
  pub chats : ℕ
  pub outputs_by_step : Dict ToolResult
  pub observations : List ToolObservation
  pub decision : Option AssistantDecision
  pub iterations : ℕ

-- a run at its start
abbrev pub start : ProviderCallBudget → LoopState
start budget = record {
  agent = fresh budget;
  intent = none;
  plan = none;
  plan_status = no_plan;
  plan_mode = false;
  current_step_id = none;
  plan_revision_count = 0;
  response = none;
  node_errors = [];
  guard = Guard.init;
  overflow_retries = 0;
  chats = 0;
  outputs_by_step = [];
  observations = [];
  decision = none;
  iterations = 0;
}

abbrev pub with_status : RunStatus → LoopState → LoopState
with_status status s = record s { agent = record s.agent { status = status } }

-- `AgentState.set_response`
abbrev pub set_response : AgentResponse → LoopState → LoopState
set_response r s = with_status completed (record s { response = some r })

-- `AgentState.set_plan`
abbrev pub set_plan : TaskPlan → LoopState → LoopState
set_plan plan s =
    with_status (if plan.requires_followup then waiting_user else Run.active)
      (record s { plan = some plan; plan_status = active })

abbrev pub is_open : PlanStatus → Bool
is_open active = true
is_open replanning = true
is_open _ = false

-- `_is_plan_mode_active`
abbrev pub is_plan_mode_active : LoopState → Bool
is_plan_mode_active s = s.plan_mode && (is_some s.plan && is_open s.plan_status)

-- `_mark_plan_mode_status`
abbrev pub mark_plan_mode_status : PlanStatus → LoopState → LoopState
mark_plan_mode_status status s = record s {
  plan_status = status;
  plan_mode = is_some s.plan && is_open status;
}

abbrev pub add_error : String → LoopState → LoopState
add_error code s = record s { node_errors = s.node_errors ++ code ∷ [] }

abbrev pub add_observation : ToolObservation → LoopState → LoopState
add_observation o s = record s { observations = s.observations ++ o ∷ [] }

abbrev pub rejected_observation : String → String → ToolObservation
rejected_observation tool_name code = record {
  tool_name = tool_name;
  success = false;
  error_code = code;
}

abbrev pub is_completed : RunStatus → Bool
is_completed completed = true
is_completed _ = false

abbrev pub is_failed : RunStatus → Bool
is_failed Run.stopped = true
is_failed _ = false
