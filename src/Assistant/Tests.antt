-- ===== src/Assistant/Tests.antt =====
-- Runs of the loop with a model that answers in one way.
use Prim.Native.Nat.{◌-◌}
use runtime_assistant_agent.Base.{
  String, ◌||◌, ◌⊎◌, ◌==◌, if◌then◌else◌, ℕ, ◌+◌, ◌≤◌, ◌<◌, true, false, ◌≡◌, ◌≢◌, refl, Option,
  none, some, [], ◌∷◌, length, All, is_some, get_or, ap, arith,
}
use runtime_assistant_agent.Base.Dict.{Dict, lookup, insert}
use runtime_assistant_agent.Base.Strings.{is_space}
use runtime_assistant_agent.Budget.{ProviderCallBudget, check_before_call, record_call}
use runtime_assistant_agent.Plan.{TaskStep, TaskPlan, step_ids, validate, first_cycle}
use runtime_assistant_agent.Plan.Validate.{IsKnown, HasOrder}
use runtime_assistant_agent.Executor.{
  ToolResult, default_retryable_provider_errors, run_tool, run_with_retry, capability_name,
  is_retryable,
}
use runtime_assistant_agent.Actions.{
  Value, final_answer, tool_call, enter_plan_mode, AssistantDecision, semantic_error,
  validate_action, has_explicit_render_intent,
}
use runtime_assistant_agent.Actions.Accepted.{IsAcceptable}
use runtime_assistant_agent.LoopGuard.{failures, record_tool_result}
use runtime_assistant_agent.LoopGuard.Counts.{open_failures}
use runtime_assistant_agent.Assistant.Stopping.{on_record, is_fatal, failed_call_stops_run}
use runtime_assistant_agent.Assistant.{
  Env, LoopState, ChatResult, NativeToolCall, start, active, is_completed, is_plan_mode_active,
}
use runtime_assistant_agent.Assistant.Decide.{decide_with_llm, answer, to_assistant_decision}
use runtime_assistant_agent.Assistant.Guards.{
  apply_decision_guards, apply_terminal_decision, required_price_compare, asks_for_price_compare,
  should_preserve,
}
use runtime_assistant_agent.Assistant.Execute.{note_result, execute_tool, current_plan_step}
use runtime_assistant_agent.Assistant.Loop.{
  execute, assistant_node, decide_next_action, route_after_assistant, run_loop, run_for,
}
use runtime_assistant_agent.Assistant.Limits.{calls_stay_below_limit}
use runtime_assistant_agent.Assistant.Ending.{loop_ends}
use runtime_assistant_agent.Assistant.Leaving.{LeavesAlways, reply, leave, leaving_never_ends}
use runtime_assistant_agent.Assistant.Ready.{IsReady, planned_call-IsReady}
use runtime_assistant_agent.Assistant.Repeats.{terminal_tool_is_not_repeated}
use runtime_assistant_agent.Assistant.Plans.{plan_of_run_is_executable}

abbrev budget : ProviderCallBudget
budget = record {
  max_provider_calls_per_run = 9;
  max_calls_per_capability = [];
  max_estimated_cost_per_run = none;
  max_input_bytes_per_run = none;
  call_records = [];
}

abbrev found : ToolResult
found = record {
  tool_name = "product_search";
  success = true;
  has_items = true;
  error_code = "";
  estimated_cost = none;
}

abbrev search_input : Dict Value
search_input = ("query", Value.text "mug") ∷ []

abbrev native_search : ChatResult
native_search = record {
  success = true;
  response_text = "";
  tool_calls = record { name = "product_search"; arguments = search_input } ∷ [];
  refusal = none;
  error_codes = [];
}

abbrev search_step : TaskStep
search_step = record {
  step_id = "search";
  action = "search_product";
  tool_name = some "product_search";
  depends_on = [];
  optional = false;
}

abbrev plan : TaskPlan
plan = record { steps = search_step ∷ []; requires_followup = false; followup_question = none }

abbrev plan_decision : AssistantDecision
plan_decision = record {
  type = enter_plan_mode;
  message = none;
  tool_name = none;
  tool_input = none;
  step_id = none;
  plan = some plan;
  next_action = none;
  reason = none;
}

abbrev search_decision : AssistantDecision
search_decision = record {
  type = tool_call;
  message = none;
  tool_name = some "product_search";
  tool_input = some search_input;
  step_id = none;
  plan = none;
  next_action = none;
  reason = none;
}

-- a model that calls for a search in every turn
abbrev searching : Env
searching = record {
  max_tool_iterations = 3;
  max_plan_steps = 8;
  max_plan_revisions = 2;
  is_mock = false;
  native_tools = true;
  request = record { text = some "a mug"; image_ids = []; video_ids = [] };
  memory_summaries = [];
  registry = "product_search" ∷ [];
  fits = λ tool input. true;
  chat = λ n. native_search;
  parse = λ text. answer final_answer (some text) "No valid JSON found, treated as final_answer.";
  detected_intent = "product_search";
  rule_plan = plan;
  build_tool_input = λ step outputs. search_input;
  compare_input = λ result. [];
  repair_input = λ proposed fallback. fallback;
  retry = record { max_retries = 1; retry_on = default_retryable_provider_errors };
  recovery = record { allow_skip_optional_steps = true; allow_partial_response = true };
  estimated_cost = λ tool input. none;
  input_size_bytes = λ tool input. 5;
  attempts = λ tool input n k. found;
  observe = λ r. some (record { tool_name = r.tool_name; success = r.success; error_code = "" });
}

-- a model that leaves plan mode in every turn
abbrev leaving : Env
leaving = record searching { native_tools = false; chat = λ n. reply "{}"; parse = λ text. leave }

abbrev calls_of : Option LoopState → ℕ
calls_of none = 0
calls_of (some s) = length s.agent.tool_calls

two_searches : calls_of (run_loop 9 searching (start budget)) ≡ 2
unfolding run_loop assistant_node decide_next_action decide_with_llm apply_decision_guards
    required_price_compare asks_for_price_compare apply_terminal_decision should_preserve
    route_after_assistant execute_tool current_plan_step validate_action semantic_error
    has_explicit_render_intent run_tool run_with_retry check_before_call capability_name lookup
    record_call is_retryable insert record_tool_result is_space
two_searches = refl

some_of : (o : Option LoopState) (s : LoopState) → is_some o ≡ true → o ≡ some (get_or o s)
some_of none s h = cc
some_of (some t) s h = refl

-- a run that leaves plan mode in every round and never ends
calls_stay_below_limit_example :
    (s : LoopState) × (run_for 100 leaving (start budget) ≡ some s)
    × ((run_loop 100 leaving (start budget) ≡ none)
        ⊎ (run_loop 100 leaving (start budget) ≡ some s))
    × (length s.agent.tool_calls ≤ 3 - 1)
    × (s.plan_revision_count ≤ 2)
calls_stay_below_limit_example = calls_stay_below_limit leaving 100 budget

-- a parser that reads a text as leaving plan mode, which the model does not answer
abbrev careful : Env
careful = record searching {
  parse = λ text. if text == "leave" then leave else answer final_answer (some text) "An answer.";
}

loop_ends_example : (s : LoopState) × (run_loop (3 + 2 + 3) careful (start budget) ≡ some s)
loop_ends_example = loop_ends careful (λ n. refl) (λ n. refl) budget

leaving-LeavesAlways : LeavesAlways leaving "{}"
unfolding asks_for_price_compare is_space
leaving-LeavesAlways = record {
  online = refl;
  plain = refl;
  other_request = refl;
  chats = λ n. refl;
  full = refl;
  read = refl;
}

leaving_never_ends_example : run_loop 1000 leaving (start budget) ≡ none
leaving_never_ends_example = leaving_never_ends leaving "{}" leaving-LeavesAlways 1000 budget

-- a run in plan mode
abbrev planned : LoopState
planned = record (start budget) { plan = some plan; plan_status = active; plan_mode = true }

abbrev executed : LoopState
executed = get_or (execute_tool searching search_decision planned) planned

executes : execute_tool searching search_decision planned ≡ some executed
unfolding execute_tool current_plan_step validate_action semantic_error has_explicit_render_intent
    run_tool run_with_retry check_before_call capability_name lookup record_call is_retryable insert
    record_tool_result
executes = refl

one_call : length executed.agent.tool_calls ≡ 1
unfolding execute_tool current_plan_step validate_action semantic_error has_explicit_render_intent
    run_tool run_with_retry check_before_call capability_name lookup record_call is_retryable insert
    record_tool_result
one_call = refl

new_call : executed.agent.tool_calls ≢ planned.agent.tool_calls
new_call e = absurd (omega (arith, one_call, ap length e))

planned_call-IsReady_example :
    (step : TaskStep) × IsReady plan (some "product_search") [] step
    × IsAcceptable (λ tool input. true) ("product_search" ∷ []) search_decision searching.request
planned_call-IsReady_example =
    planned_call-IsReady searching search_decision refl planned executed plan refl refl executes
      new_call

-- a model that calls for an image
abbrev draw : NativeToolCall
draw = record { name = "image_generation"; arguments = ("prompt", Value.text "a mug") ∷ [] }

abbrev image : ToolResult
image = record found { tool_name = "image_generation" }

abbrev drawing : Env
drawing = record searching {
  chat = λ n. record native_search { tool_calls = draw ∷ [] };
  registry = "image_generation" ∷ [];
  attempts = λ tool input n k. image;
}

abbrev drawn : LoopState
drawn = get_or (execute_tool drawing (to_assistant_decision draw) (start budget)) (start budget)

draws : execute_tool drawing (to_assistant_decision draw) (start budget) ≡ some drawn
unfolding execute_tool current_plan_step validate_action semantic_error has_explicit_render_intent
    run_tool run_with_retry check_before_call capability_name lookup record_call is_retryable insert
    record_tool_result
draws = refl

drawn_image : drawn.agent.tool_results ≡ image ∷ []
unfolding execute_tool current_plan_step validate_action semantic_error has_explicit_render_intent
    run_tool run_with_retry check_before_call capability_name lookup record_call is_retryable insert
    record_tool_result
drawn_image = refl

drawn_outside_plan_mode : is_plan_mode_active (assistant_node drawing drawn) ≡ false
unfolding execute_tool current_plan_step validate_action semantic_error has_explicit_render_intent
    run_tool run_with_retry check_before_call capability_name lookup record_call is_retryable insert
    record_tool_result assistant_node decide_next_action decide_with_llm apply_decision_guards
    required_price_compare asks_for_price_compare apply_terminal_decision should_preserve is_space
drawn_outside_plan_mode = refl

after_drawing : run_for 0 drawing drawn ≡ some drawn
unfolding run_for
after_drawing = refl

terminal_tool_is_not_repeated_example :
    route_after_assistant drawing (assistant_node drawing drawn)
    ≢ execute (to_assistant_decision draw)
terminal_tool_is_not_repeated_example =
    terminal_tool_is_not_repeated drawing "image_generation" (to_assistant_decision draw)
      (to_assistant_decision draw) (start budget) drawn drawn image
      (record { tool_name = "image_generation"; success = true; error_code = "" }) 0 refl refl draws
      drawn_image refl refl after_drawing drawn_outside_plan_mode refl

-- a model that plans in every turn
abbrev planning : Env
planning = record leaving { parse = λ text. plan_decision }

abbrev revised : LoopState
revised = get_or (run_loop 9 planning (start budget)) (start budget)

planning_is_over : is_some (run_loop 9 planning (start budget)) ≡ true
unfolding run_loop assistant_node decide_next_action decide_with_llm apply_decision_guards
    required_price_compare asks_for_price_compare apply_terminal_decision route_after_assistant
    validate first_cycle lookup insert is_space
planning_is_over = refl

planning_ends : run_loop 9 planning (start budget) ≡ some revised
planning_ends = some_of (run_loop 9 planning (start budget)) (start budget) planning_is_over

planning_keeps_plan : revised.plan ≡ some plan
unfolding run_loop assistant_node decide_next_action decide_with_llm apply_decision_guards
    required_price_compare asks_for_price_compare apply_terminal_decision route_after_assistant
    validate first_cycle lookup insert is_space
planning_keeps_plan = refl

plan_of_run_is_executable_example :
    (0 < length plan.steps)
    × (length plan.steps ≤ 8)
    × All (IsKnown (step_ids plan.steps) ("product_search" ∷ [])) plan.steps
    × HasOrder plan.steps
plan_of_run_is_executable_example =
    plan_of_run_is_executable planning refl 9 budget revised plan planning_ends planning_keeps_plan
      refl

abbrev not_found : ToolResult
not_found = record found { success = false }

no_failures : (t : String) → failures t (start budget).guard ≡ open_failures t []
unfolding lookup
no_failures t = refl

failed_call_stops_run_example :
    ((t : String)
      → failures t (note_result none "product_search" not_found (start budget)).guard
        ≡ open_failures t (on_record none "product_search" not_found []))
    × (is_completed (note_result none "product_search" not_found (start budget)).agent.status
        ≡ (is_completed (start budget).agent.status || is_fatal none not_found (start budget)))
failed_call_stops_run_example =
    failed_call_stops_run none "product_search" not_found [] (start budget) no_failures
