-- ===== src/Assistant/Leaving.antt =====
-- A model that leaves plan mode in every turn.
use runtime_assistant_agent.Base.{
  ℕ, zero, suc, String, Bool, true, false, ◌≡◌, refl, ◌∙◌, ap, none, some, [], if◌then◌else◌,
  get_or, not, ◌&&◌, ltb,
}
use runtime_assistant_agent.Base.Strings.{is_blank, is_in}
use runtime_assistant_agent.Budget.{ProviderCallBudget}
use runtime_assistant_agent.Actions.{exit_plan_mode, AssistantDecision}
use runtime_assistant_agent.Assistant.{Env, LoopState, ChatResult, start, is_completed, is_failed}
use runtime_assistant_agent.Assistant.Decide.{
  after_chat, decide_with_llm, interpret, should_repair, keep_to_limit, repaired, next_result,
  read_result, is_overflow, retry_overflow,
}
use runtime_assistant_agent.Assistant.Guards.{
  asks_for_price_compare, required_price_compare, apply_decision_guards, apply_terminal_decision,
}
use runtime_assistant_agent.Assistant.PlanMode.{exit}
use runtime_assistant_agent.Assistant.Loop.{
  assistant_node, decide_next_action, route_after_assistant, run_loop, decided, guarded, has_answer,
  follow, exit_plan,
}

-- the answer of a model in one text
abbrev pub reply : String → ChatResult
reply text = record {
  success = true;
  response_text = text;
  tool_calls = [];
  refusal = none;
  error_codes = [];
}

-- the decision to leave plan mode and to go on
abbrev pub leave : AssistantDecision
leave = record {
  type = exit_plan_mode;
  message = none;
  tool_name = none;
  tool_input = none;
  step_id = none;
  plan = none;
  next_action = some "continue";
  reason = none;
}

-- a model that answers every chat with the same text, which is read as that decision
pub record LeavesAlways (env : Env) (text : String) : Type 0 where
  pub online : env.is_mock ≡ false
  pub plain : env.native_tools ≡ false
  pub other_request : asks_for_price_compare (get_or env.request.text "") ≡ false
  pub chats : (n : ℕ) → env.chat n ≡ reply text
  pub full : is_blank text ≡ false
  pub read : env.parse text ≡ leave

if_and_false : {A : Type 0} (b : Bool) (x y : A) → (if b && false then x else y) ≡ y
if_and_false true x y = refl
if_and_false false x y = refl

module _ (env : Env) (text : String) (a : LeavesAlways env text) where
  -- neither ended nor failed
  abbrev Runs : LoopState → Type 0
  Runs s = (is_completed s.agent.status ≡ false) × (is_failed s.agent.status ≡ false)

  interpret-leaves : interpret env (reply text) ≡ leave
  interpret-leaves = rw (a.plain, a.full, a.read) refl

  -- what is read of an answer by its decision
  abbrev read_of : LoopState → AssistantDecision → LoopState × AssistantDecision
  read_of s d =
      if should_repair text d
      then keep_to_limit env (after_chat s) (repaired env (next_result env s) d)
      else keep_to_limit env s d

  read-leaves : (s : LoopState) → read_result env s (reply text) ≡ (s, leave)
  read-leaves s =
      ap (read_of s) interpret-leaves ∙ if_and_false (not (is_blank text) && is_in "{" text) _ _

  -- the decision by the answer to the first chat
  abbrev decide_of : LoopState → ChatResult → LoopState × AssistantDecision
  decide_of s r =
      if is_overflow r && ltb s.overflow_retries 1
      then retry_overflow env (after_chat s)
      else read_result env (after_chat s) r

  decide-leaves : (s : LoopState) → decide_next_action env s ≡ (after_chat s, leave)
  unfolding decide_next_action decide_with_llm
  decide-leaves s =
      let online : decide_next_action env s ≡ decide_with_llm env s = rw a.online refl in
      let first : decide_with_llm env s ≡ read_result env (after_chat s) (reply text) =
        ap (decide_of s) (a.chats s.chats) in
      online ∙ first ∙ read-leaves (after_chat s)

  guard-leaves : (s : LoopState) → apply_decision_guards env s leave ≡ (s, leave)
  unfolding apply_decision_guards required_price_compare
  guard-leaves s = rw a.other_request refl

  guarded-leaves : (s : LoopState) → guarded env (s, leave) ≡ decided leave s
  unfolding apply_terminal_decision
  guarded-leaves s =
      ap (λ (p : LoopState × AssistantDecision). decided p.1 (apply_terminal_decision env p.1 p.0))
        (guard-leaves s)

  node-leaves :
      (s : LoopState) → has_answer s ≡ false → assistant_node env s ≡ decided leave (after_chat s)
  unfolding assistant_node
  node-leaves s h =
      let first : assistant_node env s ≡ guarded env (decide_next_action env s) = rw h refl in
      first ∙ ap (guarded env) (decide-leaves s) ∙ guarded-leaves (after_chat s)

  -- leaving keeps the run going
  exit-Runs : (s : LoopState) → Runs s → Runs (exit leave s)
  exit-Runs s h = h

  run_loop-goes_on : (fuel : ℕ) (s : LoopState) → Runs s → run_loop fuel env s ≡ none
  unfolding run_loop
  run_loop-goes_on zero s h = refl
  run_loop-goes_on (suc fuel) s h =
      let t = decided leave (after_chat s) in
      let visit = node-leaves s (rw h.0 refl) in
      let route : route_after_assistant env t ≡ exit_plan leave =
        unfold route_after_assistant in rw (h.1, h.0) refl in
      ap (λ (u : LoopState). follow env (run_loop fuel env) u (route_after_assistant env u)) visit
      ∙ ap (follow env (run_loop fuel env) t) route
      ∙ run_loop-goes_on fuel (exit leave t) h

  -- Where the model, online and without native tools, answers every chat with a text that is read as the
  -- decision to leave plan mode and to continue, and the request does not ask for prices, the loop does
  -- not end, whatever the limits are: no fuel is enough.
  pub leaving_never_ends :
      (fuel : ℕ) (budget : ProviderCallBudget) → run_loop fuel env (start budget) ≡ none
  leaving_never_ends fuel budget = run_loop-goes_on fuel (start budget) (refl, refl)
