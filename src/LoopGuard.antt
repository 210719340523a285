-- ===== src/LoopGuard.antt =====
-- assistant_agent/src/assistant_agent/agent/loop_guard.py. The dict under `metadata["assistant_loop_guard"]`
-- is a record of the keys that the class uses; a key that is missing holds 0, {} or []. Messages are left
-- out of a decision.
pub mod Counts
mod Tests
use runtime_assistant_agent.Base.{
  ℕ, suc, String, Bool, true, false, Option, none, some, List, [], ◌∷◌, ◌++◌, ◌==◌, if◌then◌else◌,
  get_or, leb, contains,
}
use runtime_assistant_agent.Base.Dict.{Dict, lookup, insert, remove}

pub record LoopGuardDecision : Type 0 where
  pub triggered : Bool
  pub code : String

pub record LoopGuard : Type 0 where
  pub empty_decision_count : ℕ
  pub unknown_tool_count : ℕ
  pub invalid_tool_input_count : ℕ
  pub same_tool_failures : Dict ℕ
  pub succeeded_terminal_tools : List String

abbrev pub init : LoopGuard
init = record {
  empty_decision_count = 0;
  unknown_tool_count = 0;
  invalid_tool_input_count = 0;
  same_tool_failures = [];
  succeeded_terminal_tools = [];
}

abbrev pub same_tool_failure_limit : ℕ
same_tool_failure_limit = 1

abbrev pub unknown_tool_limit : ℕ
unknown_tool_limit = 1

abbrev pub invalid_tool_input_limit : ℕ
invalid_tool_input_limit = 1

abbrev pub empty_decision_limit : ℕ
empty_decision_limit = 1

abbrev pub terminal_tools : List String
terminal_tools = "image_generation" ∷ "render_3d" ∷ []

abbrev pub not_triggered : LoopGuardDecision
not_triggered = record { triggered = false; code = "ok" }

-- the decision at a count, in `_increment` and in `record_tool_result`
abbrev pub at_limit : ℕ → ℕ → String → LoopGuardDecision
at_limit value limit code =
    if leb limit value then record { triggered = true; code = code } else not_triggered

abbrev pub record_empty_decision : LoopGuard → LoopGuard × LoopGuardDecision
record_empty_decision g =
    let value = suc g.empty_decision_count in
    (
      record g { empty_decision_count = value },
      at_limit value empty_decision_limit "empty_decision_limit",
    )

abbrev pub add_once : String → List String → List String
add_once tool tools = if contains tools tool then tools else tools ++ tool ∷ []

abbrev pub record_terminal_tool_success : String → LoopGuard → LoopGuard
record_terminal_tool_success tool g =
    if contains terminal_tools tool
    then record g { succeeded_terminal_tools = add_once tool g.succeeded_terminal_tools }
    else g

abbrev pub terminal_tool_already_succeeded : String → LoopGuard → Bool
terminal_tool_already_succeeded tool g =
    if contains terminal_tools tool then contains g.succeeded_terminal_tools tool else false

abbrev pub invalid_input_codes : List String
invalid_input_codes =
    "invalid_tool_input" ∷ "missing_required_input" ∷ "render_intent_required" ∷ []

abbrev pub record_validation_rejection : String → LoopGuard → LoopGuard × LoopGuardDecision
record_validation_rejection code g =
    if code == "unknown_tool"
    then (
      record g { unknown_tool_count = suc g.unknown_tool_count },
      at_limit (suc g.unknown_tool_count) unknown_tool_limit "unknown_tool_limit",
    )
    else if contains invalid_input_codes code
    then (
      record g { invalid_tool_input_count = suc g.invalid_tool_input_count },
      at_limit (suc g.invalid_tool_input_count) invalid_tool_input_limit "invalid_tool_input_limit",
    )
    else (g, not_triggered)

-- `Counter(...)[tool_name]`
abbrev pub failures : String → LoopGuard → ℕ
failures tool g = get_or (lookup tool g.same_tool_failures) 0

unfoldable pub record_tool_result : String → Bool → LoopGuard → LoopGuard × LoopGuardDecision
record_tool_result tool true g =
    (record g { same_tool_failures = remove tool g.same_tool_failures }, not_triggered)
record_tool_result tool false g = (
  record g { same_tool_failures = insert tool (suc (failures tool g)) g.same_tool_failures },
  at_limit (suc (failures tool g)) same_tool_failure_limit "same_tool_failure_limit",
)
