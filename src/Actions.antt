-- ===== src/Actions.antt =====
-- assistant_agent/src/assistant_agent/agent/action_validator.py with the decision of
-- schemas/assistant_decision.py and the request's fields that it reads. A value of the tool's input is a
-- text, a dict, or something else, of which the truth and Python's text are kept; an item of an inner dict
-- is a text or something else by its truth. Messages are left out of a result. The schemas of the tools
-- are parameters: `fits tool input` is whether `input_schema.model_validate` takes the input.
pub mod Accepted
mod Tests
use runtime_assistant_agent.Base.{
  String, Bool, true, false, not, ◌&&◌, ◌||◌, Option, none, some, List, [], ◌∷◌, ◌==◌,
  if◌then◌else◌, get_or, given, is_some, contains, any,
}
use runtime_assistant_agent.Base.Dict.{Dict, lookup}
use runtime_assistant_agent.Base.Strings.{is_blank, is_in, is_in_lower, has_marker}
use runtime_assistant_agent.Plan.{TaskPlan}
use Prim.Native.String.{◌++◌ as ◌<>◌}

pub data Item : Type 0 where
  words : String → Item
  thing : Bool → Item

pub data Value : Type 0 where
  text : String → Value
  dict : Dict Item → String → Value
  other : Bool → String → Value

abbrev is_truthy_item : Item → Bool
is_truthy_item (words s) = not (s == "")
is_truthy_item (thing b) = b

-- the truth of a value
abbrev pub is_truthy : Value → Bool
is_truthy (text s) = not (s == "")
is_truthy (dict [] shown) = false
is_truthy (dict (x ∷ d) shown) = true
is_truthy (other b shown) = b

-- `str(value)`
abbrev pub str_of : Value → String
str_of (text s) = s
str_of (dict d shown) = shown
str_of (other b shown) = shown

pub data DecisionType : Type 0 where
  final_answer : DecisionType
  tool_call : DecisionType
  ask_followup : DecisionType
  enter_plan_mode : DecisionType
  exit_plan_mode : DecisionType

pub record AssistantDecision : Type 0 where
  pub type : DecisionType
  pub message : Option String
  pub tool_name : Option String
  pub tool_input : Option (Dict Value)
  pub step_id : Option String
  pub plan : Option TaskPlan
  pub next_action : Option String
  pub reason : Option String

pub record UserRequest : Type 0 where
  pub text : Option String
  pub image_ids : List String
  pub video_ids : List String

pub record ActionValidationResult : Type 0 where
  pub accepted : Bool
  pub code : String

abbrev pub accept : String → ActionValidationResult
accept code = record { accepted = true; code = code }

abbrev pub reject : String → ActionValidationResult
reject code = record { accepted = false; code = code }

abbrev truthy_option : Option Value → Bool
truthy_option none = false
truthy_option (some v) = is_truthy v

-- `tool_input.get(key)` in a test
abbrev pub has : String → Dict Value → Bool
has key input = truthy_option (lookup key input)

abbrev is_nonempty : List String → Bool
is_nonempty [] = false
is_nonempty (x ∷ xs) = true

abbrev media_error : String → Dict Value → UserRequest → Option String
media_error tool input r =
    if tool == "vision_understanding" && not (has "image_ids" input || is_nonempty r.image_ids)
    then some "missing_required_input"
    else if (tool == "video_understanding" && not (has "video_ref" input))
        && not (has "video_ids" input || is_nonempty r.video_ids)
    then some "missing_required_input"
    else none

abbrev truthy_item : Option Item → Bool
truthy_item none = false
truthy_item (some i) = is_truthy_item i

abbrev content_has_text : Option Value → Bool
content_has_text (some (dict d shown)) =
    truthy_item (lookup "text" d) || truthy_item (lookup "summary" d)
content_has_text _ = false

abbrev has_memory_save_text : Dict Value → Bool
has_memory_save_text input = has "query" input || content_has_text (lookup "content" input)

-- `isinstance(value, str) and value.strip()`
abbrev pub has_words : Option Value → Bool
has_words (some (text s)) = not (is_blank s)
has_words _ = false

abbrev invalid : Option String
invalid = some "invalid_tool_input"

abbrev known_intents : List String
known_intents = "user_explicit" ∷ "assistant_candidate" ∷ "user_confirmed" ∷ []

abbrev intent_error : Option Value → Option String
intent_error (some (text s)) =
    if is_blank s
    then invalid
    else if not (contains known_intents s)
    then invalid
    else if s == "user_confirmed"
    then invalid
    else none
intent_error _ = invalid

-- `_validate_memory_save_source`
abbrev pub memory_save_source_error : Dict Value → Option String
memory_save_source_error input =
    if is_some (intent_error (lookup "source_intent" input))
    then invalid
    else if any (λ key. not (has_words (lookup key input)))
        ("source_reason" ∷ "future_use" ∷ "evidence" ∷ [])
    then invalid
    else none

abbrev save_error : Dict Value → Option String
save_error input =
    if not (has_memory_save_text input) then invalid else memory_save_source_error input

abbrev is_text : String → Option Value → Bool
is_text s (some (text t)) = t == s
is_text s _ = false

-- `_validate_legacy_memory_tool_input`
abbrev legacy_memory_error : Dict Value → Option String
legacy_memory_error input =
    if is_text "retrieve" (lookup "action" input)
    then (if has "query" input then none else invalid)
    else if is_text "save" (lookup "action" input)
    then save_error input
    else invalid

abbrev has_agent_delegation_payload : Dict Value → Bool
has_agent_delegation_payload input =
    any (λ key. has key input) ("text" ∷ "image_ids" ∷ "video_ids" ∷ "audio_id" ∷ [])

abbrev delegation_error : Dict Value → Option String
delegation_error input =
    if not (has "target_agent_id" input)
    then invalid
    else if not (has_agent_delegation_payload input)
    then invalid
    else none

-- an error where none of the keys holds something
abbrev needs : List String → Dict Value → Option String
needs keys input = if any (λ key. has key input) keys then none else invalid

-- `_validate_required_semantic_inputs`
unfoldable pub semantic_error : String → Dict Value → Option String
semantic_error tool input =
    if tool == "image_generation"
    then needs ("prompt" ∷ "product_id" ∷ "product_title" ∷ "product_info" ∷ []) input
    else if tool == "product_search"
    then needs ("query" ∷ "visual_summary" ∷ []) input
    else if tool == "price_compare"
    then needs ("query" ∷ "items" ∷ []) input
    else if tool == "memory_retrieval"
    then needs ("query" ∷ []) input
    else if tool == "memory"
    then legacy_memory_error input
    else if tool == "memory_save"
    then save_error input
    else if tool == "delegate_to_agent"
    then delegation_error input
    else none

-- the values that hold something
abbrev shown_values : Dict Value → List String
shown_values [] = []
shown_values ((k, v) ∷ d) =
    let rest = shown_values d in if is_truthy v then str_of v ∷ rest else rest

-- `" ".join(texts)`
abbrev join_with_space : List String → String
join_with_space [] = ""
join_with_space (x ∷ []) = x
join_with_space (x ∷ y ∷ xs) = x <> " " <> join_with_space (y ∷ xs)

abbrev combined_text : String → Dict Value → String
combined_text request_text input =
    join_with_space
      (if request_text == "" then shown_values input else request_text ∷ shown_values input)

abbrev strong_markers : List String
strong_markers = "3d" ∷ "3D" ∷ "三维" ∷ "渲染" ∷ "建模" ∷ "模型" ∷ "场景预览" ∷ "展示空间" ∷ "创建场景" ∷ []

abbrev placing_verbs : List String
placing_verbs = "放到" ∷ "放进" ∷ "放入" ∷ []

abbrev spaces : List String
spaces = "客厅" ∷ "展厅" ∷ "办公室" ∷ "卧室" ∷ "空间" ∷ "场景" ∷ []

-- `_has_explicit_render_intent`
unfoldable pub has_explicit_render_intent : String → Dict Value → Bool
has_explicit_render_intent request_text input =
    let combined = combined_text request_text input in
    (has_marker strong_markers combined || is_in_lower "3d" combined)
    || (has_marker placing_verbs combined && has_marker spaces combined)

-- an early return where there is an error
abbrev pub unless_error : Option String → ActionValidationResult → ActionValidationResult
unless_error (some code) rest = reject code
unless_error none rest = rest

-- the checks behind the media and the required inputs
abbrev pub last_checks :
    (String → Dict Value → Bool) → String → Dict Value → UserRequest → ActionValidationResult
last_checks fits tool input r =
    if tool == "render_3d" && not (has_explicit_render_intent (get_or r.text "") input)
    then reject "render_intent_required"
    else if fits tool input
    then accept "accepted"
    else reject "invalid_tool_input"

-- the checks of a call of a tool that is registered, in their order
abbrev checked :
    (String → Dict Value → Bool) → String → Dict Value → UserRequest → ActionValidationResult
checked fits tool input r =
    unless_error (media_error tool input r)
      (unless_error (semantic_error tool input) (last_checks fits tool input r))

abbrev with_input :
    (String → Dict Value → Bool)
    → List String
    → String
    → Option (Dict Value)
    → UserRequest
    → ActionValidationResult
with_input fits registry tool none r = reject "invalid_tool_input"
with_input fits registry tool (some input) r =
    if contains registry tool then checked fits tool input r else reject "unknown_tool"

abbrev with_tool :
    (String → Dict Value → Bool)
    → List String
    → Option String
    → Option (Dict Value)
    → UserRequest
    → ActionValidationResult
with_tool fits registry none input r = reject "missing_tool_name"
with_tool fits registry (some tool) input r = with_input fits registry tool input r

abbrev pub only_calls : DecisionType → ActionValidationResult → ActionValidationResult
only_calls tool_call result = result
only_calls _ result = accept "not_tool_call"

-- `ActionValidator.validate`
unfoldable pub validate_action :
    (String → Dict Value → Bool)
    → List String
    → AssistantDecision
    → UserRequest
    → ActionValidationResult
validate_action fits registry decision r =
    only_calls decision.type
      (with_tool fits registry (given decision.tool_name) decision.tool_input r)
