-- ===== src/Actions/Tests.antt =====
-- The validator at concrete actions.
use runtime_assistant_agent.Base.{String, Bool, true, ◌≡◌, refl, none, some, List, [], ◌∷◌}
use runtime_assistant_agent.Base.Dict.{Dict, lookup}
use runtime_assistant_agent.Base.Strings.{is_space}
use runtime_assistant_agent.Actions.{
  Value, tool_call, AssistantDecision, UserRequest, reject, semantic_error,
  has_explicit_render_intent, validate_action,
}
use runtime_assistant_agent.Actions.Accepted.{IsAcceptable, accepted_call-IsAcceptable}

abbrev request : UserRequest
request = record { text = some "remember my size"; image_ids = []; video_ids = [] }

abbrev registry : List String
registry = "memory_save" ∷ "render_3d" ∷ []

abbrev takes_all : String → Dict Value → Bool
takes_all tool input = true

abbrev call : String → Dict Value → AssistantDecision
call tool input = record {
  type = tool_call;
  message = none;
  tool_name = some tool;
  tool_input = some input;
  step_id = none;
  plan = none;
  next_action = none;
  reason = none;
}

abbrev save_as : String → AssistantDecision
save_as intent = call "memory_save" (
    ("query", Value.text "size 42")
    ∷ ("source_intent", Value.text intent)
    ∷ ("source_reason", Value.text "the user said so")
    ∷ ("future_use", Value.text "shoes")
    ∷ ("evidence", Value.text "my size is 42")
    ∷ [])

confirmed_is_reserved :
    validate_action takes_all registry (save_as "user_confirmed") request
    ≡ reject "invalid_tool_input"
unfolding validate_action semantic_error lookup is_space
confirmed_is_reserved = refl

render_needs_intent :
    validate_action takes_all registry (call "render_3d" []) request
    ≡ reject "render_intent_required"
unfolding validate_action semantic_error has_explicit_render_intent lookup is_space
render_needs_intent = refl

accepts : (validate_action takes_all registry (save_as "user_explicit") request).accepted ≡ true
unfolding validate_action semantic_error lookup is_space
accepts = refl

accepted_call-IsAcceptable_example :
    IsAcceptable takes_all registry (save_as "user_explicit") request
accepted_call-IsAcceptable_example =
    accepted_call-IsAcceptable takes_all registry (save_as "user_explicit") request refl accepts
