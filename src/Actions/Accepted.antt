-- ===== src/Actions/Accepted.antt =====
-- What an accepted action holds.
use runtime_assistant_agent.Base.{
  String, Bool, true, false, not, ◌≡◌, refl, subst, ◌⊎◌, Option, none, some, List, [], ◌∷◌, ◌==◌,
  if◌then◌else◌, is_some, get_or, given, contains, any, arith, eq_iff,
}
use runtime_assistant_agent.Base.Dict.{Dict, lookup}
use runtime_assistant_agent.Actions.{
  Value, tool_call, AssistantDecision, UserRequest, ActionValidationResult, reject, has_words,
  has_explicit_render_intent, validate_action, with_tool, with_input, unless_error, last_checks,
  semantic_error, memory_save_source_error, intent_error, known_intents, is_blank, only_calls,
}

-- The source that a save must name: an intent that is not the confirmation service's, with words
-- under each key of evidence.
pub record IsSourced (input : Dict Value) : Type 0 where
  pub intent : String
  pub stated : lookup "source_intent" input ≡ some (Value.text intent)
  pub allowed : (intent ≡ "user_explicit") ⊎ (intent ≡ "assistant_candidate")
  pub reason : has_words (lookup "source_reason" input) ≡ true
  pub future : has_words (lookup "future_use" input) ≡ true
  pub evidence : has_words (lookup "evidence" input) ≡ true

pub record IsAcceptable (fits : String → Dict Value → Bool) (registry : List String)
    (d : AssistantDecision) (r : UserRequest) : Type 0 where
  pub tool : String
  pub input : Dict Value
  pub named : d.tool_name ≡ some tool
  pub given_input : d.tool_input ≡ some input
  pub registered : contains registry tool ≡ true
  pub fitting : fits tool input ≡ true
  pub sourced : tool ≡ "memory_save" → IsSourced input
  pub rendered : tool ≡ "render_3d" → has_explicit_render_intent (get_or r.text "") input ≡ true

-- a chain of checks without an error
passed :
    (b : Bool) (code : String) {rest : Option String}
    → (if b then some code else rest) ≡ none
    → (b ≡ false) × (rest ≡ none)
passed true code h = cc
passed false code h = (refl, h)

not-false : (b : Bool) → not b ≡ false → b ≡ true
not-false b h = ground arith

intent_cases :
    (v : Option Value)
    → intent_error v ≡ none
    → (s : String) × (v ≡ some (Value.text s))
      × ((s ≡ "user_explicit") ⊎ (s ≡ "assistant_candidate"))
intent_cases none h = cc
intent_cases (some (Value.dict d shown)) h = cc
intent_cases (some (Value.other b shown)) h = cc
intent_cases (some (Value.text s)) h =
    let (blank, h1) = passed (is_blank s) "invalid_tool_input" h in
    let (known, h2) = passed (not (contains known_intents s)) "invalid_tool_input" h1 in
    let (own, h3) = passed (s == "user_confirmed") "invalid_tool_input" h2 in
    (
      s,
      refl,
      ground (
        arith,
        eq_iff "user_explicit" s,
        eq_iff "assistant_candidate" s,
        eq_iff "user_confirmed" s,
        eq_iff s "user_confirmed",
      ),
    )

option_of_is_some : (o : Option String) → is_some o ≡ false → o ≡ none
option_of_is_some none h = refl
option_of_is_some (some x) h = cc

source-IsSourced : (input : Dict Value) → memory_save_source_error input ≡ none → IsSourced input
source-IsSourced input h =
    let (intent, h1) =
      passed (is_some (intent_error (lookup "source_intent" input))) "invalid_tool_input" h in
    let (evidence, h2) =
      passed
        (any (λ key. not (has_words (lookup key input)))
          ("source_reason" ∷ "future_use" ∷ "evidence" ∷ []))
        "invalid_tool_input" h1 in
    let (s, e, allowed) =
      intent_cases (lookup "source_intent" input) (option_of_is_some _ intent) in
    record {
      intent = s;
      stated = e;
      allowed = allowed;
      reason = ground arith;
      future = ground arith;
      evidence = ground arith;
    }

save-IsSourced : (input : Dict Value) → semantic_error "memory_save" input ≡ none → IsSourced input
unfolding semantic_error
save-IsSourced input h = source-IsSourced input (passed _ "invalid_tool_input" h).1

unless_error-accepted :
    (o : Option String) (rest : ActionValidationResult)
    → (unless_error o rest).accepted ≡ true
    → (o ≡ none) × (rest.accepted ≡ true)
unless_error-accepted none rest h = (refl, h)
unless_error-accepted (some code) rest h = cc

last_checks-accepted :
    (fits : String → Dict Value → Bool) (tool : String) (input : Dict Value) (r : UserRequest)
    → (last_checks fits tool input r).accepted ≡ true
    → (fits tool input ≡ true)
      × (tool ≡ "render_3d" → has_explicit_render_intent (get_or r.text "") input ≡ true)
last_checks-accepted fits tool input r h =
    (ground arith, λ e. ground (arith, eq_iff tool "render_3d"))

registered_first :
    (b : Bool) (x : ActionValidationResult)
    → (if b then x else reject "unknown_tool").accepted ≡ true
    → (b ≡ true) × (x.accepted ≡ true)
registered_first true x h = (refl, h)
registered_first false x h = cc

with_input-accepted :
    (fits : String → Dict Value → Bool) (registry : List String) (d : AssistantDecision)
    (tool : String) (input : Option (Dict Value)) (r : UserRequest)
    → d.tool_name ≡ some tool
    → d.tool_input ≡ input
    → (with_input fits registry tool input r).accepted ≡ true
    → IsAcceptable fits registry d r
with_input-accepted fits registry d tool none r name i h = cc
with_input-accepted fits registry d tool (some input) r name i h =
    let (known, passes) = registered_first (contains registry tool) _ h in
    let (media, h1) = unless_error-accepted _ _ passes in
    let (semantic, h2) = unless_error-accepted _ _ h1 in
    let (fitting, rendered) = last_checks-accepted fits tool input r h2 in
    record {
      tool = tool;
      input = input;
      named = name;
      given_input = i;
      registered = known;
      fitting = fitting;
      sourced = λ e. save-IsSourced input (subst (λ t. semantic_error t input ≡ none) e semantic);
      rendered = rendered;
    }

named_first :
    (empty : Bool) (fits : String → Dict Value → Bool) (registry : List String) (tool : String)
    (input : Option (Dict Value)) (r : UserRequest)
    → (with_tool fits registry (if empty then none else some tool) input r).accepted ≡ true
    → (with_input fits registry tool input r).accepted ≡ true
named_first true fits registry tool input r h = cc
named_first false fits registry tool input r h = h

with_tool-accepted :
    (fits : String → Dict Value → Bool) (registry : List String) (d : AssistantDecision)
    (name : Option String) (r : UserRequest)
    → d.tool_name ≡ name
    → (with_tool fits registry (given name) d.tool_input r).accepted ≡ true
    → IsAcceptable fits registry d r
with_tool-accepted fits registry d none r e h = cc
with_tool-accepted fits registry d (some tool) r e h =
    with_input-accepted fits registry d tool d.tool_input r e refl
      (named_first (tool == "") fits registry tool d.tool_input r h)

-- A tool call that the validator accepts names a tool of the registry and has an input that fits the
-- tool's schema. Where the tool is `memory_save`, the input states a source: an intent that is the
-- user's own or a candidate of the assistant, never the one reserved for the confirmation service, and
-- words under each of the three keys of evidence. Where the tool is `render_3d`, the request or the
-- input asks for rendering.
pub accepted_call-IsAcceptable :
    (fits : String → Dict Value → Bool) (registry : List String) (d : AssistantDecision)
    (r : UserRequest)
    → d.type ≡ tool_call
    → (validate_action fits registry d r).accepted ≡ true
    → IsAcceptable fits registry d r
unfolding validate_action
accepted_call-IsAcceptable fits registry d r t h =
    let result = with_tool fits registry (given d.tool_name) d.tool_input r in
    with_tool-accepted fits registry d d.tool_name r refl
      (subst (λ x. (only_calls x result).accepted ≡ true) t h)
