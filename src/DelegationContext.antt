-- ===== src/DelegationContext.antt =====
-- assistant_agent/src/assistant_agent/services/agent_delegation_context.py: what of a task's metadata goes
-- to the agent that the task is handed to. Of a task the fields that `build` reads or writes are kept; a
-- value of the metadata is kept as far as its shape is looked at. `clean`, `clean_value` and `clean_refs`
-- stand for `sanitize_error_message` and `sanitize_error_detail` of services/provider_errors.py, whose bodies
-- are chains of regular expressions. Texts are lowered over ASCII.
pub mod Allowed
pub mod Refs
mod Tests
use runtime_assistant_agent.Base.{
  ℕ, String, Bool, true, false, not, ◌&&◌, ◌||◌, Option, none, some, List, [], ◌∷◌, ◌++◌, map, ◌==◌,
  suc, if◌then◌else◌, given, get_or, is_some, leb, ltb, nat_beq, contains, any, take, length,
}
use runtime_assistant_agent.Base.Dict.{Dict, lookup, insert}
use runtime_assistant_agent.Base.Strings.{
  between, is_space, strip_text, starts_with, ends_with, is_in, lower, collapse, strip_start_of,
  strip_end_of, text_length, text_take, prefixed,
}

-- a value of a dict of JSON: a text, or another value that is true or false
pub data Field : Type 0 where
  str : String → Field
  other : Bool → Field

-- The keys of a tool's result that `_ref_from_item` reads. `output_refs` is none where it is no list.
pub record ToolItem : Type 0 where
  pub output_ref : Option Field
  pub output_refs : Option (List Field)
  pub artifact_ref : Option Field
  pub reference : Option Field
  pub tool_name : Option Field
  pub status : Option Field
  pub capability : Option Field
  pub error : Option Field

-- a reference to the output of a tool
pub record ToolRef : Type 0 where
  pub output_ref : String
  pub tool_name : Option String
  pub status : Option String
  pub capability : Option String
  pub error_summary : Option String

-- `OmittedDelegationContext`
pub record OmittedContext : Type 0 where
  pub key : String
  pub reason : String

-- `MemoryScopeFilter.metadata`
pub record MemoryScope : Type 0 where
  pub identity_source : String
  pub user_id : String
  pub session_id : String
  pub parent_memory_forwarded : Bool

-- `agent_context`; `tool_result_refs` is empty where the key is absent
pub record AgentContext : Type 0 where
  pub context_refs : List String
  pub memory_scope : MemoryScope
  pub omitted_context : List OmittedContext
  pub omitted_context_count : ℕ
  pub tool_result_refs : List ToolRef

pub record ChildContextBudget : Type 0 where
  pub token_budget : Option ℕ
  pub tool_budget : Option ℕ
  pub timeout_ms : ℕ
  pub delegation_depth : ℕ
  pub max_delegation_depth : ℕ

-- an item of a list in the metadata
pub data Item : Type 0 where
  text_item : String → Item
  dict_item : ToolItem → Item
  other_item : Item

-- a value of the metadata
pub data Value : Type 0 where
  text : String → Value
  items : List Item → Value
  dict : ToolItem → Value
  tool_refs : List ToolRef → Value
  agent_context : AgentContext → Value
  child_budget : ChildContextBudget → Value
  scalar : Value

-- `AgentTask`; the first two are of its session, `message_metadata` is of its message
pub record AgentTask : Type 0 where
  pub user_id : String
  pub session_id : String
  pub message_metadata : Dict Value
  pub metadata : Dict Value
  pub token_budget : Option ℕ
  pub tool_budget : Option ℕ
  pub timeout_ms : ℕ
  pub delegation_depth : ℕ
  pub max_delegation_depth : ℕ

-- `DelegationContextPack`
pub record ContextPack : Type 0 where
  pub task : AgentTask
  pub omitted_context : List OmittedContext
  pub child_context_budget : ChildContextBudget
  pub tool_result_refs : List ToolRef

-- `ChildContextBudget.from_task`
abbrev pub from_task : AgentTask → ChildContextBudget
from_task t = record {
  token_budget = t.token_budget;
  tool_budget = t.tool_budget;
  timeout_ms = t.timeout_ms;
  delegation_depth = t.delegation_depth;
  max_delegation_depth = t.max_delegation_depth;
}

abbrev is_underscore : ℕ → Bool
is_underscore c = nat_beq c 95

abbrev is_separator : ℕ → Bool
is_separator c = not (between 97 122 c || between 48 57 c)

-- `_normalize_key`
unfoldable pub normalize_key : String → String
normalize_key key =
    strip_end_of is_underscore
      (strip_start_of is_underscore (collapse is_separator "_" false (lower (strip_text key))))

abbrev pub memory_keys : List String
memory_keys =
    "memory" ∷ "memory_blocks" ∷ "memory_items" ∷ "memory_snapshot" ∷ "memory_summaries"
    ∷ "memory_text" ∷ "parent_memory" ∷ "retrieved_memories" ∷ []

-- `MemoryScopeFilter.is_memory_context_key`
abbrev pub is_memory_context_key : String → Bool
is_memory_context_key key =
    let normalized = normalize_key key in
    starts_with normalized "memory_context" || contains memory_keys normalized

-- `MemoryScopeFilter.metadata`
abbrev pub memory_scope_metadata : AgentTask → MemoryScope
memory_scope_metadata t = record {
  identity_source = "agent_session_ref";
  user_id = t.user_id;
  session_id = t.session_id;
  parent_memory_forwarded = false;
}

abbrev pub safe_message_keys : List String
safe_message_keys =
    "capability" ∷ "client_request_id" ∷ "context_refs" ∷ "locale" ∷ "request_origin" ∷ "source"
    ∷ "timezone" ∷ []

abbrev pub safe_task_keys : List String
safe_task_keys =
    "capability" ∷ "context_refs" ∷ "delegation_budget" ∷ "delegation_pairs" ∷ "request_origin"
    ∷ "routing_reason" ∷ "tool" ∷ []

abbrev pub parent_context_keys : List String
parent_context_keys =
    "assistant_messages" ∷ "conversation" ∷ "conversation_history" ∷ "history" ∷ "messages"
    ∷ "parent_context" ∷ "parent_history" ∷ "prompt" ∷ "raw_prompt" ∷ "transcript" ∷ []

abbrev pub tool_result_keys : List String
tool_result_keys = "tool_result" ∷ "tool_results" ∷ "tool_observation" ∷ "tool_observations" ∷ []

-- `_RAW_OR_SECRET_MARKERS` without `raw`, which is looked for in another way
abbrev secret_markers : List String
secret_markers =
    "api_key" ∷ "apikey" ∷ "authorization" ∷ "base64" ∷ "bearer" ∷ "cookie" ∷ "data_uri"
    ∷ "password" ∷ "provider_payload" ∷ "provider_response" ∷ "secret" ∷ "token" ∷ []

-- `_has_raw_or_secret_marker`
abbrev pub has_raw_or_secret_marker : String → Bool
has_raw_or_secret_marker normalized =
    normalized == "raw"
    || starts_with normalized "raw_"
    || is_in "_raw_" normalized
    || any (λ marker. is_in marker normalized) secret_markers

-- `_is_large_text`
abbrev pub is_large_text : Value → Bool
is_large_text (text s) = ltb 1000 (text_length s)
is_large_text _ = false

-- `_omit_reason`
unfoldable pub omit_reason : List String → String → Value → Option String
omit_reason safe_keys key value =
    if is_memory_context_key key
    then some "memory_context_not_forwarded"
    else if contains tool_result_keys (normalize_key key)
    then some "tool_result_pruned"
    else if contains parent_context_keys (normalize_key key)
        || ends_with (normalize_key key) "_history"
    then some "parent_context_not_forwarded"
    else if has_raw_or_secret_marker (normalize_key key)
    then some "raw_or_secret_payload_not_forwarded"
    else if is_large_text value
    then some "large_value_not_forwarded"
    else if not (contains safe_keys key)
    then some "not_allowlisted"
    else none

abbrev secret_key_names : List String
secret_key_names =
    "api_key" ∷ "apikey" ∷ "authorization" ∷ "bearer" ∷ "cookie" ∷ "secret" ∷ "token" ∷ "password"
    ∷ []

-- `_context_key_name`
abbrev pub context_key_name : String → String
context_key_name key =
    let joined = collapse is_space " " false (strip_text key) in
    let normalized = normalize_key joined in
    if contains secret_key_names normalized
    then collapse is_underscore "-" false normalized
    else if leb (text_length joined) 100
    then joined
    else prefixed (text_take joined 97) "..."

-- a text that is not empty
abbrev given_text : Option Field → Option String
given_text (some (str s)) = given (some s)
given_text _ = none

abbrev is_true : Option Field → Bool
is_true none = false
is_true (some (str s)) = not (s == "")
is_true (some (other b)) = b

-- `next((ref for ref in output_refs if isinstance(ref, str) and ref), None)`
abbrev first_text : List Field → Option String
first_text [] = none
first_text (f ∷ fs) =
    let rest = first_text fs in elim (given_text (some f)) [ none ↦ rest | some s ↦ some s ]

abbrev first_output_ref : Option (List Field) → Option String
first_output_ref none = none
first_output_ref (some refs) = first_text refs

-- the reference that `_ref_from_item` finds
abbrev output_ref_of : ToolItem → Option String
output_ref_of item = elim (given_text item.output_ref) [
  | some s ↦ some s
  | none ↦ elim (first_output_ref item.output_refs) [
    | some s ↦ some s
    | none ↦ given_text (if is_true item.artifact_ref then item.artifact_ref else item.reference)
  ]
]

abbrev map_some : (String → String) → Option String → Option String
map_some f none = none
map_some f (some s) = some (f s)

abbrev ref_of : (String → String) → ToolItem → Option String → List ToolRef
ref_of clean item none = []
ref_of clean item (some output_ref) =
    record {
      output_ref = clean output_ref;
      tool_name = map_some clean (given_text item.tool_name);
      status = map_some clean (given_text item.status);
      capability = map_some clean (given_text item.capability);
      error_summary = map_some clean (given_text item.error);
    }
    ∷ []

-- `ToolResultPruner._ref_from_item`, as a list of at most one
abbrev pub ref_from_item : (String → String) → Item → List ToolRef
ref_from_item clean (dict_item item) = ref_of clean item (output_ref_of item)
ref_from_item clean _ = []

abbrev refs_from_items : (String → String) → List Item → List ToolRef
refs_from_items clean [] = []
refs_from_items clean (i ∷ is) = ref_from_item clean i ++ refs_from_items clean is

-- `value if isinstance(value, list) else [value]`
abbrev as_items : Value → List Item
as_items (items is) = is
as_items (dict item) = dict_item item ∷ []
as_items _ = []

-- `ToolResultPruner.prune`
abbrev pub prune : (String → String) → Value → List ToolRef
prune clean value = refs_from_items clean (take (as_items value) 20)

-- what `_filter_metadata` returns
pub record FilteredMetadata : Type 0 where
  pub kept : Dict Value
  pub omitted : List OmittedContext
  pub refs : List ToolRef

-- the functions that clean texts, values and references
pub record Cleaner : Type 0 where
  pub clean : String → String
  pub clean_value : Value → Value
  pub clean_refs : List ToolRef → List ToolRef

abbrev pruned : (String → String) → String → Value → List ToolRef
pruned clean reason value = if reason == "tool_result_pruned" then prune clean value else []

abbrev pub add_entry :
    Cleaner → String → Value → Option String → FilteredMetadata → FilteredMetadata
add_entry c key value none f = record f { kept = (key, c.clean_value value) ∷ f.kept }
add_entry c key value (some reason) f = record f {
  omitted = record { key = context_key_name key; reason = reason } ∷ f.omitted;
  refs = pruned c.clean reason value ++ f.refs;
}

-- `_filter_metadata`; the keys of a dict are distinct, so that an entry of the result is a new one
unfoldable pub filter_metadata : Cleaner → List String → Dict Value → FilteredMetadata
filter_metadata c safe_keys [] = record { kept = []; omitted = []; refs = [] }
filter_metadata c safe_keys ((key, value) ∷ rest) =
    add_entry c key value (omit_reason safe_keys key value) (filter_metadata c safe_keys rest)

abbrev text_of_item : (String → String) → Item → List String
text_of_item clean (text_item s) = if s == "" then [] else clean s ∷ []
text_of_item clean _ = []

abbrev texts_of_items : (String → String) → List Item → List String
texts_of_items clean [] = []
texts_of_items clean (i ∷ is) = text_of_item clean i ++ texts_of_items clean is

-- `_list_strings`
abbrev pub list_strings : (String → String) → Option Value → List String
list_strings clean (some (items is)) = texts_of_items clean is
list_strings clean _ = []

-- the loop of `_dedupe_strings`, with what it has collected
abbrev pub dedupe : ℕ → List String → List String → List String
dedupe limit found [] = found
dedupe limit found (v ∷ vs) =
    let next = if contains found v then found else found ++ v ∷ [] in
    let rest = dedupe limit next vs in
    if not (contains found v) && leb limit (length next) then next else rest

-- `_dedupe_strings`
unfoldable pub dedupe_strings : List String → ℕ → List String
dedupe_strings values limit = dedupe limit [] values

-- the references to a parent's context, which go into the metadata where there are any
abbrev pub with_context_refs : List String → Dict Value → Dict Value
with_context_refs [] d = d
with_context_refs (r ∷ rs) d = insert "context_refs" (items (map text_item (r ∷ rs))) d

abbrev pub with_tool_refs : (List ToolRef → List ToolRef) → List ToolRef → Dict Value → Dict Value
with_tool_refs clean_refs [] d = d
with_tool_refs clean_refs (r ∷ rs) d = insert "tool_result_refs" (tool_refs (clean_refs (r ∷ rs))) d

abbrev cleaned_refs : (List ToolRef → List ToolRef) → List ToolRef → List ToolRef
cleaned_refs clean_refs [] = []
cleaned_refs clean_refs (r ∷ rs) = clean_refs (r ∷ rs)

-- the references of both metadata
abbrev pub context_refs_of : Cleaner → ℕ → FilteredMetadata → FilteredMetadata → List String
context_refs_of c max_context_refs m t =
    dedupe_strings
      (list_strings c.clean (lookup "context_refs" m.kept)
        ++ list_strings c.clean (lookup "context_refs" t.kept))
      max_context_refs

abbrev pub agent_context_of :
    Cleaner → AgentTask → List String → List OmittedContext → List ToolRef → AgentContext
agent_context_of c t context_refs omitted refs = record {
  context_refs = context_refs;
  memory_scope = memory_scope_metadata t;
  omitted_context = omitted;
  omitted_context_count = length omitted;
  tool_result_refs = cleaned_refs c.clean_refs refs;
}

abbrev built : Cleaner → ℕ → AgentTask → FilteredMetadata → FilteredMetadata → ContextPack
built c max_context_refs t m k =
    let context_refs = context_refs_of c max_context_refs m k in
    let omitted = m.omitted ++ k.omitted in
    let refs = m.refs ++ k.refs in
    record {
      task = record t {
        message_metadata = with_context_refs context_refs m.kept;
        metadata = insert "child_context_budget" (child_budget (from_task t)) (
            insert "agent_context" (agent_context (agent_context_of c t context_refs omitted refs))
              (with_tool_refs c.clean_refs refs (with_context_refs context_refs k.kept)));
      };
      omitted_context = omitted;
      child_context_budget = from_task t;
      tool_result_refs = refs;
    }

-- `DelegationContextBuilder.build`
unfoldable pub build : Cleaner → ℕ → AgentTask → ContextPack
build c max_context_refs t =
    built c max_context_refs t (filter_metadata c safe_message_keys t.message_metadata)
      (filter_metadata c safe_task_keys t.metadata)
