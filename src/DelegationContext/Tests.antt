-- ===== src/DelegationContext/Tests.antt =====
-- A task whose metadata holds what may not cross.
use runtime_assistant_agent.Base.{
  arith, Option, ℕ, String, Bool, true, false, ◌≡◌, ◌<◌, ◌+◌, refl, some, none, List, [], ◌∷◌, map,
  length, filter_if, count_if,
}
use runtime_assistant_agent.Base.Dict.{Dict}
use runtime_assistant_agent.DelegationContext.{
  Value, text, items, dict, scalar, Item, text_item, dict_item, str, other, ToolItem, AgentTask,
  Cleaner, safe_message_keys, safe_task_keys, normalize_key, context_key_name, filter_metadata,
  dedupe_strings, build, prune,
}
use runtime_assistant_agent.DelegationContext.Refs.{IsCut, dedupe_strings-IsCut}
use runtime_assistant_agent.DelegationContext.Allowed.{
  refusal, is_allowed, is_refused, cleaned, HasKeys, child_task_keys, filter_metadata-Allowed,
  built_task-HasKeys,
}

abbrev cleaner : Cleaner
cleaner = record { clean = λ s. s; clean_value = λ v. v; clean_refs = λ rs. rs }

abbrev result : ToolItem
result = record {
  output_ref = none;
  output_refs = some (other true ∷ str "" ∷ str "ref1" ∷ []);
  artifact_ref = none;
  reference = none;
  tool_name = some (str "search");
  status = none;
  capability = none;
  error = none;
}

abbrev task_metadata : Dict Value
task_metadata =
    ("tool", text "search")
    ∷ ("API-Key", text "k")
    ∷ ("tool_results", dict result)
    ∷ ("context_refs", items (text_item "a" ∷ text_item "b" ∷ text_item "a" ∷ []))
    ∷ ("color", scalar)
    ∷ []

abbrev task : AgentTask
task = record {
  user_id = "u1";
  session_id = "s1";
  message_metadata = ("locale", text "en") ∷ ("chat_history", scalar) ∷ [];
  metadata = task_metadata;
  token_budget = none;
  tool_budget = none;
  timeout_ms = 1000;
  delegation_depth = 0;
  max_delegation_depth = 1;
}

normalize_test : normalize_key "  X-Api Key! " ≡ "x_api_key"
unfolding normalize_key runtime_assistant_agent.Base.Strings.is_space
normalize_test = refl

name_test : context_key_name "Api  Key" ≡ "api-key"
unfolding normalize_key runtime_assistant_agent.Base.Strings.is_space
name_test = refl

omitted_test :
    map {B = String × String}
      (λ o. (o.key, o.reason))
      (filter_metadata cleaner safe_task_keys task_metadata).omitted
    ≡ ("api-key", "raw_or_secret_payload_not_forwarded")
      ∷ ("tool_results", "tool_result_pruned")
      ∷ ("color", "not_allowlisted")
      ∷ []
unfolding filter_metadata normalize_key runtime_assistant_agent.Base.Strings.is_space
    runtime_assistant_agent.DelegationContext.omit_reason
omitted_test = refl

prune_test :
    map {B = String × Option String}
      (λ r. (r.output_ref, r.tool_name))
      (prune (λ s. s) (dict result))
    ≡ ("ref1", some "search") ∷ []
prune_test = refl

filter_metadata-Allowed_example :
    ((filter_metadata cleaner safe_task_keys task_metadata).kept
      ≡ map (cleaned cleaner) (filter_if (is_allowed safe_task_keys) task_metadata))
    × ((filter_metadata cleaner safe_task_keys task_metadata).omitted
        ≡ map (refusal safe_task_keys) (filter_if (is_refused safe_task_keys) task_metadata))
filter_metadata-Allowed_example = filter_metadata-Allowed cleaner safe_task_keys task_metadata

built_task-HasKeys_example :
    HasKeys safe_message_keys (build cleaner 20 task).task.message_metadata
    × HasKeys child_task_keys (build cleaner 20 task).task.metadata
    × (length (build cleaner 20 task).omitted_context
        ≡ count_if (is_refused safe_message_keys) task.message_metadata
          + count_if (is_refused safe_task_keys) task.metadata)
built_task-HasKeys_example = built_task-HasKeys cleaner 20 task

one_is_positive : 0 < 2
one_is_positive = omega arith

dedupe_strings-IsCut_example :
    IsCut 2 ("a" ∷ "b" ∷ "a" ∷ "c" ∷ []) (dedupe_strings ("a" ∷ "b" ∷ "a" ∷ "c" ∷ []) 2)
dedupe_strings-IsCut_example = dedupe_strings-IsCut ("a" ∷ "b" ∷ "a" ∷ "c" ∷ []) 2 one_is_positive
