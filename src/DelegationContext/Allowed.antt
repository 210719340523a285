-- ===== src/DelegationContext/Allowed.antt =====
-- What crosses to the agent that a task is handed to.
use runtime_assistant_agent.Base.{
  suc, get_or, length-filter_if, ◌∙◌, ℕ, String, Bool, true, false, not, ◌&&◌, ◌||◌, ◌≡◌, ◌+◌, refl,
  ap, sym, subst, Option, none, some, List, [], ◌∷◌, ◌++◌, map, if◌then◌else◌, if_intro, if_cases,
  contains, length, length-append, All, All-map, count_if, filter_if, arith, ◌==◌, is_some,
}
use runtime_assistant_agent.Base.Dict.{Dict, insert}
use runtime_assistant_agent.Base.Strings.{ends_with}
use runtime_assistant_agent.DelegationContext.{
  OmittedContext, context_key_name, Value, AgentTask, ToolRef, Cleaner, FilteredMetadata,
  normalize_key, is_memory_context_key, tool_result_keys, parent_context_keys,
  has_raw_or_secret_marker, is_large_text, omit_reason, safe_message_keys, safe_task_keys,
  add_entry, filter_metadata, with_context_refs, with_tool_refs, context_refs_of, build,
}

-- An entry may cross: its key is on the list and names no memory, no result of a tool, no conversation
-- and no secret, and its value is no large text.
abbrev pub is_allowed : List String → String × Value → Bool
is_allowed safe_keys e =
    contains safe_keys e.0
    && not (is_memory_context_key e.0)
    && not (contains tool_result_keys (normalize_key e.0))
    && not (contains parent_context_keys (normalize_key e.0))
    && not (ends_with (normalize_key e.0) "_history")
    && not (has_raw_or_secret_marker (normalize_key e.0))
    && not (is_large_text e.1)

abbrev pub is_refused : List String → String × Value → Bool
is_refused safe_keys e = not (is_allowed safe_keys e)

chain :
    (memory tool parent history secret large listed : Bool)
    → is_some {A = String} (
        if memory
        then some "memory_context_not_forwarded"
        else if tool
        then some "tool_result_pruned"
        else if parent || history
        then some "parent_context_not_forwarded"
        else if secret
        then some "raw_or_secret_payload_not_forwarded"
        else if large
        then some "large_value_not_forwarded"
        else if not listed
        then some "not_allowlisted"
        else none)
      ≡ not
          (listed && not memory && not tool && not parent && not history && not secret && not large)
chain memory tool parent history secret large listed = ground arith

omit_reason-is_some :
    (safe_keys : List String) (key : String) (value : Value)
    → is_some (omit_reason safe_keys key value) ≡ not (is_allowed safe_keys (key, value))
unfolding omit_reason
omit_reason-is_some safe_keys key value =
    chain (is_memory_context_key key) (contains tool_result_keys (normalize_key key))
      (contains parent_context_keys (normalize_key key)) (ends_with (normalize_key key) "_history")
      (has_raw_or_secret_marker (normalize_key key)) (is_large_text value) (contains safe_keys key)

abbrev pub cleaned : Cleaner → String × Value → String × Value
cleaned c e = (e.0, c.clean_value e.1)

flipped : (b : Bool) → not b ≡ false → b ≡ true
flipped b h = ground arith

flipped_back : (b : Bool) → not b ≡ true → b ≡ false
flipped_back b h = ground arith

add_kept :
    (c : Cleaner) (safe_keys : List String) (key : String) (value : Value) (o : Option String)
    (f : FilteredMetadata) (rest : Dict Value)
    → is_some o ≡ not (is_allowed safe_keys (key, value))
    → f.kept ≡ map (cleaned c) (filter_if (is_allowed safe_keys) rest)
    → (add_entry c key value o f).kept
      ≡ map (cleaned c) (filter_if (is_allowed safe_keys) ((key, value) ∷ rest))
add_kept c safe_keys key value none f rest h k =
    let allowed : is_allowed safe_keys (key, value) ≡ true = flipped _ (sym h) in
    rw allowed (ap (λ (d : Dict Value). (key, c.clean_value value) ∷ d) k)
add_kept c safe_keys key value (some reason) f rest h k =
    let refused : is_allowed safe_keys (key, value) ≡ false = flipped_back _ (sym h) in rw refused k

insert-All :
    (Q : String → Type 0) (k : String) (v : Value) (d : Dict Value)
    → Q k
    → All (λ (e : String × Value). Q e.0) d
    → All (λ (e : String × Value). Q e.0) (insert k v d)
unfolding insert
insert-All Q k v [] q h = (q, tt)
insert-All Q k v ((j, w) ∷ d) q h =
    if_intro (λ (x : Dict Value). All (λ (e : String × Value). Q e.0) x) (j == k) {x = (j, v) ∷ d}
      {y = (j, w) ∷ insert k v d} (h.0, h.1) (h.0, insert-All Q k v d q h.1)

-- the reasons to refuse an entry, each with its test, in the order in which they count
abbrev pub reasons : List String → String × Value → List (Bool × String)
reasons safe_keys e =
    (is_memory_context_key e.0, "memory_context_not_forwarded")
    ∷ (contains tool_result_keys (normalize_key e.0), "tool_result_pruned")
    ∷ (
      contains parent_context_keys (normalize_key e.0) || ends_with (normalize_key e.0) "_history",
      "parent_context_not_forwarded",
    )
    ∷ (has_raw_or_secret_marker (normalize_key e.0), "raw_or_secret_payload_not_forwarded")
    ∷ (is_large_text e.1, "large_value_not_forwarded")
    ∷ (not (contains safe_keys e.0), "not_allowlisted")
    ∷ []

abbrev pub first_reason : List (Bool × String) → Option String
first_reason [] = none
first_reason ((applies, reason) ∷ rest) =
    let later = first_reason rest in if applies then some reason else later

-- what is put on record of an entry that is refused
abbrev pub refusal : List String → String × Value → OmittedContext
refusal safe_keys e = record {
  key = context_key_name e.0;
  reason = get_or (first_reason (reasons safe_keys e)) "";
}

omit_reason-first :
    (safe_keys : List String) (key : String) (value : Value)
    → omit_reason safe_keys key value ≡ first_reason (reasons safe_keys (key, value))
unfolding omit_reason
omit_reason-first safe_keys key value = refl

abbrev refusals : List String → Dict Value → List OmittedContext
refusals safe_keys d = map (refusal safe_keys) (filter_if (is_refused safe_keys) d)

add_omitted :
    (c : Cleaner) (safe_keys : List String) (key : String) (value : Value) (o : Option String)
    (f : FilteredMetadata) (rest : Dict Value)
    → is_some o ≡ not (is_allowed safe_keys (key, value))
    → o ≡ first_reason (reasons safe_keys (key, value))
    → f.omitted ≡ refusals safe_keys rest
    → (add_entry c key value o f).omitted ≡ refusals safe_keys ((key, value) ∷ rest)
add_omitted c safe_keys key value none f rest h first k =
    let allowed : is_allowed safe_keys (key, value) ≡ true = flipped _ (sym h) in rw allowed k
add_omitted c safe_keys key value (some reason) f rest h first k =
    let refused : is_allowed safe_keys (key, value) ≡ false = flipped_back _ (sym h) in
    rw refused (
      ap
        (λ (o : Option String).
          record { key = context_key_name key; reason = get_or o "" } ∷ f.omitted)
        first
      ∙ ap (λ (os : List OmittedContext). refusal safe_keys (key, value) ∷ os) k)

-- The metadata that crosses is the allowed entries, in their order, with their values cleaned: those whose
-- key is on the list and names, once normalized, no memory, no result of a tool, no conversation and no
-- secret, and whose value is no large text. Every other entry is on record as omitted, in the same order,
-- under its own name as it is written there, and with the first of the reasons that applies to it.
pub filter_metadata-Allowed :
    (c : Cleaner) (safe_keys : List String) (d : Dict Value)
    → ((filter_metadata c safe_keys d).kept ≡ map (cleaned c) (filter_if (is_allowed safe_keys) d))
      × ((filter_metadata c safe_keys d).omitted
          ≡ map (refusal safe_keys) (filter_if (is_refused safe_keys) d))
unfolding filter_metadata
filter_metadata-Allowed c safe_keys [] = (refl, refl)
filter_metadata-Allowed c safe_keys ((key, value) ∷ rest) =
    let h = filter_metadata-Allowed c safe_keys rest in
    let o = omit_reason safe_keys key value in
    let reason = omit_reason-is_some safe_keys key value in
    let f = filter_metadata c safe_keys rest in
    (
      add_kept c safe_keys key value o f rest reason h.0,
      add_omitted c safe_keys key value o f rest reason (omit_reason-first safe_keys key value) h.1,
    )

length-map : (f : String × Value → OmittedContext) (d : Dict Value) → length (map f d) ≡ length d
length-map f [] = refl
length-map f (e ∷ d) = ap suc (length-map f d)

length-omitted :
    (c : Cleaner) (safe_keys : List String) (d : Dict Value)
    → length (filter_metadata c safe_keys d).omitted ≡ count_if (is_refused safe_keys) d
length-omitted c safe_keys d =
    ap length (filter_metadata-Allowed c safe_keys d).1
    ∙ length-map (refusal safe_keys) (filter_if (is_refused safe_keys) d)
    ∙ length-filter_if (is_refused safe_keys) d

-- a key of a list
abbrev pub IsIn : List String → String → Type 0
IsIn keys key = contains keys key ≡ true

abbrev pub HasKeys : List String → Dict Value → Type 0
HasKeys keys d = All (λ (e : String × Value). IsIn keys e.0) d

listed :
    (a b c d e f g : Bool)
    → (a && not b && not c && not d && not e && not f && not g) ≡ true
    → a ≡ true
listed a b c d e f g h = ground arith

kept-HasKeys :
    (c : Cleaner) (safe_keys : List String) (d : Dict Value)
    → HasKeys safe_keys (map (cleaned c) (filter_if (is_allowed safe_keys) d))
kept-HasKeys c safe_keys [] = tt
kept-HasKeys c safe_keys (e ∷ d) =
    if_cases (λ (x : Dict Value). HasKeys safe_keys (map (cleaned c) x)) (is_allowed safe_keys e)
      {x = e ∷ filter_if (is_allowed safe_keys) d} {y = filter_if (is_allowed safe_keys) d}
      (λ h. (listed (contains safe_keys e.0) _ _ _ _ _ _ h, kept-HasKeys c safe_keys d))
      (λ h. kept-HasKeys c safe_keys d)

filtered-HasKeys :
    (c : Cleaner) (safe_keys : List String) (d : Dict Value)
    → HasKeys safe_keys (filter_metadata c safe_keys d).kept
filtered-HasKeys c safe_keys d =
    subst (HasKeys safe_keys) (sym (filter_metadata-Allowed c safe_keys d).0)
      (kept-HasKeys c safe_keys d)

-- the keys of the metadata of a task that is handed over
abbrev pub child_task_keys : List String
child_task_keys = "agent_context" ∷ "child_context_budget" ∷ "tool_result_refs" ∷ safe_task_keys

widened : (key : String) → IsIn safe_task_keys key → IsIn child_task_keys key
widened key h = ground arith

context_refs-HasKeys :
    (keys refs : List String) (d : Dict Value)
    → IsIn keys "context_refs"
    → HasKeys keys d
    → HasKeys keys (with_context_refs refs d)
context_refs-HasKeys keys [] d k h = h
context_refs-HasKeys keys (r ∷ rs) d k h = insert-All (IsIn keys) "context_refs" _ d k h

tool_refs-HasKeys :
    (clean_refs : List ToolRef → List ToolRef) (refs : List ToolRef) (d : Dict Value)
    → HasKeys child_task_keys d
    → HasKeys child_task_keys (with_tool_refs clean_refs refs d)
tool_refs-HasKeys clean_refs [] d h = h
tool_refs-HasKeys clean_refs (r ∷ rs) d h =
    insert-All (IsIn child_task_keys) "tool_result_refs" _ d refl h

-- In the task that is handed over every key of the message's metadata is a safe key of messages, and every
-- key of the task's metadata is a safe key of tasks or one of the three that the builder writes. As many
-- entries are on record as omitted as both metadata have entries that are not allowed.
pub built_task-HasKeys :
    (c : Cleaner) (n : ℕ) (t : AgentTask)
    → HasKeys safe_message_keys (build c n t).task.message_metadata
      × HasKeys child_task_keys (build c n t).task.metadata
      × (length (build c n t).omitted_context
          ≡ count_if (is_refused safe_message_keys) t.message_metadata
            + count_if (is_refused safe_task_keys) t.metadata)
unfolding build
built_task-HasKeys c n t =
    let m = filter_metadata c safe_message_keys t.message_metadata in
    let k = filter_metadata c safe_task_keys t.metadata in
    let refs = context_refs_of c n m k in
    let from_parent =
      All-map _ _ k.kept (filtered-HasKeys c safe_task_keys t.metadata)
        (λ (e : String × Value) h. widened e.0 h) in
    let counts = length-append m.omitted k.omitted in
    let m_count = length-omitted c safe_message_keys t.message_metadata in
    let k_count = length-omitted c safe_task_keys t.metadata in
    (
      context_refs-HasKeys safe_message_keys refs m.kept refl
          (filtered-HasKeys c safe_message_keys t.message_metadata),
      insert-All (IsIn child_task_keys) "child_context_budget" _ _ refl (
          insert-All (IsIn child_task_keys) "agent_context" _ _ refl (
            tool_refs-HasKeys c.clean_refs (m.refs ++ k.refs) _
              (context_refs-HasKeys child_task_keys refs k.kept refl from_parent))),
      omega arith,
    )
