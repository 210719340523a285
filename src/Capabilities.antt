-- ===== src/Capabilities.antt =====
-- assistant_agent/src/assistant_agent/agent/capability_validator.py with schemas/capabilities.py and
-- schemas/intent_decision.py: whether the capabilities of a decision have their inputs. Of the metadata of a
-- request the truth of each value is kept, of a decision what is read or changed; the id of a new step is
-- its number.
pub mod Search
pub mod Inputs
mod Tests
use Prim.Native.String.{◌++◌ as ◌<>◌}
use runtime_assistant_agent.Base.{
  ℕ, suc, String, Bool, true, false, not, ◌&&◌, ◌||◌, Option, none, some, List, [], ◌∷◌, ◌++◌, map,
  ◌==◌, if◌then◌else◌, get_or, nat_beq, contains, any,
}
use runtime_assistant_agent.Base.Dict.{Dict, lookup}
use runtime_assistant_agent.Base.Strings.{is_blank, strip_text}

-- `CapabilityName`
pub data Capability : Type 0 where
  direct_chat : Capability
  image_generation : Capability
  image_understanding : Capability
  video_understanding : Capability
  product_search : Capability
  price_compare : Capability
  render_3d : Capability
  memory_retrieval : Capability
  multi_step_orchestration : Capability
  ask_followup : Capability
  memory_save : Capability

abbrev number : Capability → ℕ
number direct_chat = 0
number image_generation = 1
number image_understanding = 2
number video_understanding = 3
number product_search = 4
number price_compare = 5
number render_3d = 6
number memory_retrieval = 7
number multi_step_orchestration = 8
number ask_followup = 9
number memory_save = 10

abbrev pub is_same : Capability → Capability → Bool
is_same a b = nat_beq (number a) (number b)

abbrev pub has : List Capability → Capability → Bool
has cs c = any (λ x. is_same x c) cs

pub data StepId : Type 0 where
  named : String → StepId
  numbered : ℕ → StepId

-- `CapabilityContract`, of what a step takes over
pub record Contract : Type 0 where
  pub input_requirements : List String
  pub tool_name : Option String

-- `CAPABILITY_CONTRACTS`
abbrev pub contract_for_intent : Capability → Contract
contract_for_intent direct_chat = record { input_requirements = "text" ∷ []; tool_name = none }
contract_for_intent image_generation = record {
  input_requirements = "text" ∷ [];
  tool_name = some "image_generation";
}
contract_for_intent image_understanding = record {
  input_requirements = "image" ∷ [];
  tool_name = some "vision_understanding";
}
contract_for_intent video_understanding = record {
  input_requirements = "video" ∷ [];
  tool_name = some "video_understanding";
}
contract_for_intent product_search = record {
  input_requirements = "text or visual_summary" ∷ [];
  tool_name = some "product_search";
}
contract_for_intent price_compare = record {
  input_requirements = "product candidates or search query" ∷ [];
  tool_name = some "price_compare";
}
contract_for_intent render_3d = record {
  input_requirements = "scene description" ∷ [];
  tool_name = some "render_3d";
}
contract_for_intent memory_retrieval = record {
  input_requirements = "text" ∷ "user_id" ∷ "session_id" ∷ [];
  tool_name = some "memory_retrieval";
}
contract_for_intent multi_step_orchestration = record {
  input_requirements = "text" ∷ "optional media" ∷ [];
  tool_name = none;
}
contract_for_intent ask_followup = record {
  input_requirements = "missing or ambiguous request" ∷ [];
  tool_name = none;
}
contract_for_intent memory_save = record {
  input_requirements =
      "text or content" ∷ "user_id" ∷ "session_id" ∷ "source_intent for assistant-loop calls" ∷ [];
  tool_name = some "memory_save";
}

pub record PlanStep : Type 0 where
  pub step_id : StepId
  pub capability : Capability
  pub tool_name : Option String
  pub required_inputs : List String

pub record IntentDecision : Type 0 where
  pub primary_intent : Capability
  pub capabilities : List Capability
  pub plan_steps : List PlanStep
  pub missing_inputs : List String
  pub reason : String

-- `UserRequest`; `metadata` tells which values are true
pub record UserRequest : Type 0 where
  pub user_id : String
  pub session_id : String
  pub text : Option String
  pub image_ids : List String
  pub video_ids : List String
  pub metadata : Dict Bool

-- `_step_for_capability`
abbrev pub step_for_capability : ℕ → Capability → PlanStep
step_for_capability index c = record {
  step_id = numbered (suc index);
  capability = c;
  tool_name = (contract_for_intent c).tool_name;
  required_inputs = (contract_for_intent c).input_requirements;
}

-- a step for each capability, with numbers from an index on
abbrev pub steps_from : ℕ → List Capability → List PlanStep
steps_from index [] = []
steps_from index (c ∷ cs) = step_for_capability index c ∷ steps_from (suc index) cs

abbrev pub is_empty {ℓ} : {A : Type ℓ} → List A → Bool
is_empty [] = true
is_empty (x ∷ xs) = false

abbrev is_followup : List Capability → Bool
is_followup (c ∷ []) = is_same c ask_followup
is_followup _ = false

abbrev named_capabilities : IntentDecision → List Capability
named_capabilities d =
    if is_empty d.capabilities && not (is_same d.primary_intent ask_followup)
    then d.primary_intent ∷ []
    else d.capabilities

abbrev normal_capabilities : IntentDecision → List Capability
normal_capabilities d =
    if is_same d.primary_intent multi_step_orchestration && not (is_empty d.plan_steps)
    then map (λ (s : PlanStep). s.capability) d.plan_steps
    else named_capabilities d

abbrev normal_steps : List Capability → List PlanStep → List PlanStep
normal_steps cs steps =
    if is_empty steps && not (is_empty cs) && not (is_followup cs) then steps_from 0 cs else steps

-- `_normalize_decision`
abbrev pub normalize_decision : IntentDecision → IntentDecision
normalize_decision d = record d {
  capabilities = normal_capabilities d;
  plan_steps = normal_steps (normal_capabilities d) d.plan_steps;
}

-- `_has_query`
abbrev pub has_query : UserRequest → Bool
has_query q = not (is_blank (get_or q.text ""))

abbrev pub is_set : UserRequest → String → Bool
is_set q key = get_or (lookup key q.metadata) false

-- `_has_search_input`
abbrev pub has_search_input : UserRequest → Bool
has_search_input q = has_query q || is_set q "visual_summary" || is_set q "video_summary"

-- `_has_product_candidates`
abbrev pub has_product_candidates : IntentDecision → UserRequest → Bool
has_product_candidates d q =
    is_set q "product_candidates"
    || is_set q "products"
    || any (λ (s : PlanStep). is_same s.capability product_search) d.plan_steps

abbrev render_vague_texts : List String
render_vague_texts = "渲染" ∷ "渲染一下" ∷ "看看效果" ∷ "做个展示" ∷ "展示一下" ∷ "3d" ∷ "3D" ∷ []

-- `_has_render_goal`
abbrev pub has_render_goal : UserRequest → Bool
has_render_goal q =
    is_set q "scene_description"
    || is_set q "render_goal"
    || (has_query q && not (contains render_vague_texts (strip_text (get_or q.text ""))))

-- a list of inputs that are asked for unless they are given
abbrev pub unless : Bool → List String → List String
unless given inputs = if given then [] else inputs

-- `_missing_inputs_for_capability`
unfoldable pub missing_inputs_for_capability :
    Capability → IntentDecision → UserRequest → List String
missing_inputs_for_capability direct_chat d q = unless (has_query q) ("text" ∷ [])
missing_inputs_for_capability image_generation d q = unless (has_query q) ("prompt" ∷ [])
missing_inputs_for_capability image_understanding d q =
    unless (not (is_empty q.image_ids)) ("image" ∷ [])
missing_inputs_for_capability video_understanding d q =
    unless (not (is_empty q.video_ids)) ("video" ∷ [])
missing_inputs_for_capability product_search d q = unless (has_search_input q) ("search_query" ∷ [])
missing_inputs_for_capability price_compare d q =
    unless (has_product_candidates d q || has_query q) ("product_candidates" ∷ "search_query" ∷ [])
missing_inputs_for_capability render_3d d q = unless (has_render_goal q) ("scene_description" ∷ [])
missing_inputs_for_capability memory_retrieval d q =
    unless (not (q.user_id == "")) ("user_id" ∷ [])
    ++ unless (not (q.session_id == "")) ("session_id" ∷ [])
missing_inputs_for_capability multi_step_orchestration d q = []
missing_inputs_for_capability ask_followup d q = []
missing_inputs_for_capability memory_save d q =
    unless (has_query q) ("content" ∷ [])
    ++ unless (not (q.user_id == "")) ("user_id" ∷ [])
    ++ unless (not (q.session_id == "")) ("session_id" ∷ [])

-- the loop of `validate`
abbrev pub missing_inputs : List Capability → IntentDecision → UserRequest → List String
missing_inputs [] d q = []
missing_inputs (c ∷ cs) d q = missing_inputs_for_capability c d q ++ missing_inputs cs d q

abbrev pub dedupe_from : List String → List String → List String
dedupe_from found [] = found
dedupe_from found (v ∷ vs) = dedupe_from (if contains found v then found else found ++ v ∷ []) vs

-- `_dedupe`
abbrev pub dedupe : List String → List String
dedupe values = dedupe_from [] values

abbrev joined : List String → String
joined [] = ""
joined (x ∷ []) = x
joined (x ∷ y ∷ xs) = x <> ", " <> joined (y ∷ xs)

-- `_ask_followup`
abbrev pub ask_for : List String → IntentDecision
ask_for missing = record {
  primary_intent = ask_followup;
  capabilities = ask_followup ∷ [];
  plan_steps = [];
  missing_inputs = dedupe missing;
  reason = "缺少必要输入：" <> joined (dedupe missing);
}

abbrev pub add_new : List Capability → Capability → List Capability
add_new found c = if has found c then found else found ++ c ∷ []

abbrev pub with_search : List Capability → Capability → List Capability
with_search found c =
    if is_same c price_compare && not (has found product_search)
    then found ++ product_search ∷ []
    else found

-- the loop of `_ensure_search_before_price_compare`
abbrev pub searched_from : List Capability → List Capability → List Capability
searched_from found [] = found
searched_from found (c ∷ cs) = searched_from (add_new (with_search found c) c) cs

-- `_ensure_search_before_price_compare`
unfoldable pub ensure_search_before_price_compare : IntentDecision → IntentDecision
ensure_search_before_price_compare d = record d {
  primary_intent = multi_step_orchestration;
  capabilities = searched_from [] d.capabilities;
  plan_steps = steps_from 0 (searched_from [] d.capabilities);
  reason = if d.reason == "" then "比价缺少候选商品，先搜索商品再比价。" else d.reason;
}

abbrev pub with_candidates : IntentDecision → UserRequest → IntentDecision
with_candidates d q =
    if has d.capabilities price_compare && not (has_product_candidates d q)
    then if has_query q
      then ensure_search_before_price_compare d
      else ask_for ("product_candidates" ∷ "search_query" ∷ [])
    else d

abbrev pub with_inputs : IntentDecision → UserRequest → List String → IntentDecision
with_inputs d q [] = with_candidates d q
with_inputs d q (m ∷ ms) = ask_for (m ∷ ms)

-- `CapabilityValidator.validate`
unfoldable pub validate : IntentDecision → UserRequest → IntentDecision
validate d q = let n = normalize_decision d in with_inputs n q (missing_inputs n.capabilities n q)
