-- ===== src/Directory.antt =====
-- assistant_agent/src/assistant_agent/services/agent_directory.py: the instances by id. Descriptions,
-- addresses and metadata of an instance are left out, and of an error only its code is kept.
pub mod Resolve
pub mod Tests
use Prim.Native.Nat.{Ordering}
use Prim.Native.String.{compare}
use runtime_assistant_agent.Base.{
  String, Bool, true, false, Option, none, some, List, [], ◌∷◌, map, if◌then◌else◌, given, is_some,
  contains, filter_if,
}
use runtime_assistant_agent.Base.Dict.{Dict, lookup, insert}

pub record AgentInstance : Type 0 where
  pub agent_id : String
  pub role : String
  pub capabilities : List String
  pub enabled : Bool
  pub transports : List String
  pub can_delegate : Bool
  pub allowed_targets : List String

pub data RouteResult : Type 0 where
  routed : AgentInstance → RouteResult
  failed : String → RouteResult

-- `_instances`
abbrev pub AgentDirectory : Type 0
AgentDirectory = Dict AgentInstance

-- `_instances.values()`
abbrev pub values : AgentDirectory → List AgentInstance
values [] = []
values ((agent_id, i) ∷ d) = i ∷ values d

-- `none` is the ValueError.
abbrev pub register : AgentInstance → AgentDirectory → Option AgentDirectory
register i d = if is_some (lookup i.agent_id d) then none else some (insert i.agent_id i d)

abbrev pub register_next :
    (AgentDirectory → Option AgentDirectory) → Option AgentDirectory → Option AgentDirectory
register_next rest none = none
register_next rest (some d) = rest d

-- the loop of the constructor
abbrev pub register_all : List AgentInstance → AgentDirectory → Option AgentDirectory
register_all [] d = some d
register_all (i ∷ is) d = register_next (register_all is) (register i d)

abbrev pub default_agent_id : String
default_agent_id = "agent.default"

abbrev pub default_agent_instance : Bool → List String → AgentInstance
default_agent_instance can_delegate allowed_targets = record {
  agent_id = default_agent_id;
  role = "controller";
  capabilities =
      "chat" ∷ "tool_calling" ∷ "vision_understanding" ∷ "video_understanding" ∷ "product_search"
      ∷ "price_compare" ∷ "image_generation" ∷ "render_3d" ∷ "memory" ∷ [];
  enabled = true;
  transports = "local" ∷ [];
  can_delegate = can_delegate;
  allowed_targets = allowed_targets;
}

-- `AgentDirectory(instances)` for a list of instances
unfoldable pub directory : List AgentInstance → Option AgentDirectory
directory is = register_all is []

-- `_instances_from_config` for the instances of a configuration
abbrev pub instances_from_config : List AgentInstance → List AgentInstance
instances_from_config [] = default_agent_instance false [] ∷ []
instances_from_config (i ∷ is) = i ∷ is

abbrev pub comes_before : AgentInstance → AgentInstance → Bool
comes_before i j = elim (compare i.agent_id j.agent_id) [ Ordering.gt ↦ false | _ ↦ true ]

abbrev pub place : AgentInstance → List AgentInstance → List AgentInstance
place i [] = i ∷ []
place i (j ∷ js) = let rest = place i js in if comes_before i j then i ∷ j ∷ js else j ∷ rest

-- `sorted(..., key=lambda item: item.agent_id)`
abbrev pub sort_by_id : List AgentInstance → List AgentInstance
sort_by_id [] = []
sort_by_id (i ∷ is) = place i (sort_by_id is)

abbrev pub list : Bool → AgentDirectory → List AgentInstance
list include_disabled d =
    let instances = sort_by_id (values d) in
    if include_disabled then instances else filter_if (λ i. i.enabled) instances

abbrev pub resolve_agent_id : AgentDirectory → String → RouteResult
resolve_agent_id d agent_id = elim (lookup agent_id d) [
  | none ↦ failed "agent_not_found"
  | some i ↦ if i.enabled then routed i else failed "agent_disabled"
]

abbrev pub resolve_matches : List AgentInstance → RouteResult
resolve_matches [] = failed "agent_capability_not_found"
resolve_matches (i ∷ []) = routed i
resolve_matches (i ∷ j ∷ is) = failed "agent_route_ambiguous"

abbrev pub resolve_capability : AgentDirectory → String → RouteResult
resolve_capability d capability =
    resolve_matches (filter_if (λ i. contains i.capabilities capability) (list false d))

-- `resolve`, with the target and the capability of the request
unfoldable pub resolve : AgentDirectory → Option String → Option String → RouteResult
resolve d target_agent_id capability = elim (given target_agent_id) [
  | some agent_id ↦ resolve_agent_id d agent_id
  | none ↦ elim (given capability) [
    | some c ↦ resolve_capability d c
    | none ↦ resolve_agent_id d default_agent_id
  ]
]
