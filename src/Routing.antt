-- ===== src/Routing.antt =====
-- assistant_agent/src/assistant_agent/services/agent_routing_policy.py: the choice of the agent for a
-- request of the multi-agent gateway. Of a request only its routing fields are kept
-- (schemas/agent_gateway.py).
pub mod Choice
mod Tests
use runtime_assistant_agent.Base.{
  String, Bool, true, false, not, ◌&&◌, Option, none, some, ◌==◌, given, get_or, is_some,
}
use runtime_assistant_agent.Base.Dict.{Dict, lookup}
use runtime_assistant_agent.Directory.{RouteResult, routed, failed, AgentDirectory, resolve}

pub data Mode : Type 0 where
  single : Mode
  controller_delegate : Mode

pub data Reason : Type 0 where
  explicit_target_agent_id : Reason
  capability_match : Reason
  routing_table : Reason
  controller_delegate_default : Reason
  default_agent : Reason

pub record Request : Type 0 where
  pub target_agent_id : Option String
  pub capability : Option String
  pub collaboration_mode : Mode
  pub mode : Option Mode

pub record Policy : Type 0 where
  pub controller_agent_id : String
  pub default_agent_id : String
  pub routes : Dict String

pub record Decision : Type 0 where
  pub route : RouteResult
  pub reason : Reason
  pub mode : Mode
  pub use_controller_runtime : Bool

abbrev pub effective_collaboration_mode : Request → Mode
effective_collaboration_mode r = get_or r.mode r.collaboration_mode

abbrev pub is_delegate : Mode → Bool
is_delegate single = false
is_delegate controller_delegate = true

-- `target_for_capability`
abbrev pub target_for_capability : Policy → String → Option String
target_for_capability p capability = lookup capability p.routes

abbrev pub has_id : RouteResult → String → Bool
has_id (routed i) agent_id = i.agent_id == agent_id
has_id (failed code) agent_id = false

-- `_decision`
abbrev pub decision : Policy → Request → RouteResult → Reason → Decision
decision p r route reason = record {
  route = route;
  reason = reason;
  mode = effective_collaboration_mode r;
  use_controller_runtime =
      is_delegate (effective_collaboration_mode r)
      && (has_id route p.controller_agent_id
          && (not (is_some (given r.target_agent_id)) && not (is_some (given r.capability))));
}

abbrev pub by_table : Policy → Request → AgentDirectory → String → Option String → Decision
by_table p r d capability (some table_target) =
    decision p r (resolve d (some table_target) none) routing_table
by_table p r d capability none = decision p r (resolve d none (some capability)) capability_match

abbrev pub by_default : Policy → Request → AgentDirectory → Mode → Decision
by_default p r d controller_delegate =
    decision p r (resolve d (some p.controller_agent_id) none) controller_delegate_default
by_default p r d single = decision p r (resolve d (some p.default_agent_id) none) default_agent

abbrev pub by_capability : Policy → Request → AgentDirectory → Option String → Decision
by_capability p r d (some capability) =
    by_table p r d capability (given (target_for_capability p capability))
by_capability p r d none = by_default p r d (effective_collaboration_mode r)

abbrev pub by_target : Policy → Request → AgentDirectory → Option String → Decision
by_target p r d (some target) = decision p r (resolve d (some target) none) explicit_target_agent_id
by_target p r d none = by_capability p r d (given r.capability)

-- `AgentRoutingPolicy.resolve`
unfoldable pub choose : Policy → Request → AgentDirectory → Decision
choose p r d = by_target p r d (given r.target_agent_id)
