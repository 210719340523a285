-- ===== src/Routing/Tests.antt =====
-- Routing at concrete requests.
use runtime_assistant_agent.Base.{none, some, [], ◌∷◌}
use runtime_assistant_agent.Routing.{single, controller_delegate, Request, Policy}

abbrev policy : Policy
policy = record {
  controller_agent_id = "agent.default";
  default_agent_id = "agent.worker";
  routes = ("draw", "agent.worker") ∷ [];
}

abbrev drawing : Request
drawing = record {
  target_agent_id = none;
  capability = some "draw";
  collaboration_mode = single;
  mode = none;
}

abbrev open_request : Request
open_request = record {
  target_agent_id = none;
  capability = some "";
  collaboration_mode = single;
  mode = some controller_delegate;
}
