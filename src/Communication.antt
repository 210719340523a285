-- ===== src/Communication.antt =====
-- assistant_agent/src/assistant_agent/services/agent_communication.py: a task on its way to another agent,
-- over Delegation, DelegationContext and Directory. A task is what the policy reads of it with what the context
-- builder reads and writes. A transport is a parameter, the result of a task by its status, its errors and
-- its metadata, of which the audit and the keys that are copied from the task are kept. Times are left out.
pub mod Dispatch
mod Tests
use runtime_assistant_agent.Base.{
  ℕ, String, Bool, true, false, Option, none, some, List, [], ◌∷◌, ◌++◌, map, ◌==◌, if◌then◌else◌,
  get_or,
}
use runtime_assistant_agent.Base.Dict.{Dict, lookup, insert}
use runtime_assistant_agent.Directory.{
  AgentInstance, RouteResult, routed, failed, AgentDirectory, resolve,
}
use runtime_assistant_agent.Delegation.{RawPair, PolicyResult, validate}
use runtime_assistant_agent.Delegation
use runtime_assistant_agent.DelegationContext.{Value, items, other_item, scalar, Cleaner, build}
use runtime_assistant_agent.DelegationContext

-- `AgentTask`, as the policy and as the context builder see it
pub record Task : Type 0 where
  pub delegation : Delegation.AgentTask
  pub context : DelegationContext.AgentTask

-- `AgentDelegationAuditEvent`, of the task's agents, the type and the status
pub record AuditEvent : Type 0 where
  pub event_type : String
  pub source_agent_id : String
  pub target_agent_id : String
  pub status : String
  pub policy_code : Option String

-- `AgentTaskResult`; `metadata` is without the audit
pub record TaskResult : Type 0 where
  pub target_agent_id : String
  pub status : String
  pub errors : List String
  pub delegation_audit : List AuditEvent
  pub metadata : Dict Value

-- a transport: the result of a task that is sent to an instance
abbrev pub AgentTransport : Type 0
AgentTransport = Task → AgentInstance → TaskResult

-- what the service is made of, with the parameters of its parts
pub record Service : Type 0 where
  pub directory : AgentDirectory
  pub transports : Dict AgentTransport
  pub max_timeout_ms : ℕ
  pub max_context_refs : ℕ
  pub cleaner : Cleaner
  pub clean_metadata : Dict Value → Dict Value

abbrev audit_event : Task → String → String → Option String → AuditEvent
audit_event t event_type status code = record {
  event_type = event_type;
  source_agent_id = t.delegation.source_agent_id;
  target_agent_id = t.delegation.target_agent_id;
  status = status;
  policy_code = code;
}

-- the audit event of `AgentDelegationPolicy.validate`
abbrev pub policy_event : Task → Option String → AuditEvent
policy_event t none = audit_event t "delegation_dispatched" "allowed" none
policy_event t (some code) = audit_event t "delegation_rejected" "blocked" (some code)

-- `AgentDelegationPolicy.completion_event`
abbrev pub completion_event : Task → String → AuditEvent
completion_event t status =
    audit_event t "delegation_completed" (if status == "failed" then "failed" else "completed") none

-- the pairs as a value of the metadata
abbrev pairs_value : List RawPair → Value
pairs_value pairs = items (map (λ p. other_item) pairs)

-- the task with the metadata that the policy has written
abbrev pub with_policy : Service → PolicyResult → Task → Task
with_policy s p t = record {
  delegation = record t.delegation { delegation_pairs = some p.delegation_pairs };
  context = record t.context {
    metadata = s.clean_metadata (
        insert "delegation_budget" scalar
          (insert "delegation_pairs" (pairs_value p.delegation_pairs) t.context.metadata));
  };
}

-- the task of the context builder
abbrev pub with_context : Service → Task → Task
with_context s t = record t { context = (build s.cleaner s.max_context_refs t.context).task }

abbrev copy_key : Dict Value → String → Dict Value → Dict Value
copy_key source key target = elim (lookup key source) [
  | none ↦ target
  | some v ↦ insert key v target
]

-- the keys of the task's metadata that go into the metadata of a result
abbrev copied : Dict Value → Dict Value → Dict Value
copied source target = copy_key source "tool_result_refs" (
    copy_key source "child_context_budget"
      (copy_key source "agent_context" (copy_key source "delegation_pairs" target)))

-- `_failed_task`
abbrev pub failed_task : Task → String → AuditEvent → TaskResult
failed_task t code event = record {
  target_agent_id = t.delegation.target_agent_id;
  status = "failed";
  errors = code ∷ [];
  delegation_audit = event ∷ [];
  metadata = copied t.context.metadata [];
}

-- `_with_audit_events`
abbrev pub with_audit_events : Task → List AuditEvent → TaskResult → TaskResult
with_audit_events t events r = record r {
  delegation_audit = events;
  metadata = copied t.context.metadata r.metadata;
}

-- `_select_transport`, with the name of the transport
abbrev pub select_transport : Dict AgentTransport → List String → Option (String × AgentTransport)
select_transport transports [] = none
select_transport transports (name ∷ names) =
    let rest = select_transport transports names in
    elim (lookup name transports) [ none ↦ rest | some transport ↦ some (name, transport) ]

-- a call of a transport
pub record Call : Type 0 where
  pub name : String
  pub task : Task
  pub instance_id : String

abbrev deliver :
    Task → AuditEvent → AgentInstance → Option (String × AgentTransport) → TaskResult × Option Call
deliver t event i none = (failed_task t "agent_transport_unavailable" event, none)
deliver t event i (some (name, transport)) =
    let r = transport t i in
    (
      with_audit_events t (event ∷ completion_event t r.status ∷ []) r,
      some (record { name = name; task = t; instance_id = i.agent_id }),
    )

abbrev pub to_route : Service → Task → AuditEvent → RouteResult → TaskResult × Option Call
to_route s t event (failed code) = (failed_task t code event, none)
to_route s t event (routed i) = deliver t event i (select_transport s.transports i.transports)

abbrev pub after_policy : Service → Task → AuditEvent → Option String → TaskResult × Option Call
after_policy s t event (some code) = (failed_task t code event, none)
after_policy s t event none =
    let child = with_context s t in
    to_route s child event (resolve s.directory (some child.delegation.target_agent_id) none)

-- `send_task`, with the call of a transport that it makes, if any
unfoldable pub send_task : Service → Task → TaskResult × Option Call
send_task s t =
    let p = validate s.cleaner.clean s.max_timeout_ms s.directory t.delegation in
    after_policy s (with_policy s p t) (policy_event t p.error) p.error
