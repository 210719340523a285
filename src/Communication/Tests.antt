-- ===== src/Communication/Tests.antt =====
-- A task for an agent of the directory, and one that goes nowhere.
use runtime_assistant_agent.Base.{◌≡◌, refl, ◌⊎◌, none, some, [], ◌∷◌}
use runtime_assistant_agent.Base.Dict.{lookup}
use runtime_assistant_agent.Directory.{resolve}
use runtime_assistant_agent.Directory.Tests.{built}
use runtime_assistant_agent.Delegation.{AgentMessage, validate, loop_error}
use runtime_assistant_agent.DelegationContext.{Cleaner, text}
use runtime_assistant_agent.Communication.{
  Task, AgentTransport, Service, Call, policy_event, completion_event, with_policy, with_context,
  send_task,
}
use runtime_assistant_agent.Communication.Dispatch.{
  policy_error, IsJustified, call-IsJustified, sent_task_is_audited,
}

abbrev cleaner : Cleaner
cleaner = record { clean = λ s. s; clean_value = λ v. v; clean_refs = λ rs. rs }

abbrev answer : AgentTransport
answer t i = record {
  target_agent_id = i.agent_id;
  status = "completed";
  errors = [];
  delegation_audit = [];
  metadata = [];
}

abbrev service : Service
service = record {
  directory = built;
  transports = ("a2a", answer) ∷ ("local", answer) ∷ [];
  max_timeout_ms = 300000;
  max_context_refs = 20;
  cleaner = cleaner;
  clean_metadata = λ d. d;
}

abbrev message : AgentMessage
message = record { text = some "draw a house"; image_ids = []; video_ids = []; audio_id = none }

abbrev task : Task
task = record {
  delegation = record {
    source_agent_id = "agent.default";
    target_agent_id = "agent.worker";
    message = message;
    timeout_ms = 30000;
    delegation_depth = 0;
    max_delegation_depth = 1;
    delegation_pairs = none;
  };
  context = record {
    user_id = "u1";
    session_id = "s1";
    message_metadata = ("locale", text "en") ∷ [];
    metadata = ("password", text "p") ∷ [];
    token_budget = none;
    tool_budget = none;
    timeout_ms = 30000;
    delegation_depth = 0;
    max_delegation_depth = 1;
  };
}

abbrev to_sleeper : Task
to_sleeper = record task {
  delegation = record task.delegation { target_agent_id = "agent.asleep" };
}

abbrev call : Call
call = record {
  name = "local";
  task =
      with_context service
        (with_policy service (validate cleaner.clean 300000 built task.delegation) task);
  instance_id = "agent.worker";
}

called : (send_task service task).1 ≡ some call
unfolding send_task validate loop_error resolve lookup
called = refl

sleeper_test : (send_task service to_sleeper).0.errors ≡ "agent_disabled" ∷ []
unfolding send_task validate loop_error resolve lookup
sleeper_test = refl

call-IsJustified_example : IsJustified service task call
call-IsJustified_example = call-IsJustified service task call called

sent_task_is_audited_example :
    let (r, o) = send_task service task in
    ((o ≡ none)
      × (r.status ≡ "failed")
      × (r.delegation_audit ≡ policy_event task (policy_error service task) ∷ []))
    ⊎ ((c : Call) × (o ≡ some c)
        × (r.delegation_audit ≡ policy_event task none ∷ completion_event task r.status ∷ []))
sent_task_is_audited_example = sent_task_is_audited service task
