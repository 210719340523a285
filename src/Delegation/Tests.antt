-- ===== src/Delegation/Tests.antt =====
-- Delegations at concrete tasks.
use runtime_assistant_agent.Base.{
  ℕ, zero, suc, String, true, false, ◌≡◌, ◌↔◌, refl, inr, none, some, List, [], ◌∷◌, arith,
}
use runtime_assistant_agent.Base.Dict.{lookup}
use runtime_assistant_agent.Directory.Tests.{built}
use runtime_assistant_agent.Delegation.{
  RawPair, items, AgentMessage, AgentTask, validate, accepted, loop_error, dispatched_pairs,
}
use runtime_assistant_agent.Delegation.Safety.{IsSafe, accepted_delegation-IsSafe}
use runtime_assistant_agent.Delegation.Pairs.{repeated_pair_is_blocked, long_record_forgets}

abbrev keep : String → String
keep s = s

abbrev message : AgentMessage
message = record { text = some "draw a house"; image_ids = []; video_ids = []; audio_id = none }

abbrev task : AgentTask
task = record {
  source_agent_id = "agent.default";
  target_agent_id = "agent.worker";
  message = message;
  timeout_ms = 30000;
  delegation_depth = 0;
  max_delegation_depth = 1;
  delegation_pairs = none;
}

abbrev returned : AgentTask
returned = record task {
  source_agent_id = "agent.worker";
  target_agent_id = "agent.default";
  delegation_depth = 1;
  delegation_pairs = some (items (some "agent.default" ∷ some "agent.worker" ∷ []) ∷ []);
}

-- the same pair on record, a number of times
abbrev repeated : ℕ → List RawPair
repeated zero = []
repeated (suc n) = items (some "agent.other" ∷ some "agent.third" ∷ []) ∷ repeated n

abbrev long : AgentTask
long = record task { delegation_pairs = some (repeated 20) }

accepted_delegation-IsSafe_example :
    (accepted (validate keep 300000 built task) ≡ true) ↔ IsSafe 300000 built task
accepted_delegation-IsSafe_example = accepted_delegation-IsSafe keep 300000 built task

task_accepted : accepted (validate keep 300000 built task) ≡ true
unfolding validate loop_error lookup
task_accepted = refl

-- A task that asks the agent it came from is refused.
repeated_pair_is_blocked_example : accepted (validate keep 300000 built returned) ≡ false
unfolding validate dispatched_pairs
repeated_pair_is_blocked_example =
    repeated_pair_is_blocked keep 300000 built task returned refl refl refl refl (omega arith) refl
      (inr refl)

long_record_forgets_example :
    accepted (
      validate keep 300000 built (record long {
        delegation_pairs = some (validate keep 300000 built long).delegation_pairs;
      }))
    ≡ true
unfolding validate loop_error lookup
long_record_forgets_example =
    long_record_forgets keep 300000 built long (ground arith) (omega arith) refl
