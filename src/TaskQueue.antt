-- ===== src/TaskQueue.antt =====
-- assistant_agent/src/assistant_agent/services/task_queue.py. A task's object, which the caller and the
-- queue share, is the entry of the queue; the exceptions of the runtime are a result. The agent's runtime
-- is a parameter: what a run of a request comes to, with the events that it has emitted into the sink. Of
-- an event the type, the session and the error are kept.
pub mod Contract
mod Tests
use runtime_assistant_agent.Base.{
  String, Bool, true, false, Option, none, some, List, [], ◌∷◌, ◌++◌, if◌then◌else◌, get_or,
}
use runtime_assistant_agent.Base.Dict.{Dict, lookup, insert}

pub data TaskStatus : Type 0 where
  queued : TaskStatus
  running : TaskStatus
  success : TaskStatus
  failed : TaskStatus
  cancelled : TaskStatus

pub record AgentTask (R : Type 0) : Type 0 where
  pub task_id : String
  pub user_id : String
  pub session_id : String
  pub request : R
  pub status : TaskStatus

pub record TaskHandle : Type 0 where
  pub task_id : String
  pub status : TaskStatus

pub record AgentEvent : Type 0 where
  pub type : String
  pub session_id : String
  pub error : Option String

-- how `run_state` ends: with a state that has failed or not, or with an exception
pub data Outcome : Type 0 where
  ended : Bool → Outcome
  raised : String → Outcome

abbrev pub final_status : Outcome → TaskStatus
final_status (ended true) = failed
final_status (ended false) = success
final_status (raised error) = failed

-- the runtime: the outcome of a request, and the events that were emitted
abbrev pub Runtime : Type 0 → Type 0
Runtime R = R → Outcome × List AgentEvent

-- `InlineTaskQueue`
pub record InlineTaskQueue (R : Type 0) : Type 0 where
  pub tasks : Dict (AgentTask R)
  pub events_by_task : Dict (List AgentEvent)

module _ {R : Type 0} where
  abbrev pub empty : InlineTaskQueue R
  empty = record { tasks = []; events_by_task = [] }

  abbrev pub with_status : TaskStatus → AgentTask R → AgentTask R
  with_status status t = record t { status = status }

  -- the events of a run, with `task_failed` behind them where it raised
  abbrev pub final_events : AgentTask R → Outcome → List AgentEvent → List AgentEvent
  final_events t (ended is_failed) events = events
  final_events t (raised error) events =
      events ++ record { type = "task_failed"; session_id = t.session_id; error = some error } ∷ []

  -- `InlineTaskQueue.submit`
  unfoldable pub submit :
      Runtime R → AgentTask R → InlineTaskQueue R → InlineTaskQueue R × TaskHandle
  submit runtime t q =
      let (outcome, events) = runtime t.request in
      let status = final_status outcome in
      (
        record {
          tasks = insert t.task_id (with_status status t) q.tasks;
          events_by_task = insert t.task_id (final_events t outcome events) q.events_by_task;
        },
        record { task_id = t.task_id; status = status },
      )

  abbrev status_of : Option (AgentTask R) → Option TaskStatus
  status_of none = none
  status_of (some t) = some t.status

  -- `InlineTaskQueue.get_status`; `none` where the key is missing
  unfoldable pub get_status : String → InlineTaskQueue R → Option TaskStatus
  get_status task_id q = status_of (lookup task_id q.tasks)

  -- `InlineTaskQueue.get_events`
  unfoldable pub get_events : String → InlineTaskQueue R → List AgentEvent
  get_events task_id q = get_or (lookup task_id q.events_by_task) []

-- `InMemoryTaskQueue`
pub record InMemoryTaskQueue (R : Type 0) : Type 0 where
  pub worker : InlineTaskQueue R

-- its methods, which are those of the worker
module _ {R : Type 0} where
  abbrev pub in_memory : InlineTaskQueue R → InMemoryTaskQueue R
  in_memory worker = record { worker = worker }

  abbrev pub submit_in_memory :
      Runtime R → AgentTask R → InMemoryTaskQueue R → InMemoryTaskQueue R × TaskHandle
  submit_in_memory runtime t q =
      let (worker, handle) = submit runtime t q.worker in (in_memory worker, handle)
