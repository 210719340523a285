-- ===== src/TaskQueue/Tests.antt =====
-- A queue of tasks whose requests are texts.
use runtime_assistant_agent.Base.{String, ◌==◌, if◌then◌else◌, false, ◌≡◌, List, [], ◌∷◌}
use runtime_assistant_agent.TaskQueue.{
  AgentTask, ended, raised, Runtime, queued, empty, in_memory, get_status, get_events,
}
use runtime_assistant_agent.TaskQueue.Contract.{
  inline_queue, in_memory_queue, submit_all, last_task, Answers, queues_agree,
}

-- a runtime that raises at one request
abbrev runtime : Runtime String
runtime request = if request == "bad" then (raised "no adapter", []) else (ended false, [])

abbrev task : String → String → AgentTask String
task id request = record {
  task_id = id;
  user_id = "u1";
  session_id = "s1";
  request = request;
  status = queued;
}

abbrev tasks : List (AgentTask String)
tasks = task "t1" "good" ∷ task "t2" "bad" ∷ task "t1" "bad" ∷ []

queues_agree_example :
    let worker = submit_all runtime (inline_queue runtime) tasks empty in
    let facade = submit_all runtime (in_memory_queue runtime) tasks (in_memory empty) in
    Answers runtime (last_task "t1" tasks) (get_status "t1" worker) (get_events "t1" worker)
    × Answers runtime
        (last_task "t1" tasks)
        (get_status "t1" facade.worker)
        (get_events "t1" facade.worker)
    × (get_status "t1" facade.worker ≡ get_status "t1" worker)
    × (get_events "t1" facade.worker ≡ get_events "t1" worker)
queues_agree_example = queues_agree runtime "t1" tasks
