-- ===== src/TaskQueue/Contract.antt =====
-- The contract of a task queue, `TaskQueue`, as operations with laws, and its two implementations.
use runtime_assistant_agent.Base.{
  ◌++◌, subst, true, false, String, ◌≡◌, refl, ap, ◌∙◌, sym, Option, none, some, List, [], ◌∷◌,
  ◌==◌, if◌then◌else◌, Bool-cases, inl, inr, arith,
}
use runtime_assistant_agent.Base.Dict.{lookup, lookup-insert}
use runtime_assistant_agent.TaskQueue.{
  ended, raised, success, failed, Outcome, TaskStatus, AgentTask, TaskHandle, AgentEvent, Runtime,
  InlineTaskQueue, InMemoryTaskQueue, empty, in_memory, submit_in_memory, final_status,
  final_events, submit, get_status, get_events,
}

-- `TaskQueue`: a queue answers for a task by the last run of it.
pub record TaskQueue {R : Type 0} (runtime : Runtime R) : Type 1 where
  pub State : Type 0
  pub init : State
  pub submit : AgentTask R → State → State × TaskHandle
  pub get_status : String → State → Option TaskStatus
  pub get_events : String → State → List AgentEvent
  pub init-status : (id : String) → get_status id init ≡ none
  pub init-events : (id : String) → get_events id init ≡ []
  pub submit-handle :
      (t : AgentTask R) (q : State)
      → (submit t q).1 ≡ record { task_id = t.task_id; status = final_status (runtime t.request).0 }
  pub submit-status :
      (t : AgentTask R) (q : State) (id : String)
      → get_status id (submit t q).0
        ≡ (if t.task_id == id then some (final_status (runtime t.request).0) else get_status id q)
  pub submit-events :
      (t : AgentTask R) (q : State) (id : String)
      → get_events id (submit t q).0 ≡ (
          if t.task_id == id
          then final_events t (runtime t.request).0 (runtime t.request).1
          else get_events id q)

pub new_status : (R : Type 0) (id : String) → get_status id (empty {R = R}) ≡ none
unfolding get_status lookup
new_status R id = refl

pub new_events : (R : Type 0) (id : String) → get_events id (empty {R = R}) ≡ []
unfolding get_events lookup
new_events R id = refl

module _ {R : Type 0} (runtime : Runtime R) where
  pub inline_status :
      (t : AgentTask R) (q : InlineTaskQueue R) (id : String)
      → get_status id (submit runtime t q).0
        ≡ (if t.task_id == id then some (final_status (runtime t.request).0) else get_status id q)
  unfolding get_status submit
  inline_status t q id = ground (
    arith,
    lookup-insert t.task_id id (record t { status = final_status (runtime t.request).0 }) q.tasks,
  )

  pub inline_events :
      (t : AgentTask R) (q : InlineTaskQueue R) (id : String)
      → get_events id (submit runtime t q).0 ≡ (
          if t.task_id == id
          then final_events t (runtime t.request).0 (runtime t.request).1
          else get_events id q)
  unfolding get_events submit
  inline_events t q id = ground (
    arith,
    lookup-insert t.task_id id (final_events t (runtime t.request).0 (runtime t.request).1)
        q.events_by_task,
  )

  pub inline_handle :
      (t : AgentTask R) (q : InlineTaskQueue R)
      → (submit runtime t q).1
        ≡ record { task_id = t.task_id; status = final_status (runtime t.request).0 }
  unfolding submit
  inline_handle t q = refl

  abbrev pub inline_queue : TaskQueue runtime
  inline_queue = record {
    State = InlineTaskQueue R;
    init = empty;
    submit = submit runtime;
    get_status = get_status;
    get_events = get_events;
    init-status = new_status R;
    init-events = new_events R;
    submit-handle = inline_handle;
    submit-status = inline_status;
    submit-events = inline_events;
  }

  abbrev pub in_memory_queue : TaskQueue runtime
  in_memory_queue = record {
    State = InMemoryTaskQueue R;
    init = in_memory empty;
    submit = submit_in_memory runtime;
    get_status = λ id q. get_status id q.worker;
    get_events = λ id q. get_events id q.worker;
    init-status = new_status R;
    init-events = new_events R;
    submit-handle = λ t q. inline_handle t q.worker;
    submit-status = λ t q id. inline_status t q.worker id;
    submit-events = λ t q id. inline_events t q.worker id;
  }

module _ {R : Type 0} where
  abbrev or_this : String → AgentTask R → Option (AgentTask R) → Option (AgentTask R)
  or_this id t none = if t.task_id == id then some t else none
  or_this id t (some later) = some later

  -- the last of some tasks that has an id
  abbrev pub last_task : String → List (AgentTask R) → Option (AgentTask R)
  last_task id [] = none
  last_task id (t ∷ rest) = or_this id t (last_task id rest)

module _ {R : Type 0} (runtime : Runtime R) where
  -- what a queue that was new at first answers, by the last task
  abbrev pub expected_status : Option (AgentTask R) → Option TaskStatus → Option TaskStatus
  expected_status none before = before
  expected_status (some t) before = some (final_status (runtime t.request).0)

  abbrev pub expected_events : Option (AgentTask R) → List AgentEvent → List AgentEvent
  expected_events none before = before
  expected_events (some t) before = final_events t (runtime t.request).0 (runtime t.request).1

  module _ (queue : TaskQueue runtime) where
    abbrev pub submit_all : List (AgentTask R) → queue.State → queue.State
    submit_all [] q = q
    submit_all (t ∷ rest) q = submit_all rest (queue.submit t q).0

    status_step :
        (id : String) (t : AgentTask R) (o : Option (AgentTask R)) (before : Option TaskStatus)
        → expected_status o
            (if t.task_id == id then some (final_status (runtime t.request).0) else before)
          ≡ expected_status (or_this id t o) before
    status_step id t none before = elim (Bool-cases (t.task_id == id)) [
      | inl same ↦ rw same refl
      | inr differs ↦ rw differs refl
    ]
    status_step id t (some later) before = refl

    events_step :
        (id : String) (t : AgentTask R) (o : Option (AgentTask R)) (before : List AgentEvent)
        → expected_events o (
            if t.task_id == id
            then final_events t (runtime t.request).0 (runtime t.request).1
            else before)
          ≡ expected_events (or_this id t o) before
    events_step id t none before = elim (Bool-cases (t.task_id == id)) [
      | inl same ↦ rw same refl
      | inr differs ↦ rw differs refl
    ]
    events_step id t (some later) before = refl

    submit_all-status :
        (id : String) (tasks : List (AgentTask R)) (q : queue.State)
        → queue.get_status id (submit_all tasks q)
          ≡ expected_status (last_task id tasks) (queue.get_status id q)
    submit_all-status id [] q = refl
    submit_all-status id (t ∷ rest) q =
        submit_all-status id rest (queue.submit t q).0
        ∙ ap (expected_status (last_task id rest)) (queue.submit-status t q id)
        ∙ status_step id t (last_task id rest) (queue.get_status id q)

    submit_all-events :
        (id : String) (tasks : List (AgentTask R)) (q : queue.State)
        → queue.get_events id (submit_all tasks q)
          ≡ expected_events (last_task id tasks) (queue.get_events id q)
    submit_all-events id [] q = refl
    submit_all-events id (t ∷ rest) q =
        submit_all-events id rest (queue.submit t q).0
        ∙ ap (expected_events (last_task id rest)) (queue.submit-events t q id)
        ∙ events_step id t (last_task id rest) (queue.get_events id q)

  -- what a queue answers for a task after its run: the outcome, the events that the run emitted, and the
  -- answers
  abbrev pub Reports :
      AgentTask R → Outcome → List AgentEvent → Option TaskStatus → List AgentEvent → Type 0
  Reports t (ended true) emitted status events = (status ≡ some failed) × (events ≡ emitted)
  Reports t (ended false) emitted status events = (status ≡ some success) × (events ≡ emitted)
  Reports t (raised error) emitted status events =
      (status ≡ some failed)
      × (events
          ≡ emitted
            ++ record { type = "task_failed"; session_id = t.session_id; error = some error } ∷ [])

  -- The same, for the last task with an id, if there is one.
  abbrev pub Answers : Option (AgentTask R) → Option TaskStatus → List AgentEvent → Type 0
  Answers none status events = (status ≡ none) × (events ≡ [])
  Answers (some t) status events =
      Reports t (runtime t.request).0 (runtime t.request).1 status events

  outcome-Reports :
      (t : AgentTask R) (o : Outcome) (emitted : List AgentEvent)
      → Reports t o emitted (some (final_status o)) (final_events t o emitted)
  outcome-Reports t (ended true) emitted = (refl, refl)
  outcome-Reports t (ended false) emitted = (refl, refl)
  outcome-Reports t (raised error) emitted = (refl, refl)

  expected-Answers :
      (o : Option (AgentTask R)) → Answers o (expected_status o none) (expected_events o [])
  expected-Answers none = (refl, refl)
  expected-Answers (some t) = outcome-Reports t (runtime t.request).0 (runtime t.request).1

  moved :
      (o : Option (AgentTask R)) (status status' : Option TaskStatus)
      (events events' : List AgentEvent)
      → status ≡ status'
      → events ≡ events'
      → Answers o status' events'
      → Answers o status events
  moved o status status' events events' e f h =
      subst (λ x. Answers o x events) (sym e) (subst (λ x. Answers o status' x) (sym f) h)

  -- A queue that was new at first and has been given tasks answers for any id by the last task with this
  -- id: `failed` with just the emitted events where the run ended in a failed state, `success` with them
  -- where it ended in another state, `failed` with them and `task_failed` behind them, of the task's
  -- session and with the error, where it raised; and no status and no events where there is no such task.
  -- This holds of the worker alone and of the queue in memory, which so agree.
  pub queues_agree :
      (id : String) (tasks : List (AgentTask R))
      → let worker = submit_all (inline_queue runtime) tasks empty in
        let facade = submit_all (in_memory_queue runtime) tasks (in_memory empty) in
        Answers (last_task id tasks) (get_status id worker) (get_events id worker)
        × Answers (last_task id tasks) (get_status id facade.worker) (get_events id facade.worker)
        × (get_status id facade.worker ≡ get_status id worker)
        × (get_events id facade.worker ≡ get_events id worker)
  queues_agree id tasks =
      let last = last_task id tasks in
      let status =
        submit_all-status (inline_queue runtime) id tasks empty
        ∙ ap (expected_status last) (new_status R id) in
      let events =
        submit_all-events (inline_queue runtime) id tasks empty
        ∙ ap (expected_events last) (new_events R id) in
      let status' =
        submit_all-status (in_memory_queue runtime) id tasks (in_memory empty)
        ∙ ap (expected_status last) (new_status R id) in
      let events' =
        submit_all-events (in_memory_queue runtime) id tasks (in_memory empty)
        ∙ ap (expected_events last) (new_events R id) in
      (
        moved last _ (expected_status last none) _ (expected_events last []) status events
            (expected-Answers last),
        moved last _ (expected_status last none) _ (expected_events last []) status' events'
            (expected-Answers last),
        status' ∙ sym status,
        events' ∙ sym events,
      )
