-- ===== src/Runtime.antt =====
-- runTime/src/openclaw_gateway_runtime/runtime/runtime.py: `RuntimeService`, with the counters of
-- infra/metrics.py. The event loop is a schedule of `Event`s. Between two events nothing else runs:
-- the lock is never held across a wait, so that taking it does not suspend. A message makes a
-- `Task`, the `_runner` closure with its own `CancelToken`; the token's address is the task's
-- position in `tasks`. What the endpoint is sent is appended to `sent`.
pub mod Registration
pub mod Frames
pub mod Cancellation
pub mod Requests
pub mod Messages
mod Tests
use runtime_assistant_agent.Base.{
  ◌≡◌, refl, ℕ, suc, ◌+◌, String, Bool, true, false, ◌||◌, Option, none, some, List, [], ◌∷◌, ◌++◌,
  ◌==◌, if◌then◌else◌, given, get_or, is_some, length, get_elem?, modify,
}
use runtime_assistant_agent.Base.Dict.{Dict, lookup, insert, remove}
use runtime_assistant_agent.Protocol.{
  Payload, empty_payload, FrameError, Frame, frame, payload_or_empty,
}

pub record ActiveRun : Type 0 where
  pub run_id : String
  pub turn_id : String
  pub cancel : ℕ

pub data Phase : Type 0 where
  created running ended : Phase

data WhichPhase (p : Phase) : Type 0 where
  created_now : p ≡ created → WhichPhase p
  running_now : p ≡ running → WhichPhase p
  ended_now : p ≡ ended → WhichPhase p

Phase-cases : (p : Phase) → WhichPhase p
Phase-cases created = created_now refl
Phase-cases running = running_now refl
Phase-cases ended = ended_now refl

pub record Task : Type 0 where
  pub session_id : String
  pub turn_id : String
  pub run_id : String
  pub user_id : String
  pub user_text : String
  pub history : List String
  pub cancelled : Bool
  pub phase : Phase
  pub expects_reply : Bool

pub record Service : Type 0 where
  pub user_id : String
  pub active_by_session : Dict ActiveRun
  pub history_by_session : Dict (List String)
  pub tasks : List Task
  pub sent : List Frame
  pub runs_started_total : ℕ
  pub cancelled_total : ℕ

unfoldable pub init : String → Service
init user_id = record {
  user_id = user_id;
  active_by_session = [];
  history_by_session = [];
  tasks = [];
  sent = [];
  runs_started_total = 0;
  cancelled_total = 0;
}

send : Frame → Service → Service
send f s = record s { sent = s.sent ++ f ∷ [] }

-- `CancelToken.cancel`
abbrev pub cancel_task : Task → Task
cancel_task t = record t { cancelled = true }

-- `cur.cancel.cancel()` and `runtime_metrics.on_cancel()`
cancel_run : ActiveRun → Service → Service
cancel_run cur s = record s {
  tasks = modify s.tasks cur.cancel cancel_task;
  cancelled_total = s.cancelled_total + 1;
}

interrupt : Option ActiveRun → Service → Service
interrupt none s = s
interrupt (some cur) s = cancel_run cur s

interrupt_if_needed : String → Service → Service
unfolding interrupt cancel_run
interrupt_if_needed session_id s = interrupt (lookup session_id s.active_by_session) s

-- `hist = setdefault(session_id, []); hist.append(user_text)`, as the new list
abbrev pub extended : String → String → Service → List String
extended session_id user_text s =
    get_or (lookup session_id s.history_by_session) [] ++ user_text ∷ []

append_history : String → String → Service → Service
append_history session_id user_text s = record s {
  history_by_session = insert session_id (extended session_id user_text s) s.history_by_session;
}

create_task : Task → Service → Service
create_task t s = record s { tasks = s.tasks ++ t ∷ [] }

abbrev pub user_text_of : Frame → String
user_text_of f = get_or (payload_or_empty f.payload).text ""

-- The task of a message; the two ids come last, as `uuid4` gives them where the payload has none.
abbrev pub new_task : String → Frame → String → String → Service → Task
new_task session_id f fresh_turn fresh_run s = record {
  session_id = session_id;
  turn_id = get_or (given (payload_or_empty f.payload).turn_id) fresh_turn;
  run_id = get_or (given (payload_or_empty f.payload).run_id) fresh_run;
  user_id = get_or (given f.user_id) s.user_id;
  user_text = user_text_of f;
  history = extended session_id (user_text_of f) s;
  cancelled = false;
  phase = created;
  expects_reply = true;
}

accept_message : String → Frame → String → String → Service → Service
unfolding interrupt_if_needed append_history create_task
accept_message session_id f fresh_turn fresh_run s =
    let t = new_task session_id f fresh_turn fresh_run s in
    create_task t (append_history session_id t.user_text (interrupt_if_needed session_id s))

abbrev error_code : String → FrameError
error_code c = record { code = some c; message = none; run_id = none; session_id = none }

handle_user_message : Frame → String → String → Service → Service
unfolding accept_message send
handle_user_message f fresh_turn fresh_run s = elim (given f.session_id) [
  | none ↦ send (record (frame "error") { error = some (error_code "missing_session_id") }) s
  | some session_id ↦ accept_message session_id f fresh_turn fresh_run s
]

-- the scan of `_handle_cancel` for a run with no session given
abbrev pub scan : String → Dict ActiveRun → Option ActiveRun
scan run_id [] = none
scan run_id ((sid, cur) ∷ rest) = if cur.run_id == run_id then some cur else scan run_id rest

-- `run_id is None or cur.run_id == run_id`
abbrev pub fits : Option String → ActiveRun → Bool
fits none cur = true
fits (some run_id) cur = cur.run_id == run_id

abbrev only_if_fits : Option String → Option ActiveRun → Option ActiveRun
only_if_fits run_id none = none
only_if_fits run_id (some cur) = if fits run_id cur then some cur else none

-- the run that a `run.cancel` frame names
pub cancel_target : Frame → Service → Option ActiveRun
cancel_target f s = elim (given f.session_id) [
  | some session_id ↦ only_if_fits f.run_id (lookup session_id s.active_by_session)
  | none ↦ elim (given f.run_id) [ some run_id ↦ scan run_id s.active_by_session | none ↦ none ]
]

abbrev run_not_found : Frame → Frame
run_not_found f = record (frame "error") {
  error = some (record {
    code = some "run_not_found";
    message = none;
    run_id = f.run_id;
    session_id = f.session_id;
  });
}

handle_cancel : Frame → Service → Service
unfolding cancel_run send
handle_cancel f s = elim (cancel_target f s) [
  | some cur ↦ cancel_run cur s
  | none ↦ send (run_not_found f) s
]

abbrev unknown_frame : Frame → Frame
unknown_frame f = record (frame "error") {
  error = some (record {
    code = some "unknown_frame";
    message = some f.type;
    run_id = none;
    session_id = none;
  });
}

-- one round of `serve`
serve_frame : Frame → String → String → Service → Service
unfolding handle_user_message handle_cancel send
serve_frame f fresh_turn fresh_run s =
    if f.type == "message.user"
    then handle_user_message f fresh_turn fresh_run s
    else if f.type == "run.cancel"
    then handle_cancel f s
    else if f.type == "ping"
    then send (frame "pong") s
    else send (unknown_frame f) s

-- a frame of the run of a task
abbrev run_frame : String → Task → Frame
run_frame type t = record (frame type) {
  session_id = some t.session_id;
  turn_id = some t.turn_id;
  run_id = some t.run_id;
}

abbrev run_end : String → Bool → Task → Frame
run_end reason expects t = record (run_frame "run.end" t) {
  reason = some reason;
  payload = some (record empty_payload { expects_reply = some expects });
}

abbrev run_end_error : String → Task → Frame
run_end_error message t = record (run_end "error" true t) {
  error = some (record { code = none; message = some message; run_id = none; session_id = none });
}

abbrev pub set_phase : Phase → Task → Task
set_phase p t = record t { phase = p }

-- the beginning of `_runner`, up to the first wait for the adapter
begin_run : ℕ → Task → Service → Service
unfolding send
begin_run k t s =
    let cur : ActiveRun = record { run_id = t.run_id; turn_id = t.turn_id; cancel = k } in
    send (run_frame "run.started" t) (record s {
      active_by_session = insert t.session_id cur s.active_by_session;
      tasks = modify s.tasks k (set_phase running);
      runs_started_total = s.runs_started_total + 1;
    })

abbrev registered_as : String → Option ActiveRun → Bool
registered_as run_id none = false
registered_as run_id (some cur) = cur.run_id == run_id

-- the `finally` block: the session is freed only by the run that holds it
free_session : Task → Dict ActiveRun → Dict ActiveRun
free_session t d =
    if registered_as t.run_id (lookup t.session_id d) then remove t.session_id d else d

-- the last frame of a run, and the `finally` block
end_run : ℕ → Task → Frame → Service → Service
unfolding send free_session
end_run k t f s = send f (record s {
  active_by_session = free_session t s.active_by_session;
  tasks = modify s.tasks k (set_phase ended);
})

-- What `async for ev in self._adapter.run(…)` can meet next: an event with `expects_reply` in its
-- meta, any other event, the end of the iteration, or an exception.
pub data Adapter : Type 0 where
  expects : Bool → Adapter
  emits : String → Option Payload → Adapter
  stops : Adapter
  raises : String → Adapter

end_cancelled : ℕ → Task → Service → Service
unfolding end_run
end_cancelled k t = end_run k t (run_end "cancelled" true t)

-- one round of the `async for` loop of a running task, and what follows the loop
adapter_round : ℕ → Task → Adapter → Service → Service
unfolding end_cancelled end_run send
adapter_round k t (raises message) s = end_run k t (run_end_error message t) s
adapter_round k t stops s =
    if t.cancelled
    then end_cancelled k t s
    else end_run k t (run_end "completed" t.expects_reply t) s
adapter_round k t (expects b) s =
    if t.cancelled
    then end_cancelled k t s
    else record s { tasks = modify s.tasks k (λ u. record u { expects_reply = b }) }
adapter_round k t (emits type payload) s =
    if t.cancelled
    then end_cancelled k t s
    else send (record (run_frame type t) { payload = payload }) s

pub data Event : Type 0 where
  receive : Frame → String → String → Event
  start : ℕ → Event
  adapter : ℕ → Adapter → Event

-- Task `k` begins once, and its adapter is asked only while it runs.
on_start : ℕ → Option Task → Service → Service
unfolding begin_run
on_start k none s = s
on_start k (some t) s = elim t.phase [ created ↦ begin_run k t s | running ↦ s | ended ↦ s ]

on_adapter : ℕ → Adapter → Option Task → Service → Service
unfolding adapter_round
on_adapter k a none s = s
on_adapter k a (some t) s = elim t.phase [
  | created ↦ s
  | running ↦ adapter_round k t a s
  | ended ↦ s
]

unfoldable pub step : Service → Event → Service
unfolding serve_frame on_start on_adapter
step s (receive f fresh_turn fresh_run) = serve_frame f fresh_turn fresh_run s
step s (start k) = on_start k (get_elem? s.tasks k) s
step s (adapter k a) = on_adapter k a (get_elem? s.tasks k) s

unfoldable pub run : Service → List Event → Service
run s [] = s
run s (e ∷ es) = run (step s e) es
