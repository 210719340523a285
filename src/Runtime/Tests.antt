-- ===== src/Runtime/Tests.antt =====
-- Runs of the runtime at concrete schedules, and its theorems at them.
use runtime_assistant_agent.Base.{
  ◌≡◌, refl, ◌≢◌, none, some, List, [], ◌∷◌, ◌++◌, get_elem?, String,
}
use runtime_assistant_agent.Base.Dict.{lookup, insert}
use runtime_assistant_agent.Protocol.{Frame, frame, empty_payload}
use runtime_assistant_agent.Runtime.{
  ActiveRun, Task, Service, Event, receive, start, adapter, emits, stops, init, cancel_task,
  set_phase, running, new_task, step, run, cancel_target,
}
use runtime_assistant_agent.Runtime.Registration.{Backs, active_runs_are_running}
use runtime_assistant_agent.Runtime.Cancellation.{last_frame, cancelled_run_never_completes}
use runtime_assistant_agent.Runtime.Messages.{early_message_does_not_interrupt}

abbrev message : String → Frame
message text = record (frame "message.user") {
  session_id = some "s1";
  payload = some (record empty_payload { text = some text });
}

abbrev cancel : Frame
cancel = record (frame "run.cancel") { session_id = some "s1" }

abbrev cancel_other : Frame
cancel_other = record cancel { run_id = some "r9" }

-- one message whose run has begun
abbrev begun : List Event
begun = receive (message "hello") "t1" "r1" ∷ start 0 ∷ []

-- the run answers, is cancelled and is told so at its next event
abbrev cancelled : List Event
cancelled = begun ++ adapter 0 (emits "stream.chunk" none) ∷ receive cancel "" "" ∷ []

abbrev finished : List Event
finished = cancelled ++ adapter 0 (emits "stream.chunk" none) ∷ []

abbrev base : Service
base = init "default"

abbrev after : List Event → Service
after es = run base es

abbrev first_run : ActiveRun
first_run = record { run_id = "r1"; turn_id = "t1"; cancel = 0 }

abbrev first : Task
first = new_task "s1" (message "hello") "t1" "r1" base

s1-named : ◌≢◌ {A = String} "s1" ""
s1-named p = cc

registered : lookup "s1" (after begun).active_by_session ≡ some first_run
unfolding run step init lookup insert cancel_target
registered = refl

active_runs_are_running_example :
    Backs "s1" first_run (get_elem? (run (init "default") begun).tasks first_run.cancel)
active_runs_are_running_example = active_runs_are_running "default" begun "s1" first_run registered

cancelled_run_never_completes_example :
    (step (run (after cancelled) []) (adapter 0 stops)).sent
    ≡ (run (after cancelled) []).sent
      ++ last_frame stops (cancel_task (set_phase running first)) ∷ []
unfolding run step init lookup insert cancel_target
cancelled_run_never_completes_example =
    cancelled_run_never_completes [] (after cancelled) 0 (cancel_task (set_phase running first))
      (cancel_task (set_phase running first)) stops refl refl refl refl

no_active_run : lookup "s1" base.active_by_session ≡ none
unfolding init lookup
no_active_run = refl

early_message_does_not_interrupt_example :
    let s' = run base (
      receive (message "a") "t1" "r1" ∷ receive (message "b") "t2" "r2" ∷ start 0 ∷ start 1 ∷ []) in
    get_elem? s'.tasks 0 ≡ some (set_phase running (new_task "s1" (message "a") "t1" "r1" base))
unfolding init
early_message_does_not_interrupt_example =
    (early_message_does_not_interrupt (message "a") (message "b") "t1" "r1" "t2" "r2" "s1" base refl
      refl refl refl s1-named no_active_run).0
