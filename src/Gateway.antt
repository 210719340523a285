-- ===== src/Gateway.antt =====
-- runTime/src/openclaw_gateway_runtime/gateway/gateway.py: `GatewayService` and its bridges. A bridge is
-- its `ClientConn` with its event and with what its two readers have come to; a connection's id is new.
-- What the readers send and the calls of the runtime manager that they start are lists, newest last. The
-- loops of all bridges are a schedule of events. Logging and the metrics are left out; the environment's
-- switch for tool events is an argument.
pub mod Steps
pub mod Delivery
pub mod Ending
mod Tests
use Prim.Native.String.{◌++◌ as ◌<>◌}
use text.Mathlib.Text.{starts_with}
use runtime_assistant_agent.Base.{
  String, Bool, true, false, not, ◌&&◌, ◌||◌, Option, none, some, List, [], ◌∷◌, ◌++◌, ◌==◌,
  if◌then◌else◌, given, get_or, is_some, contains,
}
use runtime_assistant_agent.Base.Dict.{Dict, lookup, insert, remove}
use runtime_assistant_agent.Protocol.{
  Payload, FrameError, Frame, frame, call_incoming, call_hangup, call_hangup_ack, config_update,
  supported_modalities, payload_or_empty,
}

pub record ClientConn : Type 0 where
  pub session_id : Option String
  pub user_id : Option String
  pub active_run_id : Option String
  pub evicted : Bool
  pub client_done : Bool
  pub runtime_done : Bool

pub data ManagerCall : Type 0 where
  mark_hangup : String → ManagerCall
  inject_config : String → String → String → ManagerCall

pub record Gateway : Type 0 where
  pub clients : Dict ClientConn
  pub to_client : List (String × Frame)
  pub to_runtime : List (String × Frame)
  pub calls : List ManagerCall

unfoldable pub init : Gateway
init = record { clients = []; to_client = []; to_runtime = []; calls = [] }

-- `x or y` for optional texts
abbrev pub or_else : Option String → Option String → Option String
or_else none y = y
or_else (some x) y = if x == "" then y else some x

-- `conn.user_id == user_id`
abbrev same_text : Option String → String → Bool
same_text none b = false
same_text (some a) b = a == b

abbrev pub event_code : Option FrameError → Option String
event_code none = none
event_code (some e) = e.code

-- `_should_send_runtime_frame_to_client`
unfoldable pub should_send : Bool → Frame → Bool
should_send forward_events f =
    if starts_with f.type "_"
    then false
    else if (f.type == "event.skill" || f.type == "event.tool") && not forward_events
    then false
    else not (f.type == "error" && same_text (event_code f.error) "run_not_found")

abbrev pub evict_one : String → String → String → ClientConn → ClientConn
evict_one user_id client_id cid c =
    if same_text c.user_id user_id && not (cid == client_id) then record c { evicted = true } else c

-- the loop over the stale bridges of a user
abbrev pub evict_stale : String → String → Dict ClientConn → Dict ClientConn
evict_stale user_id client_id [] = []
evict_stale user_id client_id ((cid, c) ∷ d) =
    (cid, evict_one user_id client_id cid c) ∷ evict_stale user_id client_id d

abbrev evict_for : Option String → String → Dict ClientConn → Dict ClientConn
evict_for none client_id d = d
evict_for (some user_id) client_id d = evict_stale user_id client_id d

abbrev pub new_conn : Option String → Option String → ClientConn
new_conn user_id session_id = record {
  session_id = session_id;
  user_id = user_id;
  active_run_id = none;
  evicted = false;
  client_done = false;
  runtime_done = false;
}

-- `bridge`, up to the start of its two readers
pub open_bridge : String → Option String → Option String → Gateway → Gateway
open_bridge client_id user_id session_id g = record g {
  clients =
      insert client_id (new_conn user_id session_id)
        (evict_for (given user_id) client_id g.clients);
}

abbrev pub set_conn : String → ClientConn → Gateway → Gateway
set_conn client_id c g = record g { clients = insert client_id c g.clients }

abbrev pub send_client : String → Frame → Gateway → Gateway
send_client client_id f g = record g { to_client = g.to_client ++ (client_id, f) ∷ [] }

abbrev pub send_runtime : String → Frame → Gateway → Gateway
send_runtime client_id f g = record g { to_runtime = g.to_runtime ++ (client_id, f) ∷ [] }

abbrev call_manager : Bool → ManagerCall → Gateway → Gateway
call_manager wanted call g = if wanted then record g { calls = g.calls ++ call ∷ [] } else g

abbrev error_frame : Option String → String → String → Frame
error_frame uid code message = record (frame "error") {
  user_id = uid;
  error =
      some (record { code = some code; message = some message; run_id = none; session_id = none });
}

abbrev on_hangup : String → Option String → ClientConn → Gateway → Gateway
on_hangup cid uid c g = call_manager (is_some (given uid)) (mark_hangup (get_or uid "")) (
    set_conn cid (record c { client_done = true })
      (send_client cid (record (frame call_hangup_ack) { user_id = uid }) g))

abbrev on_config_update : Option String → Payload → Gateway → Gateway
on_config_update uid p g =
    let key = get_or p.key "" in
    call_manager (not (key == "") && is_some (given uid))
      (inject_config (get_or uid "") key (get_or p.value "")) g

abbrev on_session : String → Option String → Frame → ClientConn → Gateway → Gateway
on_session cid uid f c g =
    let sid = or_else (payload_or_empty f.payload).session_id f.session_id in
    send_runtime cid
      (record (frame f.type) { session_id = sid; user_id = uid; payload = f.payload })
      (set_conn cid (record c { session_id = sid }) g)

abbrev on_message : String → Option String → Frame → ClientConn → Gateway → Gateway
on_message cid uid f c g =
    let p = payload_or_empty f.payload in
    let sid = or_else f.session_id p.session_id in
    let modality = get_or (given p.modality) "text" in
    if contains supported_modalities modality
    then set_conn cid (record c { session_id = or_else sid c.session_id })
        (send_runtime cid (record f { user_id = or_else uid f.user_id }) g)
    else send_client cid
        (error_frame uid "unsupported_modality" (modality <> " modality not yet supported")) g

-- one round of `_client_to_runtime`
abbrev on_client_frame : String → Frame → ClientConn → Gateway → Gateway
on_client_frame cid f c g =
    let uid = or_else f.user_id c.user_id in
    if f.type == call_incoming
    then g
    else if f.type == call_hangup
    then on_hangup cid uid c g
    else if f.type == config_update
    then on_config_update uid (payload_or_empty f.payload) g
    else if f.type == "session.open" || f.type == "session.resume"
    then on_session cid uid f c g
    else if f.type == "message.user"
    then on_message cid uid f c g
    else if f.type == "run.cancel"
    then send_runtime cid f g
    else if f.type == "ping"
    then send_client cid (record (frame "pong") { user_id = uid }) g
    else send_client cid (error_frame uid "unknown_frame" ("unknown type: " <> f.type)) g

abbrev same_run : Option String → Option String → Bool
same_run none none = true
same_run (some a) (some b) = a == b
same_run _ _ = false

-- what a bridge remembers of a runtime frame
abbrev pub track : Frame → ClientConn → ClientConn
track f c =
    if f.type == "run.started"
    then record c { active_run_id = f.run_id; session_id = or_else f.session_id c.session_id }
    else if f.type == "run.end" && same_run c.active_run_id f.run_id
    then record c { active_run_id = none }
    else c

abbrev pub with_user : Option String → Frame → Frame
with_user user_id f =
    if is_some (given user_id) && not (is_some (given f.user_id))
    then record f { user_id = user_id }
    else f

-- one round of `_runtime_to_client`
abbrev on_runtime_frame : Bool → String → Frame → ClientConn → Gateway → Gateway
on_runtime_frame forward_events cid f c g =
    if c.evicted
    then set_conn cid (record c { runtime_done = true }) g
    else (let g' = set_conn cid (track f c) g in
        if should_send forward_events f then send_client cid (with_user c.user_id f) g' else g')

-- what follows the readers of a bridge
abbrev tear_down : String → ClientConn → Gateway → Gateway
tear_down cid c g =
    let g' = record g { clients = remove cid g.clients } in
    if not c.evicted && (is_some (given c.active_run_id) || is_some (given c.session_id))
    then send_runtime cid
        (record (frame "run.cancel") {
          run_id = c.active_run_id;
          session_id = c.session_id;
          user_id = c.user_id;
        })
        g'
    else g'

pub data Event : Type 0 where
  opens : String → Option String → Option String → Event
  client_sends : String → Frame → Event
  client_ends : String → Event
  runtime_sends : String → Frame → Event
  tears_down : String → Event

-- an event of a bridge that is there
abbrev pub on_conn : Bool → Event → ClientConn → Gateway → Gateway
on_conn forward_events (opens cid user_id session_id) c g = g
on_conn forward_events (client_sends cid f) c g =
    if c.client_done then g else on_client_frame cid f c g
on_conn forward_events (client_ends cid) c g = set_conn cid (record c { client_done = true }) g
on_conn forward_events (runtime_sends cid f) c g =
    if c.runtime_done then g else on_runtime_frame forward_events cid f c g
on_conn forward_events (tears_down cid) c g =
    if c.client_done || c.runtime_done then tear_down cid c g else g

abbrev pub client_of : Event → String
client_of (opens cid user_id session_id) = cid
client_of (client_sends cid f) = cid
client_of (client_ends cid) = cid
client_of (runtime_sends cid f) = cid
client_of (tears_down cid) = cid

abbrev pub at_conn : Bool → Event → Option ClientConn → Gateway → Gateway
at_conn forward_events e none g = g
at_conn forward_events e (some c) g = on_conn forward_events e c g

pub step : Bool → Event → Gateway → Gateway
step forward_events (opens cid user_id session_id) g = open_bridge cid user_id session_id g
step forward_events e g = at_conn forward_events e (lookup (client_of e) g.clients) g

pub run : Bool → List Event → Gateway → Gateway
run forward_events [] g = g
run forward_events (e ∷ es) g = run forward_events es (step forward_events e g)
