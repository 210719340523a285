-- ===== src/Protocol.antt =====
-- The frames of runTime/src/openclaw_gateway_runtime/protocol.py. An absent key of the dict is
-- `none`. A payload is a JSON object: it is read by the keys that the gateway and the runtime look
-- up in it, each a text or missing.
use runtime_assistant_agent.Base.{ℕ, String, Bool, Option, none, List, [], ◌∷◌}

pub record Payload : Type 0 where
  pub text : Option String
  pub turn_id : Option String
  pub run_id : Option String
  pub session_id : Option String
  pub modality : Option String
  pub key : Option String
  pub value : Option String
  pub expects_reply : Option Bool

abbrev pub empty_payload : Payload
empty_payload = record {
  text = none;
  turn_id = none;
  run_id = none;
  session_id = none;
  modality = none;
  key = none;
  value = none;
  expects_reply = none;
}

pub record FrameError : Type 0 where
  pub code : Option String
  pub message : Option String
  pub run_id : Option String
  pub session_id : Option String

pub record Frame : Type 0 where
  pub v : ℕ
  pub type : String
  pub session_id : Option String
  pub turn_id : Option String
  pub run_id : Option String
  pub user_id : Option String
  pub payload : Option Payload
  pub reason : Option String
  pub error : Option FrameError

-- `frame(type=t)`; the other keywords are given by a record update.
abbrev pub frame : String → Frame
frame t = record {
  v = 1;
  type = t;
  session_id = none;
  turn_id = none;
  run_id = none;
  user_id = none;
  payload = none;
  reason = none;
  error = none;
}

abbrev pub call_incoming : String
call_incoming = "call.incoming"

abbrev pub call_hangup : String
call_hangup = "call.hangup"

abbrev pub call_hangup_ack : String
call_hangup_ack = "call.hangup_ack"

abbrev pub config_update : String
config_update = "config.update"

abbrev pub supported_modalities : List String
supported_modalities = "text" ∷ []

-- `f.get("payload") or {}`
abbrev pub payload_or_empty : Option Payload → Payload
payload_or_empty none = empty_payload
payload_or_empty (Option.some p) = p
