-- ===== src/Gateway/Delivery.antt =====
-- What a bridge delivers to its client.
use text.Mathlib.Text.{starts_with}
use runtime_assistant_agent.Base.{
  String, Bool, true, false, not, ◌&&◌, ◌||◌, ◌≡◌, refl, Option, none, some, List, [], ◌∷◌, arith,
  ◌==◌, if◌then◌else◌, if_intro, given, get_or, is_some, contains, Bool-cases, inl, inr, All,
  All-append,
}
use runtime_assistant_agent.Base.Dict.{lookup}
use runtime_assistant_agent.Protocol.{
  Frame, payload_or_empty, supported_modalities, call_incoming, call_hangup, config_update,
}
use runtime_assistant_agent.Gateway.{
  ClientConn, Gateway, init, open_bridge, set_conn, on_client_frame, on_runtime_frame, Event, opens,
  client_sends, client_ends, runtime_sends, tears_down, on_conn, at_conn, step, run, track,
  should_send, send_client, or_else, with_user,
}

-- a frame that the outside may see
abbrev pub IsPublic : Bool → String × Frame → Type 0
IsPublic v (cid, f) =
    (starts_with f.type "_" ≡ false)
    × (((f.type == "event.skill" || f.type == "event.tool") && not v) ≡ false)

abbrev IsDiscreet : Bool → Gateway → Type 0
IsDiscreet v g = All (IsPublic v) g.to_client

with_user-type : (u : Option String) (f : Frame) → (with_user u f).type ≡ f.type
with_user-type u f = ground arith

should_send-IsPublic :
    (v : Bool) (cid : String) (u : Option String) (f : Frame)
    → should_send v f ≡ true
    → IsPublic v (cid, with_user u f)
unfolding should_send
should_send-IsPublic v cid u f h = rw (with_user-type u f) (ground arith, ground arith)

send_client-IsDiscreet :
    (v : Bool) (cid : String) (f : Frame) (g : Gateway)
    → IsPublic v (cid, f)
    → IsDiscreet v g
    → IsDiscreet v (send_client cid f g)
send_client-IsDiscreet v cid f g p h = All-append (IsPublic v) g.to_client ((cid, f) ∷ []) h (p, tt)

module _ (v : Bool) where
  either :
      (b : Bool) (x y : Gateway)
      → IsDiscreet v x
      → IsDiscreet v y
      → IsDiscreet v (if b then x else y)
  either b x y h k = if_intro (IsDiscreet v) b h k

  on_client_frame-IsDiscreet :
      (cid : String) (f : Frame) (c : ClientConn) (g : Gateway)
      → IsDiscreet v g
      → IsDiscreet v (on_client_frame cid f c g)
  on_client_frame-IsDiscreet cid f c g h =
      let uid = or_else f.user_id c.user_id in
      let sent = λ (r : Frame) (p : IsPublic v (cid, r)). send_client-IsDiscreet v cid r g p h in
      either (f.type == call_incoming) _ _ h (
        either (f.type == call_hangup) _ _
          (either (is_some (given uid)) _ _ (sent _ (refl, refl)) (sent _ (refl, refl)))
          (either (f.type == config_update) _ _
            (either (not (get_or (payload_or_empty f.payload).key "" == "") && is_some (given uid))
              _ _ h h)
            (either (f.type == "session.open" || f.type == "session.resume") _ _ h (
              either (f.type == "message.user") _ _
                (either
                  (contains supported_modalities
                    (get_or (given (payload_or_empty f.payload).modality) "text"))
                  _ _ h (sent _ (refl, refl)))
                (either (f.type == "run.cancel") _ _ h
                  (either (f.type == "ping") _ _ (sent _ (refl, refl)) (sent _ (refl, refl))))))))

  on_runtime_frame-IsDiscreet :
      (cid : String) (f : Frame) (c : ClientConn) (g : Gateway)
      → IsDiscreet v g
      → IsDiscreet v (on_runtime_frame v cid f c g)
  on_runtime_frame-IsDiscreet cid f c g h =
      either c.evicted _ _ h (elim (Bool-cases (should_send v f)) [
        | inl shown ↦ rw shown (
            send_client-IsDiscreet v cid (with_user c.user_id f) (set_conn cid (track f c) g)
              (should_send-IsPublic v cid c.user_id f shown) h)
        | inr hidden ↦ rw hidden h
      ])

  on_conn-IsDiscreet :
      (e : Event) (c : ClientConn) (g : Gateway) → IsDiscreet v g → IsDiscreet v (on_conn v e c g)
  on_conn-IsDiscreet (opens cid u s) c g h = h
  on_conn-IsDiscreet (client_sends cid f) c g h =
      either c.client_done _ _ h (on_client_frame-IsDiscreet cid f c g h)
  on_conn-IsDiscreet (client_ends cid) c g h = h
  on_conn-IsDiscreet (runtime_sends cid f) c g h =
      either c.runtime_done _ _ h (on_runtime_frame-IsDiscreet cid f c g h)
  on_conn-IsDiscreet (tears_down cid) c g h =
      either (c.client_done || c.runtime_done) _ _
        (either (not c.evicted && (is_some (given c.active_run_id) || is_some (given c.session_id)))
          _ _ h h)
        h

  at_conn-IsDiscreet :
      (e : Event) (o : Option ClientConn) (g : Gateway)
      → IsDiscreet v g
      → IsDiscreet v (at_conn v e o g)
  at_conn-IsDiscreet e none g h = h
  at_conn-IsDiscreet e (some c) g h = on_conn-IsDiscreet e c g h

  step-IsDiscreet : (e : Event) (g : Gateway) → IsDiscreet v g → IsDiscreet v (step v e g)
  unfolding step open_bridge
  step-IsDiscreet (opens cid user_id session_id) g h = h
  step-IsDiscreet (client_sends cid f) g h =
      at_conn-IsDiscreet (client_sends cid f) (lookup cid g.clients) g h
  step-IsDiscreet (client_ends cid) g h =
      at_conn-IsDiscreet (client_ends cid) (lookup cid g.clients) g h
  step-IsDiscreet (runtime_sends cid f) g h =
      at_conn-IsDiscreet (runtime_sends cid f) (lookup cid g.clients) g h
  step-IsDiscreet (tears_down cid) g h =
      at_conn-IsDiscreet (tears_down cid) (lookup cid g.clients) g h

  run-IsDiscreet : (es : List Event) (g : Gateway) → IsDiscreet v g → IsDiscreet v (run v es g)
  unfolding run
  run-IsDiscreet [] g h = h
  run-IsDiscreet (e ∷ es) g h = run-IsDiscreet es (step v e g) (step-IsDiscreet e g h)

-- Whatever frames arrive, no client is sent a frame with an internal type, which begins with an
-- underscore, and none of a skill or a tool unless the gateway is told to forward these.
pub sent_frames-IsPublic : (v : Bool) (es : List Event) → All (IsPublic v) (run v es init).to_client
unfolding init
sent_frames-IsPublic v es = run-IsDiscreet v es init tt
