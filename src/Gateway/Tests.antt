-- ===== src/Gateway/Tests.antt =====
-- Bridges of one user.
use runtime_assistant_agent.Base.{
  String, true, false, ◌≡◌, ◌≢◌, refl, none, some, List, [], ◌∷◌, All, ne_of_test,
}
use runtime_assistant_agent.Base.Dict.{lookup, insert}
use runtime_assistant_agent.Protocol.{Frame, frame}
use runtime_assistant_agent.Gateway.{
  ClientConn, Gateway, init, new_conn, Event, opens, client_ends, runtime_sends, tears_down, step,
  run, open_bridge,
}
use runtime_assistant_agent.Gateway.Steps.{Serves, one_live_bridge}
use runtime_assistant_agent.Gateway.Delivery.{IsPublic, sent_frames-IsPublic}
use runtime_assistant_agent.Gateway.Ending.{evicted_bridge_drops_frame, disconnect_cancels_run}

-- one user who connects twice
abbrev twice : List Event
twice = opens "c1" (some "u1") none ∷ opens "c2" (some "u1") none ∷ []

abbrev chunk : Frame
chunk = frame "stream.chunk"

abbrev begin_frame : Frame
begin_frame = record (frame "run.started") { run_id = some "r1"; session_id = some "s1" }

abbrev old_conn : ClientConn
old_conn = record (new_conn (some "u1") none) { evicted = true }

abbrev live_conn : ClientConn
live_conn = new_conn (some "u1") none

abbrev both : Gateway
both = record {
  clients = ("c1", old_conn) ∷ ("c2", live_conn) ∷ [];
  to_client = [];
  to_runtime = [];
  calls = [];
}

twice_evicts : run false twice init ≡ both
unfolding run step init open_bridge lookup insert
twice_evicts = refl

named : ◌≢◌ {A = String} "u1" ""
named = ne_of_test "u1" "" refl

served : Serves "u1" (run false twice init).clients "c2"
unfolding run step init open_bridge lookup insert
served = (live_conn, refl, refl, refl)

one_live_bridge_example : ◌≡◌ {A = String} "c2" "c2"
one_live_bridge_example = one_live_bridge false twice "u1" "c2" "c2" named served served

sent_frames-IsPublic_example :
    All
      (IsPublic false)
      (run false
        (opens "c1" (some "u1") none ∷ runtime_sends "c1" (frame "_evict") ∷ [])
        init).to_client
sent_frames-IsPublic_example =
    sent_frames-IsPublic false
      (opens "c1" (some "u1") none ∷ runtime_sends "c1" (frame "_evict") ∷ [])

evicted_bridge_drops_frame_example :
    let g' = run false (runtime_sends "c1" chunk ∷ tears_down "c1" ∷ []) both in
    (g'.to_client ≡ []) × (g'.to_runtime ≡ []) × (lookup "c1" g'.clients ≡ none)
unfolding lookup
evicted_bridge_drops_frame_example =
    evicted_bridge_drops_frame false "c1" chunk old_conn both refl refl refl

disconnect_cancels_run_example :
    let g' =
      run false (runtime_sends "c2" begin_frame ∷ client_ends "c2" ∷ tears_down "c2" ∷ []) both in
    (g'.to_runtime
      ≡ (
        "c2",
        record (frame "run.cancel") {
          run_id = some "r1";
          session_id = some "s1";
          user_id = some "u1";
        },
      )
        ∷ [])
    × (lookup "c2" g'.clients ≡ none)
unfolding lookup
disconnect_cancels_run_example =
    disconnect_cancels_run false "c2" "r1" begin_frame live_conn both refl refl refl refl refl refl
