-- ===== src/Transport/Tests.antt =====
-- A channel between a gateway and a runtime.
use runtime_assistant_agent.Base.{true, ◌≡◌, refl, none, some, List, [], ◌∷◌, ◌++◌}
use runtime_assistant_agent.Protocol.{Frame}
use runtime_assistant_agent.Transport.{
  a, b, Duplex, create_pair, inbox, send, close, iterate, send_all,
}
use runtime_assistant_agent.Transport.Order.{
  Op, sends, injects, closes, receives, start, run, items_arrive_in_order, closed_stream_is_read,
}

abbrev hello : Frame
hello = record {
  v = 1;
  type = "user.message";
  session_id = none;
  turn_id = none;
  run_id = none;
  user_id = none;
  payload = none;
  reason = none;
  error = none;
}

abbrev ops : List Op
ops = sends a hello ∷ injects b hello ∷ receives b ∷ closes a ∷ sends a hello ∷ receives b ∷ []

all_read : (run start ops).got_by_b ≡ some hello ∷ some hello ∷ []
all_read = refl

items_arrive_in_order_example :
    ((run start ops).put_for_a ≡ (run start ops).got_by_a ++ inbox a (run start ops).duplex)
    × ((run start ops).put_for_b ≡ (run start ops).got_by_b ++ inbox b (run start ops).duplex)
items_arrive_in_order_example = items_arrive_in_order ops

closed_stream_is_read_example :
    (d : Duplex) × (send_all a (hello ∷ hello ∷ []) create_pair ≡ some d)
    × (iterate (inbox b (close a d)) ≡ (hello ∷ hello ∷ [], true))
    × ((f : Frame) → send a f (close a d) ≡ none)
closed_stream_is_read_example = closed_stream_is_read a (hello ∷ hello ∷ [])
