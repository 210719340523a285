-- ===== src/Transport.antt =====
-- runTime/src/openclaw_gateway_runtime/transport.py: the duplex channel between a gateway and a runtime.
-- The two endpoints share the record of the two queues; `none` in a queue is the sentinel of `close`. A
-- `get` on an empty queue waits, which is an answer of `none` here.
pub mod Order
mod Tests
use runtime_assistant_agent.Base.{
  Bool, true, false, Option, none, some, List, [], ◌∷◌, ◌++◌, if◌then◌else◌,
}
use runtime_assistant_agent.Protocol.{Frame}

pub data Side : Type 0 where
  a : Side
  b : Side

abbrev pub Queue : Type 0
Queue = List (Option Frame)

-- `InMemoryDuplex` with the `_closed` of its two endpoints
pub record Duplex : Type 0 where
  pub a_to_b : Queue
  pub b_to_a : Queue
  pub a_closed : Bool
  pub b_closed : Bool

-- `InMemoryDuplex.create_pair`
abbrev pub create_pair : Duplex
create_pair = record { a_to_b = []; b_to_a = []; a_closed = false; b_closed = false }

abbrev pub is_closed : Side → Duplex → Bool
is_closed a d = d.a_closed
is_closed b d = d.b_closed

-- `put` into the queue that a side writes to
abbrev pub put : Side → Option Frame → Duplex → Duplex
put a item d = record d { a_to_b = d.a_to_b ++ item ∷ [] }
put b item d = record d { b_to_a = d.b_to_a ++ item ∷ [] }

abbrev pub other : Side → Side
other a = b
other b = a

-- `Endpoint.send`; `none` where it raises `Closed`
abbrev pub send : Side → Frame → Duplex → Option Duplex
send side f d = if is_closed side d then none else some (put side (some f) d)

-- `Endpoint._inject`: into the queue that the side reads from
abbrev pub inject : Side → Frame → Duplex → Duplex
inject side f d = put (other side) (some f) d

abbrev pub mark_closed : Side → Duplex → Duplex
mark_closed a d = record d { a_closed = true }
mark_closed b d = record d { b_closed = true }

-- `Endpoint.close`
abbrev pub close : Side → Duplex → Duplex
close side d = if is_closed side d then d else put side none (mark_closed side d)

-- the queue that a side reads from
abbrev pub inbox : Side → Duplex → Queue
inbox a d = d.b_to_a
inbox b d = d.a_to_b

abbrev pub with_inbox : Side → Queue → Duplex → Duplex
with_inbox a q d = record d { b_to_a = q }
with_inbox b q d = record d { a_to_b = q }

-- one `get` of `Endpoint.__aiter__`
abbrev pub take_from : Side → Duplex → Queue → Option (Option Frame × Duplex)
take_from side d [] = none
take_from side d (item ∷ rest) = some (item, with_inbox side rest d)

abbrev pub receive : Side → Duplex → Option (Option Frame × Duplex)
receive side d = take_from side d (inbox side d)

-- what `async for` yields of a queue, and whether it has met the sentinel and ended
abbrev pub iterate : Queue → List Frame × Bool
iterate [] = ([], false)
iterate (none ∷ rest) = ([], true)
iterate (some f ∷ rest) = let more = iterate rest in (f ∷ more.0, more.1)

abbrev pub then_send : (Duplex → Option Duplex) → Option Duplex → Option Duplex
then_send rest none = none
then_send rest (some d) = rest d

-- sends one after another
abbrev pub send_all : Side → List Frame → Duplex → Option Duplex
send_all side [] d = some d
send_all side (f ∷ fs) d = then_send (send_all side fs) (send side f d)
