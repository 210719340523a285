-- ===== src/Transport/Order.antt =====
-- What arrives through the channel, and in which order.
use runtime_assistant_agent.Base.{
  Bool, true, false, ◌≡◌, refl, ◌∙◌, ap, sym, Option, none, some, List, [], ◌∷◌, ◌++◌, map,
  append_assoc, append-nil, if_intro, Bool-cases, inl, inr,
}
use runtime_assistant_agent.Protocol.{Frame}
use runtime_assistant_agent.Transport.{
  Side, a, b, Queue, Duplex, create_pair, is_closed, put, other, send, inject, close, inbox,
  take_from, receive, iterate, then_send, send_all,
}

-- an operation of one of the endpoints
pub data Op : Type 0 where
  sends : Side → Frame → Op
  injects : Side → Frame → Op
  closes : Side → Op
  receives : Side → Op

-- A channel with what was put into the queue of each reader, and what the reader has taken from it.
pub record Log : Type 0 where
  pub duplex : Duplex
  pub put_for_a : Queue
  pub put_for_b : Queue
  pub got_by_a : Queue
  pub got_by_b : Queue

abbrev pub start : Log
start = record {
  duplex = create_pair;
  put_for_a = [];
  put_for_b = [];
  got_by_a = [];
  got_by_b = [];
}

-- an item that one side has written, on record for the other
abbrev note : Side → Option Frame → Duplex → Log → Log
note a item d l = record l { duplex = d; put_for_b = l.put_for_b ++ item ∷ [] }
note b item d l = record l { duplex = d; put_for_a = l.put_for_a ++ item ∷ [] }

-- A `send` that raises `Closed` changes nothing.
abbrev sent : Side → Frame → Option Duplex → Log → Log
sent side f none l = l
sent side f (some d) l = note side (some f) d l

-- Closing twice is closing once.
abbrev closed : Bool → Side → Duplex → Log → Log
closed true side d l = record l { duplex = d }
closed false side d l = note side none d l

abbrev got : Side → Option (Option Frame × Duplex) → Log → Log
got side none l = l
got a (some (item, d)) l = record l { duplex = d; got_by_a = l.got_by_a ++ item ∷ [] }
got b (some (item, d)) l = record l { duplex = d; got_by_b = l.got_by_b ++ item ∷ [] }

abbrev pub step : Log → Op → Log
step l (sends side f) = sent side f (send side f l.duplex) l
step l (injects side f) = note (other side) (some f) (inject side f l.duplex) l
step l (closes side) = closed (is_closed side l.duplex) side (close side l.duplex) l
step l (receives side) = got side (receive side l.duplex) l

abbrev pub run : Log → List Op → Log
run l [] = l
run l (op ∷ ops) = run (step l op) ops

-- What was put into a queue is what was taken and what is left, in this order.
abbrev pub IsOrdered : Log → Type 0
IsOrdered l =
    (l.put_for_a ≡ l.got_by_a ++ inbox a l.duplex) × (l.put_for_b ≡ l.got_by_b ++ inbox b l.duplex)

grown :
    (xs ys zs : Queue) (item : Option Frame)
    → xs ≡ ys ++ zs
    → xs ++ item ∷ [] ≡ ys ++ (zs ++ item ∷ [])
grown xs ys zs item h = ap (λ q. q ++ item ∷ []) h ∙ append_assoc ys zs (item ∷ [])

shrunk :
    (xs ys zs : Queue) (item : Option Frame) → xs ≡ ys ++ item ∷ zs → xs ≡ (ys ++ item ∷ []) ++ zs
shrunk xs ys zs item h = h ∙ sym (append_assoc ys (item ∷ []) zs)

put-IsOrdered :
    (side : Side) (item : Option Frame) (l : Log)
    → IsOrdered l
    → IsOrdered (note side item (put side item l.duplex) l)
put-IsOrdered a item l h = (h.0, grown l.put_for_b l.got_by_b l.duplex.a_to_b item h.1)
put-IsOrdered b item l h = (grown l.put_for_a l.got_by_a l.duplex.b_to_a item h.0, h.1)

send-IsOrdered :
    (side : Side) (f : Frame) (l : Log)
    → IsOrdered l
    → IsOrdered (sent side f (send side f l.duplex) l)
send-IsOrdered side f l h =
    if_intro (λ o. IsOrdered (sent side f o l)) (is_closed side l.duplex) {x = none}
      {y = some (put side (some f) l.duplex)} h (put-IsOrdered side (some f) l h)

close-IsOrdered :
    (side : Side) (l : Log)
    → IsOrdered l
    → IsOrdered (closed (is_closed side l.duplex) side (close side l.duplex) l)
close-IsOrdered a l h = elim (Bool-cases l.duplex.a_closed) [
  | inl shut ↦ rw shut h
  | inr on ↦ rw on (h.0, grown l.put_for_b l.got_by_b l.duplex.a_to_b none h.1)
]
close-IsOrdered b l h = elim (Bool-cases l.duplex.b_closed) [
  | inl shut ↦ rw shut h
  | inr on ↦ rw on (grown l.put_for_a l.got_by_a l.duplex.b_to_a none h.0, h.1)
]

take-IsOrdered :
    (side : Side) (q : Queue) (l : Log)
    → inbox side l.duplex ≡ q
    → IsOrdered l
    → IsOrdered (got side (take_from side l.duplex q) l)
take-IsOrdered side [] l e h = h
take-IsOrdered a (item ∷ rest) l e h =
    (shrunk l.put_for_a l.got_by_a rest item (h.0 ∙ ap (λ q. l.got_by_a ++ q) e), h.1)
take-IsOrdered b (item ∷ rest) l e h =
    (h.0, shrunk l.put_for_b l.got_by_b rest item (h.1 ∙ ap (λ q. l.got_by_b ++ q) e))

step-IsOrdered : (l : Log) (op : Op) → IsOrdered l → IsOrdered (step l op)
step-IsOrdered l (sends side f) h = send-IsOrdered side f l h
step-IsOrdered l (injects side f) h = put-IsOrdered (other side) (some f) l h
step-IsOrdered l (closes side) h = close-IsOrdered side l h
step-IsOrdered l (receives side) h = take-IsOrdered side (inbox side l.duplex) l refl h

run-IsOrdered : (l : Log) (ops : List Op) → IsOrdered l → IsOrdered (run l ops)
run-IsOrdered l [] h = h
run-IsOrdered l (op ∷ ops) h = run-IsOrdered (step l op) ops (step-IsOrdered l op h)

-- In any order of sends, injections, closes and reads by the two endpoints of a new channel, each reader
-- has taken, in their order and without a gap, the first of the items that were written for it, and
-- the rest of them is waiting in its queue.
pub items_arrive_in_order :
    (ops : List Op)
    → let l = run start ops in
      (l.put_for_a ≡ l.got_by_a ++ inbox a l.duplex)
      × (l.put_for_b ≡ l.got_by_b ++ inbox b l.duplex)
items_arrive_in_order ops = run-IsOrdered start ops (refl, refl)

iterate-map : (fs : List Frame) → iterate (map some fs ++ none ∷ []) ≡ (fs, true)
iterate-map [] = refl
iterate-map (f ∷ fs) = ap (λ (m : List Frame × Bool). (f ∷ m.0, m.1)) (iterate-map fs)

inbox-put :
    (side : Side) (item : Option Frame) (d : Duplex)
    → inbox (other side) (put side item d) ≡ inbox (other side) d ++ item ∷ []
inbox-put a item d = refl
inbox-put b item d = refl

is_closed-put :
    (side : Side) (item : Option Frame) (d : Duplex)
    → is_closed side (put side item d) ≡ is_closed side d
is_closed-put a item d = refl
is_closed-put b item d = refl

-- the channel after frames have been sent by one side that is not closed
abbrev Holds : Side → Duplex → List Frame → Duplex → Type 0
Holds side d fs d' =
    (inbox (other side) d' ≡ inbox (other side) d ++ map some fs) × (is_closed side d' ≡ false)

send_all-Holds :
    (side : Side) (fs : List Frame) (d : Duplex)
    → is_closed side d ≡ false
    → (d' : Duplex) × (send_all side fs d ≡ some d') × Holds side d fs d'
send_all-Holds side [] d on = (d, refl, (sym (append-nil (inbox (other side) d)), on))
send_all-Holds side (f ∷ fs) d on =
    let e = put side (some f) d in
    let first : send side f d ≡ some e = rw on refl in
    let (d', g, h) = send_all-Holds side fs e (is_closed-put side (some f) d ∙ on) in
    (
      d',
      ap (then_send (send_all side fs)) first ∙ g,
      (
        h.0
            ∙ ap (λ q. q ++ map some fs) (inbox-put side (some f) d)
            ∙ append_assoc (inbox (other side) d) (some f ∷ []) (map some fs),
        h.1,
      ),
    )

inbox-close :
    (side : Side) (d : Duplex)
    → is_closed side d ≡ false
    → (inbox (other side) (close side d) ≡ inbox (other side) d ++ none ∷ [])
      × (is_closed side (close side d) ≡ true)
inbox-close a d on = rw on (refl, refl)
inbox-close b d on = rw on (refl, refl)

inbox-create_pair : (side : Side) → inbox side create_pair ≡ []
inbox-create_pair a = refl
inbox-create_pair b = refl

is_closed-create_pair : (side : Side) → is_closed side create_pair ≡ false
is_closed-create_pair a = refl
is_closed-create_pair b = refl

-- Frames that one side of a new channel sends before it closes are all accepted, and the iteration of
-- the other side yields exactly these frames, in their order, and ends. After the close every further
-- send raises.
pub closed_stream_is_read :
    (side : Side) (fs : List Frame)
    → (d : Duplex) × (send_all side fs create_pair ≡ some d)
      × (iterate (inbox (other side) (close side d)) ≡ (fs, true))
      × ((f : Frame) → send side f (close side d) ≡ none)
closed_stream_is_read side fs =
    let (d, e, h) = send_all-Holds side fs create_pair (is_closed-create_pair side) in
    let c = inbox-close side d h.1 in
    let held : inbox (other side) (close side d) ≡ map some fs ++ none ∷ [] =
      c.0
      ∙ ap (λ q. q ++ none ∷ [])
          (h.0 ∙ ap (λ q. q ++ map some fs) (inbox-create_pair (other side))) in
    (d, e, ap iterate held ∙ iterate-map fs, λ f. rw c.1 refl)
