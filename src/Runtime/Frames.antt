-- ===== src/Runtime/Frames.antt =====
-- The frames that the runtime sends against the life of its runs.
use runtime_assistant_agent.Base.{
  ℕ, ◌+◌, String, Bool, true, false, ◌≡◌, refl, sym, ◌∙◌, Option, none, some, List, [], ◌∷◌, ◌++◌,
  arith, ◌==◌, get_elem?, modify, count_if, count_if-append, count_if-modify, count_if-modify_same,
  given, Option-cases, inl, inr, All, if_intro,
}
use runtime_assistant_agent.Base.Dict.{lookup}
use runtime_assistant_agent.Protocol.{Frame}
use runtime_assistant_agent.Runtime.{
  created, running, ended, Task, Service, Event, receive, start, adapter, Adapter, expects, emits,
  stops, raises, init, cancel_task, set_phase, interrupt_if_needed, handle_user_message,
  handle_cancel, cancel_target, serve_frame, begin_run, run_frame, end_run, run_end, run_end_error,
  adapter_round, on_start, on_adapter, step, run, send, new_task, created_now, running_now,
  ended_now, Phase-cases,
}

abbrev pub is_end : Frame → Bool
is_end f = f.type == "run.end"

abbrev pub is_start : Frame → Bool
is_start f = f.type == "run.started"

abbrev pub has_ended : Task → Bool
has_ended t = elim t.phase [ ended ↦ true | created ↦ false | running ↦ false ]

abbrev pub has_begun : Task → Bool
has_begun t = elim t.phase [ created ↦ false | running ↦ true | ended ↦ true ]

-- one `run.started` for each run that has begun, one `run.end` for each that is over
pub record Accounted (s : Service) : Type 0 where
  pub ends : count_if is_end s.sent ≡ count_if has_ended s.tasks
  pub starts : count_if is_start s.sent ≡ count_if has_begun s.tasks
  pub counted : s.runs_started_total ≡ count_if has_begun s.tasks

-- An adapter does not speak for the runtime: its own events are neither of these two frames.
abbrev pub Honest : Event → Type 0
Honest (adapter k (emits type payload)) =
    ((type == "run.end") ≡ false) × ((type == "run.started") ≡ false)
Honest _ = Unit

-- a frame of neither kind
send-Accounted :
    (f : Frame) (s : Service)
    → is_end f ≡ false
    → is_start f ≡ false
    → Accounted s
    → Accounted (send f s)
unfolding send
send-Accounted f s x y h =
    ground (arith, count_if-append is_end s.sent (f ∷ []), count_if-append is_start s.sent (f ∷ []))

-- a change of one task that its phase does not show
modify-Accounted :
    (k : ℕ) (f : Task → Task) (n : ℕ) (s : Service)
    → ((t : Task) → (f t).phase ≡ t.phase)
    → Accounted s
    → Accounted (record s { tasks = modify s.tasks k f; cancelled_total = n })
modify-Accounted k f n s keep h =
    let p = count_if-modify_same has_ended s.tasks k f (λ t. rw (keep t)) in
    let q = count_if-modify_same has_begun s.tasks k f (λ t. rw (keep t)) in
    record { ends = h.ends ∙ sym p; starts = h.starts ∙ sym q; counted = h.counted ∙ sym q }

interrupt-Accounted :
    (sid : String) (s : Service) → Accounted s → Accounted (interrupt_if_needed sid s)
unfolding interrupt_if_needed
interrupt-Accounted sid s h = elim (Option-cases (lookup sid s.active_by_session)) [
  | inl e ↦ rw e h
  | inr (cur, e) ↦
      rw e (modify-Accounted cur.cancel cancel_task (s.cancelled_total + 1) s (λ t. refl) h)
]

append-Accounted :
    (t : Task) (s : Service)
    → t.phase ≡ created
    → Accounted s
    → Accounted (record s { tasks = s.tasks ++ t ∷ [] })
append-Accounted t s c h =
    ground (
      arith,
      count_if-append has_ended s.tasks (t ∷ []),
      count_if-append has_begun s.tasks (t ∷ []),
    )

message-Accounted :
    (f : Frame) (x y : String) (s : Service) → Accounted s → Accounted (handle_user_message f x y s)
unfolding handle_user_message
message-Accounted f x y s h = elim (Option-cases (given f.session_id)) [
  | inl e ↦ rw (e, handle_user_message) (send-Accounted _ s refl refl h)
  | inr (sid, e) ↦
      rw (e, handle_user_message)
        (let g =
            append-Accounted (new_task sid f x y s) (interrupt_if_needed sid s) refl
              (interrupt-Accounted sid s h) in
          record { ends = g.ends; starts = g.starts; counted = g.counted })
]

cancel-Accounted : (f : Frame) (s : Service) → Accounted s → Accounted (handle_cancel f s)
unfolding handle_cancel
cancel-Accounted f s h = elim (Option-cases (cancel_target f s)) [
  | inl e ↦ rw (e, handle_cancel) (send-Accounted _ s refl refl h)
  | inr (cur, e) ↦
      rw (e, handle_cancel)
        (modify-Accounted cur.cancel cancel_task (s.cancelled_total + 1) s (λ t. refl) h)
]

serve-Accounted :
    (f : Frame) (x y : String) (s : Service) → Accounted s → Accounted (serve_frame f x y s)
unfolding serve_frame
serve-Accounted f x y s h =
    if_intro Accounted (f.type == "message.user") (message-Accounted f x y s h) (
      if_intro Accounted (f.type == "run.cancel") (cancel-Accounted f s h) (
        if_intro Accounted (f.type == "ping") (send-Accounted _ s refl refl h)
          (send-Accounted _ s refl refl h)))

begin-Accounted :
    (k : ℕ) (t : Task) (s : Service)
    → get_elem? s.tasks k ≡ some t
    → t.phase ≡ created
    → Accounted s
    → Accounted (begin_run k t s)
unfolding begin_run
begin-Accounted k t s e c h = ground (
  arith,
  count_if-append is_end s.sent (run_frame "run.started" t ∷ []),
  count_if-append is_start s.sent (run_frame "run.started" t ∷ []),
  count_if-modify has_ended s.tasks k (set_phase running) e,
  count_if-modify has_begun s.tasks k (set_phase running) e,
)

end-Accounted :
    (k : ℕ) (t : Task) (f : Frame) (s : Service)
    → get_elem? s.tasks k ≡ some t
    → t.phase ≡ running
    → is_end f ≡ true
    → is_start f ≡ false
    → Accounted s
    → Accounted (end_run k t f s)
unfolding end_run
end-Accounted k t f s e r x y h = ground (
  arith,
  count_if-append is_end s.sent (f ∷ []),
  count_if-append is_start s.sent (f ∷ []),
  count_if-modify has_ended s.tasks k (set_phase ended) e,
  count_if-modify has_begun s.tasks k (set_phase ended) e,
)

round-Accounted :
    (k : ℕ) (t : Task) (a : Adapter) (s : Service)
    → get_elem? s.tasks k ≡ some t
    → t.phase ≡ running
    → Honest (adapter k a)
    → Accounted s
    → Accounted (adapter_round k t a s)
unfolding adapter_round
round-Accounted k t (raises m) s e r o h = end-Accounted k t (run_end_error m t) s e r refl refl h
round-Accounted k t stops s e r o h =
    if_intro Accounted t.cancelled
      (end-Accounted k t (run_end "cancelled" true t) s e r refl refl h)
      (end-Accounted k t (run_end "completed" t.expects_reply t) s e r refl refl h)
round-Accounted k t (expects b) s e r o h =
    if_intro Accounted t.cancelled
      (end-Accounted k t (run_end "cancelled" true t) s e r refl refl h)
      (modify-Accounted k (λ u. record u { expects_reply = b }) s.cancelled_total s (λ u. refl) h)
round-Accounted k t (emits type payload) s e r o h =
    if_intro Accounted t.cancelled
      (end-Accounted k t (run_end "cancelled" true t) s e r refl refl h)
      (send-Accounted (record (run_frame type t) { payload = payload }) s o.0 o.1 h)

start-Accounted :
    (k : ℕ) (o : Option Task) (s : Service)
    → get_elem? s.tasks k ≡ o
    → Accounted s
    → Accounted (on_start k o s)
unfolding on_start
start-Accounted k none s e h = h
start-Accounted k (some t) s e h = elim (Phase-cases t.phase) [
  | created_now c ↦ rw (c, on_start) (begin-Accounted k t s e c h)
  | running_now r ↦ rw (r, on_start) h
  | ended_now d ↦ rw (d, on_start) h
]

adapter-Accounted :
    (k : ℕ) (a : Adapter) (o : Option Task) (s : Service)
    → get_elem? s.tasks k ≡ o
    → Honest (adapter k a)
    → Accounted s
    → Accounted (on_adapter k a o s)
unfolding on_adapter
adapter-Accounted k a none s e o h = h
adapter-Accounted k a (some t) s e o h = elim (Phase-cases t.phase) [
  | created_now c ↦ rw (c, on_adapter) h
  | running_now r ↦ rw (r, on_adapter) (round-Accounted k t a s e r o h)
  | ended_now d ↦ rw (d, on_adapter) h
]

step-Accounted : (s : Service) (e : Event) → Honest e → Accounted s → Accounted (step s e)
unfolding step
step-Accounted s (receive f x y) o h = serve-Accounted f x y s h
step-Accounted s (start k) o h = start-Accounted k (get_elem? s.tasks k) s refl h
step-Accounted s (adapter k a) o h = adapter-Accounted k a (get_elem? s.tasks k) s refl o h

pub run-Accounted :
    (es : List Event) (s : Service) → All Honest es → Accounted s → Accounted (run s es)
unfolding run
run-Accounted [] s o h = h
run-Accounted (e ∷ es) s o h = run-Accounted es (step s e) o.1 (step-Accounted s e o.0 h)

-- After any schedule of a fresh service in which the adapter sends no `run.started` and no `run.end`
-- of its own: as many `run.started` frames were sent, and as many starts counted, as runs have
-- begun, and as many `run.end` frames as runs are over.
pub frames_account_for_runs :
    (user_id : String) (es : List Event) → All Honest es → Accounted (run (init user_id) es)
unfolding init
frames_account_for_runs user_id es o =
    run-Accounted es (init user_id) o (record { ends = refl; starts = refl; counted = refl })
