-- ===== src/Runtime/Registration.antt =====
-- The table `_active_by_session` against the tasks: an entry is a run that is under way.
use runtime_assistant_agent.Base.{
  ℕ, String, Bool, true, false, nat_beq, apply_some, Bool-cases, ◌==◌, ◌≡◌, ◌≢◌, zero, suc,
  count_if, refl, if_intro, subst, Option, none, some, List, [], ◌∷◌, ◌++◌, arith, eq_iff,
  get_elem?, modify, get_elem?-modify, get_elem?-append_old, given, Option-cases, inl, inr,
}
use runtime_assistant_agent.Base.Dict.{Dict, lookup, lookup-insert, lookup-remove}
use runtime_assistant_agent.Protocol.{Frame}
use runtime_assistant_agent.Runtime.{
  ActiveRun, created, running, ended, Task, Service, Event, receive, start, adapter, Adapter,
  expects, emits, stops, raises, init, cancel_task, set_phase, free_session, interrupt_if_needed,
  accept_message, handle_user_message, handle_cancel, cancel_target, serve_frame, begin_run,
  end_run, run_end, run_end_error, adapter_round, on_start, on_adapter, step, run, new_task,
}

-- what the task behind an entry has to be
abbrev pub Backs : String → ActiveRun → Option Task → Type 0
Backs sid a none = ⊥
Backs sid a (some t) = (t.phase ≡ running) × (t.session_id ≡ sid) × (t.run_id ≡ a.run_id)

pub record Backed (d : Dict ActiveRun) (ts : List Task) : Type 0 where
  pub at :
      (sid : String) (a : ActiveRun) → lookup sid d ≡ some a → Backs sid a (get_elem? ts a.cancel)

abbrev pub Registered : Service → Type 0
Registered s = Backed s.active_by_session s.tasks

-- A change that leaves a task under way, of the same session and run.
abbrev KeepsRunning : (Task → Task) → Type 0
KeepsRunning f =
    (t : Task)
    → t.phase ≡ running
    → ((f t).phase ≡ running) × ((f t).session_id ≡ t.session_id) × ((f t).run_id ≡ t.run_id)

Backs-apply :
    (sid : String) (a : ActiveRun) (o : Option Task) (f : Task → Task)
    → KeepsRunning f
    → Backs sid a o
    → Backs sid a (apply_some f o)
Backs-apply sid a none f keep h = h
Backs-apply sid a (some t) f keep h = ground (arith, keep t)

Backs-modify :
    (sid : String) (a : ActiveRun) (ts : List Task) (k : ℕ) (f : Task → Task)
    → KeepsRunning f
    → Backs sid a (get_elem? ts a.cancel)
    → Backs sid a (get_elem? (modify ts k f) a.cancel)
Backs-modify sid a ts k f keep h = rw get_elem?-modify (
    if_intro (Backs sid a) (nat_beq k a.cancel) (Backs-apply sid a (get_elem? ts a.cancel) f keep h)
      h)

Backed-modify :
    (d : Dict ActiveRun) (ts : List Task) (k : ℕ) (f : Task → Task)
    → KeepsRunning f
    → Backed d ts
    → Backed d (modify ts k f)
Backed-modify d ts k f keep h = record {
  at = λ sid a e. Backs-modify sid a ts k f keep (h.at sid a e);
}

cancel-KeepsRunning : KeepsRunning cancel_task
cancel-KeepsRunning t r = (r, refl, refl)

Backs-append :
    (sid : String) (a : ActiveRun) (ts : List Task) (t : Task)
    → Backs sid a (get_elem? ts a.cancel)
    → Backs sid a (get_elem? (ts ++ t ∷ []) a.cancel)
Backs-append sid a ts t h = elim (Option-cases (get_elem? ts a.cancel)) [
  | inl missing ↦ absurd (rw missing at h)
  | inr (u, e) ↦ rw (get_elem?-append_old ts t a.cancel e) (rw e at h)
]

Backed-append :
    (d : Dict ActiveRun) (ts : List Task) (t : Task) → Backed d ts → Backed d (ts ++ t ∷ [])
Backed-append d ts t h = record { at = λ sid a e. Backs-append sid a ts t (h.at sid a e) }

interrupt-Registered :
    (sid : String) (s : Service) → Registered s → Registered (interrupt_if_needed sid s)
unfolding interrupt_if_needed
interrupt-Registered sid s h = elim (Option-cases (lookup sid s.active_by_session)) [
  | inl e ↦ rw e h
  | inr (cur, e) ↦
      rw e (Backed-modify s.active_by_session s.tasks cur.cancel cancel_task cancel-KeepsRunning h)
]

accept-Registered :
    (sid : String) (f : Frame) (x y : String) (s : Service)
    → Registered s
    → Registered (accept_message sid f x y s)
unfolding accept_message
accept-Registered sid f x y s h =
    let s' = interrupt_if_needed sid s in
    Backed-append s'.active_by_session s'.tasks (new_task sid f x y s)
      (interrupt-Registered sid s h)

message-Registered :
    (f : Frame) (x y : String) (s : Service)
    → Registered s
    → Registered (handle_user_message f x y s)
unfolding handle_user_message
message-Registered f x y s h = elim (Option-cases (given f.session_id)) [
  | inl e ↦ rw (e, handle_user_message) h
  | inr (sid, e) ↦ rw (e, handle_user_message) (accept-Registered sid f x y s h)
]

cancel-Registered : (f : Frame) (s : Service) → Registered s → Registered (handle_cancel f s)
unfolding handle_cancel
cancel-Registered f s h = elim (Option-cases (cancel_target f s)) [
  | inl e ↦ rw (e, handle_cancel) h
  | inr (cur, e) ↦
      rw (e, handle_cancel)
        (Backed-modify s.active_by_session s.tasks cur.cancel cancel_task cancel-KeepsRunning h)
]

serve-Registered :
    (f : Frame) (x y : String) (s : Service) → Registered s → Registered (serve_frame f x y s)
unfolding serve_frame
serve-Registered f x y s h =
    if_intro Registered (f.type == "message.user") (message-Registered f x y s h) (
      if_intro Registered (f.type == "run.cancel") (cancel-Registered f s h)
        (if_intro Registered (f.type == "ping") h h))

begin-Registered :
    (k : ℕ) (t : Task) (s : Service)
    → get_elem? s.tasks k ≡ some t
    → Registered s
    → Registered (begin_run k t s)
unfolding begin_run
begin-Registered k t s e h = record {
  at = λ sid a l. elim (Bool-cases (t.session_id == sid)) [
    | inl same ↦
        let p : cur ≡ a = ground (arith, lookup-insert t.session_id sid cur s.active_by_session) in
        subst
          (λ (b : ActiveRun).
            Backs sid b (get_elem? (modify s.tasks k (set_phase running)) b.cancel))
          p (rw (get_elem?-modify, e) (ground (arith, eq_iff t.session_id sid)))
    | inr other ↦
        Backs-modify sid a s.tasks k (set_phase running) (λ u r. (refl, refl, refl))
          (h.at sid a (ground (arith, lookup-insert t.session_id sid cur s.active_by_session)))
  ];
}
  where
    cur : ActiveRun
    cur = record { run_id = t.run_id; turn_id = t.turn_id; cancel = k }

-- An entry that is left is an old one, and not that of the run that ends.
lookup-free_session :
    (t : Task) (d : Dict ActiveRun) (sid : String) (a : ActiveRun)
    → lookup sid (free_session t d) ≡ some a
    → (lookup sid d ≡ some a) × (t.session_id ≡ sid → t.run_id ≡ a.run_id → ⊥)
unfolding free_session
lookup-free_session t d sid a l =
    ground
      (arith, lookup-remove t.session_id sid d, eq_iff t.session_id sid, eq_iff a.run_id t.run_id)

end-Registered :
    (k : ℕ) (t : Task) (f : Frame) (s : Service)
    → get_elem? s.tasks k ≡ some t
    → Registered s
    → Registered (end_run k t f s)
unfolding end_run
end-Registered k t f s e h = record {
  at = λ sid a l.
      let (old, other) = lookup-free_session t s.active_by_session sid a l in
      other_task sid a (h.at sid a old) other;
}
  where
    other_task :
        (sid : String) (a : ActiveRun)
        → Backs sid a (get_elem? s.tasks a.cancel)
        → (t.session_id ≡ sid → t.run_id ≡ a.run_id → ⊥)
        → Backs sid a (get_elem? (modify s.tasks k (set_phase ended)) a.cancel)
    other_task sid a b other = elim (Bool-cases (nat_beq k a.cancel)) [
      | inl same ↦ absurd (
          let p : k ≡ a.cancel = ground arith in
          let c : Backs sid a (some t) = rw (← p, e) at b in other c.1 c.2)
      | inr differs ↦ rw (get_elem?-modify, differs) b
    ]

round-Registered :
    (k : ℕ) (t : Task) (a : Adapter) (s : Service)
    → get_elem? s.tasks k ≡ some t
    → Registered s
    → Registered (adapter_round k t a s)
unfolding adapter_round
round-Registered k t (raises m) s e h = end-Registered k t (run_end_error m t) s e h
round-Registered k t stops s e h =
    if_intro Registered t.cancelled (end-Registered k t (run_end "cancelled" true t) s e h)
      (end-Registered k t (run_end "completed" t.expects_reply t) s e h)
round-Registered k t (expects b) s e h =
    if_intro Registered t.cancelled (end-Registered k t (run_end "cancelled" true t) s e h) (
      Backed-modify s.active_by_session s.tasks k (λ u. record u { expects_reply = b })
        (λ u r. (r, refl, refl)) h)
round-Registered k t (emits type payload) s e h =
    if_intro Registered t.cancelled (end-Registered k t (run_end "cancelled" true t) s e h) h

start-Registered :
    (k : ℕ) (o : Option Task) (s : Service)
    → get_elem? s.tasks k ≡ o
    → Registered s
    → Registered (on_start k o s)
unfolding on_start
start-Registered k none s e h = h
start-Registered k (some t) s e h =
    elim t.phase
      as (λ p. Registered (elim p [ created ↦ begin_run k t s | running ↦ s | ended ↦ s ])) [
        | created ↦ begin-Registered k t s e h
        | running ↦ h
        | ended ↦ h
      ]

adapter-Registered :
    (k : ℕ) (a : Adapter) (o : Option Task) (s : Service)
    → get_elem? s.tasks k ≡ o
    → Registered s
    → Registered (on_adapter k a o s)
unfolding on_adapter
adapter-Registered k a none s e h = h
adapter-Registered k a (some t) s e h =
    elim t.phase
      as (λ p. Registered (elim p [ created ↦ s | running ↦ adapter_round k t a s | ended ↦ s ])) [
        | created ↦ h
        | running ↦ round-Registered k t a s e h
        | ended ↦ h
      ]

pub step-Registered : (s : Service) (e : Event) → Registered s → Registered (step s e)
unfolding step
step-Registered s (receive f x y) h = serve-Registered f x y s h
step-Registered s (start k) h = start-Registered k (get_elem? s.tasks k) s refl h
step-Registered s (adapter k a) h = adapter-Registered k a (get_elem? s.tasks k) s refl h

pub run-Registered : (es : List Event) (s : Service) → Registered s → Registered (run s es)
unfolding run
run-Registered [] s h = h
run-Registered (e ∷ es) s h = run-Registered es (step s e) (step-Registered s e h)

init-Registered : (user_id : String) → Registered (init user_id)
unfolding init lookup
init-Registered user_id = record { at = λ sid a l. cc }

-- After any schedule of a fresh service, each entry of the table of active runs names a task that
-- is under way, of that session and with that run id.
pub active_runs_are_running :
    (user_id : String) (es : List Event) (sid : String) (a : ActiveRun)
    → lookup sid (run (init user_id) es).active_by_session ≡ some a
    → Backs sid a (get_elem? (run (init user_id) es).tasks a.cancel)
active_runs_are_running user_id es sid a l =
    (run-Registered es (init user_id) (init-Registered user_id)).at sid a l

abbrev pub is_running : Task → Bool
is_running t = elim t.phase [ running ↦ true | created ↦ false | ended ↦ false ]

not_running :
    (ts : List Task) (k : ℕ) {t : Task}
    → count_if is_running ts ≡ 0
    → get_elem? ts k ≡ some t
    → t.phase ≢ running
not_running [] k z e r = cc
not_running (u ∷ ts) zero z e r = ground arith
not_running (u ∷ ts) (suc k) z e r = not_running ts k (ground arith) e r

-- When no task is under way any more, after any schedule, the table of active runs is empty: no run
-- leaks its session.
pub no_session_leaks :
    (user_id : String) (es : List Event) (sid : String)
    → count_if is_running (run (init user_id) es).tasks ≡ 0
    → lookup sid (run (init user_id) es).active_by_session ≡ none
no_session_leaks user_id es sid z = elim (Option-cases (lookup sid s.active_by_session)) [
  | inl e ↦ e
  | inr (a, e) ↦ elim (Option-cases (get_elem? s.tasks a.cancel)) [
    | inl n ↦ absurd (rw n at (active_runs_are_running user_id es sid a e))
    | inr (t, m) ↦
        let b : Backs sid a (some t) = rw m at (active_runs_are_running user_id es sid a e) in
        absurd (not_running s.tasks a.cancel z m b.0)
  ]
]
  where
    s : Service
    s = run (init user_id) es
