-- ===== src/Runtime/Cancellation.antt =====
-- How a cancelled run ends, whatever the schedule.
use runtime_assistant_agent.Base.{
  ℕ, String, true, ◌≡◌, refl, Option, none, some, List, [], ◌∷◌, ◌++◌, arith, ◌==◌, get_elem?,
  get_elem?-modify, get_elem?-append_old, modify, given, Option-cases, Bool-cases, inl, inr,
  if_intro, nat_beq,
}
use runtime_assistant_agent.Base.Dict.{lookup}
use runtime_assistant_agent.Protocol.{Frame}
use runtime_assistant_agent.Runtime.{
  created, running, ended, Task, Service, Event, receive, start, adapter, Adapter, expects, emits,
  stops, raises, cancel_task, set_phase, interrupt_if_needed, handle_user_message, handle_cancel,
  cancel_target, serve_frame, begin_run, end_run, run_end, run_end_error, adapter_round, on_start,
  on_adapter, step, run, new_task, created_now, running_now, ended_now, Phase-cases,
}

-- What a later state of a task keeps: who it is, that it was cancelled, and that it is over.
abbrev pub Follows : Task → Option Task → Type 0
Follows t none = ⊥
Follows t (some u) =
    (u.session_id ≡ t.session_id)
    × (u.run_id ≡ t.run_id)
    × (t.cancelled ≡ true → u.cancelled ≡ true)
    × (t.phase ≡ ended → u.phase ≡ ended)

Follows-refl : (t : Task) (o : Option Task) → o ≡ some t → Follows t o
Follows-refl t o e = rw e (refl, refl, λ c. c, λ d. d)

Follows-modify :
    (ts : List Task) (k j : ℕ) (f : Task → Task) (t : Task)
    → get_elem? ts j ≡ some t
    → (k ≡ j → Follows t (some (f t)))
    → Follows t (get_elem? (modify ts k f) j)
Follows-modify ts k j f t e h = elim (Bool-cases (nat_beq k j)) [
  | inl same ↦ rw (get_elem?-modify, same, e) (h (ground arith))
  | inr differs ↦ rw (get_elem?-modify, differs) (Follows-refl t (get_elem? ts j) e)
]

Follows-append :
    (ts : List Task) (u : Task) (j : ℕ) (t : Task)
    → Follows t (get_elem? ts j)
    → Follows t (get_elem? (ts ++ u ∷ []) j)
Follows-append ts u j t h = elim (Option-cases (get_elem? ts j)) [
  | inl n ↦ absurd (rw n at h)
  | inr (v, e) ↦ rw (get_elem?-append_old ts u j e) (rw e at h)
]

cancel-Follows : (t : Task) → Follows t (some (cancel_task t))
cancel-Follows t = (refl, refl, λ c. refl, λ d. d)

module _ (j : ℕ) (t : Task) where
  -- task `j` of the new state follows `t`
  abbrev FollowedBy : Service → Type 0
  FollowedBy s = Follows t (get_elem? s.tasks j)

  interrupt-Follows :
      (sid : String) (s : Service)
      → get_elem? s.tasks j ≡ some t
      → FollowedBy (interrupt_if_needed sid s)
  unfolding interrupt_if_needed
  interrupt-Follows sid s e = elim (Option-cases (lookup sid s.active_by_session)) [
    | inl n ↦ rw n (Follows-refl t (get_elem? s.tasks j) e)
    | inr (cur, n) ↦
        rw n (Follows-modify s.tasks cur.cancel j cancel_task t e (λ _. cancel-Follows t))
  ]

  serve-Follows :
      (f : Frame) (x y : String) (s : Service)
      → get_elem? s.tasks j ≡ some t
      → FollowedBy (serve_frame f x y s)
  unfolding serve_frame
  serve-Follows f x y s e = if_intro FollowedBy (f.type == "message.user") message (
      if_intro FollowedBy (f.type == "run.cancel") cancelled
        (if_intro FollowedBy (f.type == "ping") same same))
    where
      same : FollowedBy s
      same = Follows-refl t (get_elem? s.tasks j) e

      message : FollowedBy (handle_user_message f x y s)
      message = elim (Option-cases (given f.session_id)) [
        | inl n ↦ rw (n, handle_user_message) same
        | inr (sid, n) ↦
            rw (n, handle_user_message)
              (Follows-append (interrupt_if_needed sid s).tasks (new_task sid f x y s) j t
                (interrupt-Follows sid s e))
      ]

      cancelled : FollowedBy (handle_cancel f s)
      cancelled = elim (Option-cases (cancel_target f s)) [
        | inl n ↦ rw (n, handle_cancel) same
        | inr (cur, n) ↦
            rw (n, handle_cancel)
              (Follows-modify s.tasks cur.cancel j cancel_task t e (λ _. cancel-Follows t))
      ]

  begin-Follows :
      (k : ℕ) (u : Task) (s : Service)
      → get_elem? s.tasks k ≡ some u
      → u.phase ≡ created
      → get_elem? s.tasks j ≡ some t
      → FollowedBy (begin_run k u s)
  unfolding begin_run
  begin-Follows k u s ek c e =
      Follows-modify s.tasks k j (set_phase running) t e
        (λ p. (refl, refl, λ z. z, λ d. ground arith))

  end-Follows :
      (k : ℕ) (u : Task) (f : Frame) (s : Service)
      → get_elem? s.tasks j ≡ some t
      → FollowedBy (end_run k u f s)
  unfolding end_run
  end-Follows k u f s e =
      Follows-modify s.tasks k j (set_phase ended) t e (λ p. (refl, refl, λ z. z, λ d. refl))

  round-Follows :
      (k : ℕ) (u : Task) (a : Adapter) (s : Service)
      → get_elem? s.tasks j ≡ some t
      → FollowedBy (adapter_round k u a s)
  unfolding adapter_round
  round-Follows k u (raises m) s e = end-Follows k u (run_end_error m u) s e
  round-Follows k u stops s e =
      if_intro FollowedBy u.cancelled (end-Follows k u (run_end "cancelled" true u) s e)
        (end-Follows k u (run_end "completed" u.expects_reply u) s e)
  round-Follows k u (expects b) s e =
      if_intro FollowedBy u.cancelled (end-Follows k u (run_end "cancelled" true u) s e) (
        Follows-modify s.tasks k j (λ v. record v { expects_reply = b }) t e
          (λ p. (refl, refl, λ z. z, λ d. d)))
  round-Follows k u (emits type payload) s e =
      if_intro FollowedBy u.cancelled (end-Follows k u (run_end "cancelled" true u) s e)
        (Follows-refl t (get_elem? s.tasks j) e)

  start-Follows :
      (k : ℕ) (o : Option Task) (s : Service)
      → get_elem? s.tasks k ≡ o
      → get_elem? s.tasks j ≡ some t
      → FollowedBy (on_start k o s)
  unfolding on_start
  start-Follows k none s ek e = Follows-refl t (get_elem? s.tasks j) e
  start-Follows k (some u) s ek e = elim (Phase-cases u.phase) [
    | created_now c ↦ rw (c, on_start) (begin-Follows k u s ek c e)
    | running_now r ↦ rw (r, on_start) (Follows-refl t (get_elem? s.tasks j) e)
    | ended_now d ↦ rw (d, on_start) (Follows-refl t (get_elem? s.tasks j) e)
  ]

  adapter-Follows :
      (k : ℕ) (a : Adapter) (o : Option Task) (s : Service)
      → get_elem? s.tasks j ≡ some t
      → FollowedBy (on_adapter k a o s)
  unfolding on_adapter
  adapter-Follows k a none s e = Follows-refl t (get_elem? s.tasks j) e
  adapter-Follows k a (some u) s e = elim (Phase-cases u.phase) [
    | created_now c ↦ rw (c, on_adapter) (Follows-refl t (get_elem? s.tasks j) e)
    | running_now r ↦ rw (r, on_adapter) (round-Follows k u a s e)
    | ended_now d ↦ rw (d, on_adapter) (Follows-refl t (get_elem? s.tasks j) e)
  ]

  step-Follows : (s : Service) (e : Event) → get_elem? s.tasks j ≡ some t → FollowedBy (step s e)
  unfolding step
  step-Follows s (receive f x y) e = serve-Follows f x y s e
  step-Follows s (start k) e = start-Follows k (get_elem? s.tasks k) s refl e
  step-Follows s (adapter k a) e = adapter-Follows k a (get_elem? s.tasks k) s e

Follows-trans :
    (t : Task) (o o' : Option Task) {u : Task}
    → Follows t o
    → o ≡ some u
    → Follows u o'
    → Follows t o'
Follows-trans t none o' h e g = absurd h
Follows-trans t (some v) none h e g = g
Follows-trans t (some v) (some w) h e g = ground arith

-- Whatever happens later, a task stays who it is; once cancelled it stays cancelled, and once over it
-- stays over.
pub tasks_follow :
    (es : List Event) (s : Service) (k : ℕ) (t : Task)
    → get_elem? s.tasks k ≡ some t
    → Follows t (get_elem? (run s es).tasks k)
unfolding run
tasks_follow [] s k t e = Follows-refl t (get_elem? s.tasks k) e
tasks_follow (x ∷ es) s k t e = elim (Option-cases (get_elem? (step s x).tasks k)) [
  | inl n ↦ absurd (rw n at (step-Follows k t s x e))
  | inr (u, n) ↦
      Follows-trans t (get_elem? (step s x).tasks k) (get_elem? (run (step s x) es).tasks k)
        (step-Follows k t s x e) n (tasks_follow es (step s x) k u n)
]

-- the single frame with which a cancelled run answers its adapter
abbrev pub last_frame : Adapter → Task → Frame
last_frame (raises m) t = run_end_error m t
last_frame _ t = run_end "cancelled" true t

on_adapter-running :
    (k : ℕ) (t : Task) (a : Adapter) (s : Service)
    → t.phase ≡ running
    → on_adapter k a (some t) s ≡ adapter_round k t a s
unfolding on_adapter
on_adapter-running k t a s r = simp r

round_cancelled :
    (k : ℕ) (t : Task) (a : Adapter) (s : Service)
    → t.cancelled ≡ true
    → (adapter_round k t a s).sent ≡ s.sent ++ last_frame a t ∷ []
unfolding adapter_round
round_cancelled k t (raises m) s c = refl
round_cancelled k t stops s c = rw c
round_cancelled k t (expects b) s c = rw c
round_cancelled k t (emits x p) s c = rw c

-- Take a run that is under way and cancelled. However the schedule goes on, if it is still under way
-- then whatever its adapter does next makes the runtime send one last frame for it: a `run.end` with
-- the reason `error` after an exception and `cancelled` otherwise, never `completed`, and no adapter
-- event.
pub cancelled_run_never_completes :
    (es : List Event) (s : Service) (k : ℕ) (t u : Task) (a : Adapter)
    → get_elem? s.tasks k ≡ some t
    → t.cancelled ≡ true
    → get_elem? (run s es).tasks k ≡ some u
    → u.phase ≡ running
    → (step (run s es) (adapter k a)).sent ≡ (run s es).sent ++ last_frame a u ∷ []
unfolding step
cancelled_run_never_completes es s k t u a e c e' r =
    rw (e', on_adapter-running k u a (run s es) r)
      (round_cancelled k u a (run s es)
        (let h : Follows t (some u) = rw e' at (tasks_follow es s k t e) in h.2 c))
