-- ===== src/Runtime/Messages.antt =====
-- A user's message: the history of its session, the run that it interrupts and the run that it
-- starts.
use runtime_assistant_agent.Base.{
  ℕ, suc, ◌+◌, String, ◌≡◌, ◌≢◌, refl, sym, ap, ◌∙◌, Option, none, some, List, [], ◌∷◌, ◌++◌, arith,
  ◌==◌, eq_iff, get_elem?, get_elem?-modify, get_elem?-append, get_elem?-append_old, length-append,
  modify, given, get_or, length, Option-cases, Bool-cases, inl, inr, if◌then◌else◌, eq_refl,
}
use mathlib.Core.List.{append-nil, append_assoc}
use runtime_assistant_agent.Base.Dict.{lookup, insert, lookup-insert}
use runtime_assistant_agent.Protocol.{Frame}
use runtime_assistant_agent.Runtime.{
  ActiveRun, created, running, Task, Service, Event, receive, start, adapter, Adapter, expects,
  cancel_task, set_phase, interrupt_if_needed, accept_message, handle_user_message, handle_cancel,
  cancel_run, serve_frame, extended, user_text_of, begin_run, on_start, on_adapter, step, run,
  new_task,
}

-- what a message adds to the history of a session
abbrev message_text : String → Frame → Option String → List String
message_text sid f none = []
message_text sid f (some named) = if named == sid then user_text_of f ∷ [] else []

-- the texts of a schedule's messages to one session, in order of arrival
abbrev text_for : String → Frame → List String
text_for sid f = if f.type == "message.user" then message_text sid f (given f.session_id) else []

abbrev pub texts_for : String → List Event → List String
texts_for sid [] = []
texts_for sid (receive f x y ∷ es) = text_for sid f ++ texts_for sid es
texts_for sid (start k ∷ es) = texts_for sid es
texts_for sid (adapter k a ∷ es) = texts_for sid es

abbrev pub history_of : String → Service → List String
history_of sid s = get_or (lookup sid s.history_by_session) []

-- the part of the state that an interrupt leaves alone
history-interrupt :
    (sid : String) (s : Service)
    → (interrupt_if_needed sid s).history_by_session ≡ s.history_by_session
unfolding interrupt_if_needed
history-interrupt sid s = ground arith

history-accept :
    (named sid : String) (f : Frame) (x y : String) (s : Service)
    → history_of sid (accept_message named f x y s)
      ≡ (if named == sid then history_of sid s ++ user_text_of f ∷ [] else history_of sid s)
unfolding accept_message
history-accept named sid f x y s =
    rw (history-interrupt named s, lookup-insert) (ground (arith, eq_iff named sid))

history-message :
    (sid : String) (f : Frame) (x y : String) (s : Service)
    → history_of sid (handle_user_message f x y s)
      ≡ history_of sid s ++ message_text sid f (given f.session_id)
unfolding handle_user_message
history-message sid f x y s = elim (Option-cases (given f.session_id)) [
  | inl n ↦ rw (n, handle_user_message) (sym (append-nil (history_of sid s)))
  | inr (named, n) ↦
      rw (n, handle_user_message)
        (ground (arith, history-accept named sid f x y s, append-nil (history_of sid s)))
]

history-cancel :
    (f : Frame) (s : Service) → (handle_cancel f s).history_by_session ≡ s.history_by_session
unfolding handle_cancel
history-cancel f s = ground arith

-- `history_of sid s` with what one frame adds to it
history-serve :
    (sid : String) (f : Frame) (x y : String) (s : Service)
    → history_of sid (serve_frame f x y s) ≡ history_of sid s ++ text_for sid f
unfolding serve_frame
history-serve sid f x y s = elim (Bool-cases (f.type == "message.user")) [
  | inl m ↦ rw (m, serve_frame) (history-message sid f x y s)
  | inr m ↦ ground (arith, history-cancel f s, append-nil (history_of sid s))
]

history-start :
    (k : ℕ) (o : Option Task) (s : Service)
    → (on_start k o s).history_by_session ≡ s.history_by_session
unfolding on_start
history-start k o s = ground arith

history-adapter :
    (k : ℕ) (a : Adapter) (o : Option Task) (s : Service)
    → (on_adapter k a o s).history_by_session ≡ s.history_by_session
unfolding on_adapter
history-adapter k (expects b) o s = ground arith
history-adapter k _ o s = ground arith

-- The history of every session is, after any schedule, what it was before with the texts of the
-- messages to that session behind it, in order of arrival: no run, cancelled or not, and no other
-- session changes it.
pub history_is_messages :
    (es : List Event) (s : Service) (sid : String)
    → history_of sid (run s es) ≡ history_of sid s ++ texts_for sid es
unfolding run step
history_is_messages [] s sid = sym (append-nil (history_of sid s))
history_is_messages (receive f x y ∷ es) s sid =
    history_is_messages es (serve_frame f x y s) sid
    ∙ ap (λ h. h ++ texts_for sid es) (history-serve sid f x y s)
    ∙ append_assoc (history_of sid s) (text_for sid f) (texts_for sid es)
history_is_messages (start k ∷ es) s sid =
    history_is_messages es (on_start k (get_elem? s.tasks k) s) sid
    ∙ ap (λ h. get_or (lookup sid h) [] ++ texts_for sid es)
        (history-start k (get_elem? s.tasks k) s)
history_is_messages (adapter k a ∷ es) s sid =
    history_is_messages es (on_adapter k a (get_elem? s.tasks k) s) sid
    ∙ ap (λ h. get_or (lookup sid h) [] ++ texts_for sid es)
        (history-adapter k a (get_elem? s.tasks k) s)

step-message :
    (f : Frame) (x y sid : String) (s : Service)
    → f.type ≡ "message.user"
    → f.session_id ≡ some sid
    → sid ≢ ""
    → step s (receive f x y) ≡ accept_message sid f x y s
unfolding step serve_frame handle_user_message
step-message f x y sid s ty e ne = ground (arith, eq_iff sid "", eq_iff f.type "message.user")

interrupt-some :
    (sid : String) (s : Service) (cur : ActiveRun)
    → lookup sid s.active_by_session ≡ some cur
    → interrupt_if_needed sid s ≡ cancel_run cur s
unfolding interrupt_if_needed
interrupt-some sid s cur l = rw l

interrupt-none :
    (sid : String) (s : Service)
    → lookup sid s.active_by_session ≡ none
    → interrupt_if_needed sid s ≡ s
unfolding interrupt_if_needed
interrupt-none sid s l = rw l

-- A message to a session with an active run cancels that run and appends one task, which has not
-- begun, is not cancelled and has the session's history with the new text; no other task changes,
-- the table of active runs stays as it was, and nothing is sent.
pub message_interrupts :
    (f : Frame) (x y sid : String) (s : Service) (cur : ActiveRun)
    → f.type ≡ "message.user"
    → f.session_id ≡ some sid
    → sid ≢ ""
    → lookup sid s.active_by_session ≡ some cur
    → let s' = step s (receive f x y) in
      (s'.tasks ≡ modify s.tasks cur.cancel cancel_task ++ new_task sid f x y s ∷ [])
      × (s'.active_by_session ≡ s.active_by_session)
      × (s'.cancelled_total ≡ s.cancelled_total + 1)
      × (s'.sent ≡ s.sent)
message_interrupts f x y sid s cur ty e ne l =
    rw (step-message f x y sid s ty e ne)
      (unfold accept_message in rw (interrupt-some sid s cur l) (refl, refl, refl, refl))

-- the state after a message to a session that has no active run
abbrev accepted : String → Frame → String → String → Service → Service
accepted sid f x y s = record s {
  history_by_session = insert sid (extended sid (user_text_of f) s) s.history_by_session;
  tasks = s.tasks ++ new_task sid f x y s ∷ [];
}

accept-free :
    (sid : String) (f : Frame) (x y : String) (s : Service)
    → lookup sid s.active_by_session ≡ none
    → accept_message sid f x y s ≡ accepted sid f x y s
unfolding accept_message
accept-free sid f x y s l = rw (interrupt-none sid s l)

start-created :
    (k : ℕ) (t : Task) (s : Service)
    → get_elem? s.tasks k ≡ some t
    → t.phase ≡ created
    → step s (start k) ≡ begin_run k t s
unfolding step on_start
start-created k t s e c = rw e (simp c)

get_elem?-last : (ts : List Task) (t : Task) → get_elem? (ts ++ t ∷ []) (length ts) ≡ some t
get_elem?-last ts t = rw get_elem?-append (ground arith)

-- Two tasks begun in a row, in the state that they leave behind.
module _ (k : ℕ) (t u : Task) (s : Service) where
  begin_both :
      get_elem? s.tasks k ≡ some t
      → get_elem? s.tasks (suc k) ≡ some u
      → t.phase ≡ created
      → u.phase ≡ created
      → step (step s (start k)) (start (suc k)) ≡ begin_run (suc k) u (begin_run k t s)
  begin_both et eu ct cu = rw (start-created k t s et ct) (
      start-created (suc k) u (begin_run k t s)
        (unfold begin_run in rw get_elem?-modify (ground arith)) cu)

  begun_tasks :
      get_elem? s.tasks k ≡ some t
      → get_elem? s.tasks (suc k) ≡ some u
      → let s' = begin_run (suc k) u (begin_run k t s) in
        (get_elem? s'.tasks k ≡ some (set_phase running t))
        × (get_elem? s'.tasks (suc k) ≡ some (set_phase running u))
        × (lookup u.session_id s'.active_by_session
            ≡ some (record { run_id = u.run_id; turn_id = u.turn_id; cancel = suc k }))
  unfolding begin_run
  begun_tasks et eu = (
    rw (get_elem?-modify, get_elem?-modify, et) (ground arith),
    rw (get_elem?-modify, get_elem?-modify, eu) (ground arith),
    rw (lookup-insert, eq_refl),
  )

module _ (f g : Frame) (x y x' y' sid : String) (s : Service) where
  abbrev first_task : Task
  first_task = new_task sid f x y s

  abbrev second_task : Task
  second_task = new_task sid g x' y' (accepted sid f x y s)

  abbrev both_accepted : Service
  both_accepted = accepted sid g x' y' (accepted sid f x y s)

  both_messages :
      f.type ≡ "message.user"
      → g.type ≡ "message.user"
      → f.session_id ≡ some sid
      → g.session_id ≡ some sid
      → sid ≢ ""
      → lookup sid s.active_by_session ≡ none
      → step (step s (receive f x y)) (receive g x' y') ≡ both_accepted
  both_messages tf tg ef eg ne l =
      rw (step-message f x y sid s tf ef ne, accept-free sid f x y s l)
        (step-message g x' y' sid (accepted sid f x y s) tg eg ne
          ∙ accept-free sid g x' y' (accepted sid f x y s) l)

  -- Where two messages of one session are read before the first one's task has begun, neither
  -- interrupts the other: both runs get under way, the first is not cancelled, and the table of active
  -- runs knows only the second, so that no later message or `run.cancel` of the session reaches the
  -- first.
  pub early_message_does_not_interrupt :
      f.type ≡ "message.user"
      → g.type ≡ "message.user"
      → f.session_id ≡ some sid
      → g.session_id ≡ some sid
      → sid ≢ ""
      → lookup sid s.active_by_session ≡ none
      → let n = length s.tasks in
        let s' = run s (receive f x y ∷ receive g x' y' ∷ start n ∷ start (suc n) ∷ []) in
        (get_elem? s'.tasks n ≡ some (set_phase running first_task))
        × (get_elem? s'.tasks (suc n) ≡ some (set_phase running second_task))
        × (lookup sid s'.active_by_session
            ≡ some (record {
              run_id = second_task.run_id;
              turn_id = second_task.turn_id;
              cancel = suc n;
            }))
  unfolding run
  early_message_does_not_interrupt tf tg ef eg ne l =
      rw
        (
          both_messages tf tg ef eg ne l,
          begin_both n first_task second_task both_accepted e1 e2 refl refl,
        )
        (begun_tasks n first_task second_task both_accepted e1 e2)
    where
      n : ℕ
      n = length s.tasks

      e1 : get_elem? both_accepted.tasks n ≡ some first_task
      e1 =
          get_elem?-append_old (s.tasks ++ first_task ∷ []) second_task n
            (get_elem?-last s.tasks first_task)

      e2 : get_elem? both_accepted.tasks (suc n) ≡ some second_task
      e2 =
          let p : length (s.tasks ++ first_task ∷ []) ≡ suc n =
            omega (arith, length-append s.tasks (first_task ∷ [])) in
          rw p at (get_elem?-last (s.tasks ++ first_task ∷ []) second_task)
