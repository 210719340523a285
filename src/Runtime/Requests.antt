-- ===== src/Runtime/Requests.antt =====
-- What a `run.cancel` frame reaches, and how it is answered when it reaches nothing.
use runtime_assistant_agent.Base.{
  ℕ, ◌+◌, String, ◌≡◌, ◌≢◌, refl, ◌∙◌, Option, none, some, [], ◌∷◌, ◌++◌, arith, eq_iff, eq_refl,
  get_elem?, get_elem?-modify, inl, inr, if◌then◌else◌, nat_beq, apply_some, ◌⊎◌,
}
use runtime_assistant_agent.Base.Dict.{lookup}
use runtime_assistant_agent.Protocol.{Frame}
use runtime_assistant_agent.Runtime.{
  ActiveRun, Service, receive, cancel_task, handle_cancel, cancel_target, cancel_run, run_not_found,
  only_if_fits, serve_frame, step, send,
}

serve-run_cancel :
    (f : Frame) (x y : String) (s : Service)
    → f.type ≡ "run.cancel"
    → serve_frame f x y s ≡ handle_cancel f s
unfolding serve_frame
serve-run_cancel f x y s h = simp h

handle_cancel-some :
    (f : Frame) (s : Service) (cur : ActiveRun)
    → cancel_target f s ≡ some cur
    → handle_cancel f s ≡ cancel_run cur s
unfolding handle_cancel
handle_cancel-some f s cur h = rw (h, handle_cancel)

handle_cancel-none :
    (f : Frame) (s : Service)
    → cancel_target f s ≡ none
    → handle_cancel f s ≡ send (run_not_found f) s
unfolding handle_cancel
handle_cancel-none f s h = rw (h, handle_cancel)

cancel_target-session :
    (f : Frame) (s : Service) (sid : String)
    → f.session_id ≡ some sid
    → sid ≢ ""
    → cancel_target f s ≡ only_if_fits f.run_id (lookup sid s.active_by_session)
unfolding cancel_target
cancel_target-session f s sid e ne = ground (arith, eq_iff sid "")

only_if_fits-some :
    (o : Option String) (cur : ActiveRun)
    → (o ≡ none) ⊎ (o ≡ some cur.run_id)
    → only_if_fits o (some cur) ≡ some cur
only_if_fits-some o cur (inl e) = rw e
only_if_fits-some o cur (inr e) = rw (e, eq_refl)

only_if_fits-none :
    (rid : String) (o : Option ActiveRun)
    → ((cur : ActiveRun) → o ≡ some cur → cur.run_id ≢ rid)
    → only_if_fits (some rid) o ≡ none
only_if_fits-none rid none other = refl
only_if_fits-none rid (some cur) other = ground (arith, eq_iff cur.run_id rid, other cur refl)

-- A `run.cancel` frame that gives a session with an active run, and no run or that run, sets the
-- token of that run and changes no other task, is counted once, and is not answered.
pub cancel_reaches_run :
    (f : Frame) (x y : String) (s : Service) (sid : String) (cur : ActiveRun)
    → f.type ≡ "run.cancel"
    → f.session_id ≡ some sid
    → sid ≢ ""
    → lookup sid s.active_by_session ≡ some cur
    → (f.run_id ≡ none) ⊎ (f.run_id ≡ some cur.run_id)
    → ((j : ℕ)
        → get_elem? (step s (receive f x y)).tasks j ≡ (
            if nat_beq cur.cancel j
            then apply_some cancel_task (get_elem? s.tasks j)
            else get_elem? s.tasks j))
      × ((step s (receive f x y)).cancelled_total ≡ s.cancelled_total + 1)
      × ((step s (receive f x y)).sent ≡ s.sent)
unfolding step
cancel_reaches_run f x y s sid cur ty e ne l r =
    let p : serve_frame f x y s ≡ cancel_run cur s =
      serve-run_cancel f x y s ty
      ∙ handle_cancel-some f s cur
          (cancel_target-session f s sid e ne ∙ (rw l (only_if_fits-some f.run_id cur r))) in
    rw p (unfold cancel_run in (λ j. get_elem?-modify s.tasks cur.cancel j cancel_task, refl, refl))

-- A `run.cancel` frame that gives a session whose active run is another one, or that has none, leaves
-- every task alone and is answered by a `run_not_found` error.
pub cancel_misses :
    (f : Frame) (x y : String) (s : Service) (sid rid : String)
    → f.type ≡ "run.cancel"
    → f.session_id ≡ some sid
    → sid ≢ ""
    → f.run_id ≡ some rid
    → ((cur : ActiveRun) → lookup sid s.active_by_session ≡ some cur → cur.run_id ≢ rid)
    → step s (receive f x y) ≡ record s { sent = s.sent ++ run_not_found f ∷ [] }
unfolding step
cancel_misses f x y s sid rid ty e ne r other =
    serve-run_cancel f x y s ty
    ∙ handle_cancel-none f s (
        cancel_target-session f s sid e ne
        ∙ simp r (only_if_fits-none rid (lookup sid s.active_by_session) other))
    ∙ (unfold send in refl)
