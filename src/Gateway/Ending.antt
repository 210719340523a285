-- ===== src/Gateway/Ending.antt =====
-- What a bridge does when it ends.
use runtime_assistant_agent.Base.{
  String, Bool, true, false, ◌||◌, ◌≡◌, refl, sym, subst, ap, ◌∙◌, none, some, [], ◌∷◌, ◌++◌, arith,
  ◌==◌, eq_refl, if◌then◌else◌, if_intro, given, is_some,
}
use runtime_assistant_agent.Base.Dict.{Dict, lookup, remove, lookup-insert, lookup-remove}
use runtime_assistant_agent.Protocol.{frame, Frame}
use runtime_assistant_agent.Gateway.{
  ClientConn, Gateway, set_conn, Event, opens, client_sends, client_ends, runtime_sends, tears_down,
  on_conn, at_conn, step, run, client_of, track, should_send, send_client, send_runtime, or_else,
  with_user,
}

abbrev is_open : Event → Bool
is_open (opens cid u s) = true
is_open _ = false

-- A step of a bridge that is there.
step-found :
    (v : Bool) (e : Event) (c : ClientConn) (g : Gateway)
    → is_open e ≡ false
    → lookup (client_of e) g.clients ≡ some c
    → step v e g ≡ on_conn v e c g
unfolding step
step-found v (opens cid u s) c g o l = cc
step-found v (client_sends cid f) c g o l = ap (λ k. at_conn v (client_sends cid f) k g) l
step-found v (client_ends cid) c g o l = ap (λ k. at_conn v (client_ends cid) k g) l
step-found v (runtime_sends cid f) c g o l = ap (λ k. at_conn v (runtime_sends cid f) k g) l
step-found v (tears_down cid) c g o l = ap (λ k. at_conn v (tears_down cid) k g) l

lookup-set_conn :
    (cid : String) (c : ClientConn) (g : Gateway) → lookup cid (set_conn cid c g).clients ≡ some c
lookup-set_conn cid c g = rw (lookup-insert, eq_refl) refl

lookup-remove_same : (cid : String) (d : Dict ClientConn) → lookup cid (remove cid d) ≡ none
lookup-remove_same cid d = rw (lookup-remove, eq_refl) refl

-- the two ways in which a bridge is torn down
tear_down-evicted :
    (v : Bool) (cid : String) (c : ClientConn) (g : Gateway)
    → c.evicted ≡ true
    → (c.client_done || c.runtime_done) ≡ true
    → on_conn v (tears_down cid) c g ≡ record g { clients = remove cid g.clients }
tear_down-evicted v cid c g e d = simp (e, d)

tear_down-live :
    (v : Bool) (cid : String) (c : ClientConn) (g : Gateway)
    → c.evicted ≡ false
    → (c.client_done || c.runtime_done) ≡ true
    → is_some (given c.active_run_id) ≡ true
    → on_conn v (tears_down cid) c g
      ≡ send_runtime cid
          (record (frame "run.cancel") {
            run_id = c.active_run_id;
            session_id = c.session_id;
            user_id = c.user_id;
          })
          (record g { clients = remove cid g.clients })
tear_down-live v cid c g e d a = simp (e, d, a)

-- A bridge that was evicted and reads a frame of the runtime it shares drops this frame: the frame goes
-- to no client, and the bridge ends without a cancel for the runtime.
pub evicted_bridge_drops_frame :
    (v : Bool) (cid : String) (f : Frame) (c : ClientConn) (g : Gateway)
    → lookup cid g.clients ≡ some c
    → c.evicted ≡ true
    → c.runtime_done ≡ false
    → let g' = run v (runtime_sends cid f ∷ tears_down cid ∷ []) g in
      (g'.to_client ≡ g.to_client) × (g'.to_runtime ≡ g.to_runtime) × (lookup cid g'.clients ≡ none)
unfolding run
evicted_bridge_drops_frame v cid f c g l e r =
    let c' : ClientConn = record c { runtime_done = true } in
    let g' : Gateway = set_conn cid c' g in
    let first : step v (runtime_sends cid f) g ≡ g' =
      step-found v (runtime_sends cid f) c g refl l ∙ simp (r, e) in
    let second : step v (tears_down cid) g' ≡ record g' { clients = remove cid g'.clients } =
      step-found v (tears_down cid) c' g' refl (lookup-set_conn cid c' g)
      ∙ tear_down-evicted v cid c' g' e (ground arith) in
    let both = ap (step v (tears_down cid)) first ∙ second in
    (
      ap (λ (x : Gateway). x.to_client) both,
      ap (λ (x : Gateway). x.to_runtime) both,
      ap (λ (x : Gateway). lookup cid x.clients) both ∙ lookup-remove_same cid g'.clients,
    )

abbrev started : String → Frame → ClientConn → ClientConn
started run_id f c = record c {
  active_run_id = some run_id;
  session_id = or_else f.session_id c.session_id;
}

track-started :
    (run_id : String) (f : Frame) (c : ClientConn)
    → f.type ≡ "run.started"
    → f.run_id ≡ some run_id
    → track f c ≡ started run_id f c
track-started run_id f c t i = simp (t, i)

-- The bridge has taken notice of a frame and has sent the runtime nothing.
abbrev IsTracked : String → Frame → ClientConn → Gateway → Gateway → Type 0
IsTracked cid f c g x = (x.to_runtime ≡ g.to_runtime) × (lookup cid x.clients ≡ some (track f c))

live_frame-IsTracked :
    (v : Bool) (cid : String) (f : Frame) (c : ClientConn) (g : Gateway)
    → c.runtime_done ≡ false
    → c.evicted ≡ false
    → IsTracked cid f c g (on_conn v (runtime_sends cid f) c g)
live_frame-IsTracked v cid f c g r e =
    let g' : Gateway = set_conn cid (track f c) g in
    let taken : on_conn v (runtime_sends cid f) c g
        ≡ (if should_send v f then send_client cid (with_user c.user_id f) g' else g') =
      simp (r, e) in
    let tracked = lookup-set_conn cid (track f c) g in
    subst (IsTracked cid f c g) (sym taken)
      (if_intro (IsTracked cid f c g) (should_send v f) (refl, tracked) (refl, tracked))

-- A bridge that is not evicted, has read that a run was started and then loses its client cancels this
-- run in its session when it ends, and is forgotten.
pub disconnect_cancels_run :
    (v : Bool) (cid run_id : String) (f : Frame) (c : ClientConn) (g : Gateway)
    → lookup cid g.clients ≡ some c
    → c.evicted ≡ false
    → c.runtime_done ≡ false
    → f.type ≡ "run.started"
    → f.run_id ≡ some run_id
    → (run_id == "") ≡ false
    → let g' = run v (runtime_sends cid f ∷ client_ends cid ∷ tears_down cid ∷ []) g in
      (g'.to_runtime
        ≡ g.to_runtime
          ++ (
            cid,
            record (frame "run.cancel") {
              run_id = some run_id;
              session_id = or_else f.session_id c.session_id;
              user_id = c.user_id;
            },
          )
            ∷ [])
      × (lookup cid g'.clients ≡ none)
unfolding run
disconnect_cancels_run v cid run_id f c g l e r t i n =
    let c1 : ClientConn = started run_id f c in
    let g1 : Gateway = step v (runtime_sends cid f) g in
    let (q1, l1) =
      subst (IsTracked cid f c g) (sym (step-found v (runtime_sends cid f) c g refl l))
        (live_frame-IsTracked v cid f c g r e) in
    let l1' : lookup cid g1.clients ≡ some c1 = l1 ∙ ap some (track-started run_id f c t i) in
    let c2 : ClientConn = record c1 { client_done = true } in
    let g2 : Gateway = set_conn cid c2 g1 in
    let second : step v (client_ends cid) g1 ≡ g2 = step-found v (client_ends cid) c1 g1 refl l1' in
    let third =
      step-found v (tears_down cid) c2 g2 refl (lookup-set_conn cid c2 g1)
      ∙ tear_down-live v cid c2 g2 e (ground arith) (rw n refl) in
    let both = ap (step v (tears_down cid)) second ∙ third in
    (
      ap (λ (x : Gateway). x.to_runtime) both ∙ rw q1 refl,
      ap (λ (x : Gateway). lookup cid x.clients) both ∙ lookup-remove_same cid g2.clients,
    )
