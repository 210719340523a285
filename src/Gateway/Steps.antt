-- ===== src/Gateway/Steps.antt =====
-- One live bridge for each user.
use runtime_assistant_agent.Base.{
  String, Bool, true, false, not, ◌&&◌, ◌||◌, ◌≡◌, ◌≢◌, refl, sym, subst, ap, ◌∙◌, Option, none,
  some, List, [], ◌∷◌, arith, ◌==◌, eq_iff, if◌then◌else◌, if_intro, given, get_or, is_some,
  contains, Option-cases, Bool-cases, inl, inr, ◌⊎◌,
}
use runtime_assistant_agent.Base.Dict.{Dict, lookup, insert, remove, lookup-insert, lookup-remove}
use runtime_assistant_agent.Protocol.{
  call_incoming, call_hangup, config_update, Frame, payload_or_empty, supported_modalities,
}
use runtime_assistant_agent.Gateway.{
  ClientConn, Gateway, init, evict_one, evict_stale, evict_for, same_text, open_bridge, new_conn,
  on_client_frame, Event, opens, client_sends, client_ends, runtime_sends, tears_down, on_conn,
  at_conn, step, run, client_of, track, should_send, or_else,
}

-- A live bridge of a user, who has a name.
abbrev pub Serves : String → Dict ClientConn → String → Type 0
Serves user_id d cid =
    (c : ClientConn) × (lookup cid d ≡ some c) × (c.user_id ≡ some user_id) × (c.evicted ≡ false)

-- No user has two live bridges.
abbrev pub IsExclusive : Dict ClientConn → Type 0
IsExclusive d =
    (user_id cid cid' : String)
    → user_id ≢ ""
    → Serves user_id d cid
    → Serves user_id d cid'
    → cid ≡ cid'

-- Each bridge of the second dict was in the first, for the same user and as live.
abbrev pub Shrinks : Dict ClientConn → Dict ClientConn → Type 0
Shrinks d d' =
    (cid : String) (c : ClientConn)
    → lookup cid d' ≡ some c
    → (b : ClientConn) × (lookup cid d ≡ some b) × (b.user_id ≡ c.user_id) × (b.evicted ≡ c.evicted)

Shrinks-refl : (d : Dict ClientConn) → Shrinks d d
Shrinks-refl d cid c l = (c, l, refl, refl)

Shrinks-insert :
    (d : Dict ClientConn) (cid : String) (c c' : ClientConn)
    → lookup cid d ≡ some c
    → c.user_id ≡ c'.user_id
    → c.evicted ≡ c'.evicted
    → Shrinks d (insert cid c' d)
Shrinks-insert d cid c c' l u e j x m = elim (Bool-cases (cid == j)) [
  | inl same ↦
      let is : c' ≡ x = ground (arith, lookup-insert cid j c' d) in
      (
        c,
        subst (λ k. lookup k d ≡ some c) ((eq_iff cid j).0 same) l,
        u ∙ ap (λ (y : ClientConn). y.user_id) is,
        e ∙ ap (λ (y : ClientConn). y.evicted) is,
      )
  | inr other ↦ (x, ground (arith, lookup-insert cid j c' d), refl, refl)
]

Shrinks-remove : (d : Dict ClientConn) (cid : String) → Shrinks d (remove cid d)
Shrinks-remove d cid j x m = (x, ground (arith, lookup-remove cid j d), refl, refl)

Shrinks-IsExclusive : (d d' : Dict ClientConn) → Shrinks d d' → IsExclusive d → IsExclusive d'
Shrinks-IsExclusive d d' s x user_id cid cid' n (c, l, u, e) (c', l', u', e') =
    let (b, m, v, f) = s cid c l in
    let (b', m', v', f') = s cid' c' l' in
    x user_id cid cid' n (b, m, v ∙ u, f ∙ e) (b', m', v' ∙ u', f' ∙ e')

track-same :
    (f : Frame) (c : ClientConn)
    → (c.user_id ≡ (track f c).user_id) × (c.evicted ≡ (track f c).evicted)
track-same f c = (ground arith, ground arith)

-- The bridges of the second state were in the first.
abbrev Keeps : Gateway → Gateway → Type 0
Keeps g g' = Shrinks g.clients g'.clients

either :
    (g : Gateway) (b : Bool) (x y : Gateway) → Keeps g x → Keeps g y → Keeps g (if b then x else y)
either g b x y h k = if_intro (Keeps g) b h k

on_client_frame-Keeps :
    (cid : String) (f : Frame) (c : ClientConn) (g : Gateway)
    → lookup cid g.clients ≡ some c
    → Keeps g (on_client_frame cid f c g)
on_client_frame-Keeps cid f c g l =
    let uid = or_else f.user_id c.user_id in
    let same = Shrinks-refl g.clients in
    let changed = λ (c' : ClientConn). Shrinks-insert g.clients cid c c' l in
    either g (f.type == call_incoming) _ _ same (
      either g (f.type == call_hangup) _ _
        (either g (is_some (given uid)) _ _ (changed _ refl refl) (changed _ refl refl))
        (either g (f.type == config_update) _ _
          (either g (not (get_or (payload_or_empty f.payload).key "" == "") && is_some (given uid))
            _ _ same same)
          (either g (f.type == "session.open" || f.type == "session.resume") _ _
            (changed _ refl refl)
            (either g (f.type == "message.user") _ _
              (either g
                (contains supported_modalities
                  (get_or (given (payload_or_empty f.payload).modality) "text"))
                _ _ (changed _ refl refl) same)
              (either g (f.type == "run.cancel") _ _ same
                (either g (f.type == "ping") _ _ same same))))))

on_conn-Keeps :
    (v : Bool) (e : Event) (c : ClientConn) (g : Gateway)
    → lookup (client_of e) g.clients ≡ some c
    → Keeps g (on_conn v e c g)
on_conn-Keeps v (opens cid u s) c g l = Shrinks-refl g.clients
on_conn-Keeps v (client_sends cid f) c g l =
    either g c.client_done _ _ (Shrinks-refl g.clients) (on_client_frame-Keeps cid f c g l)
on_conn-Keeps v (client_ends cid) c g l = Shrinks-insert g.clients cid c _ l refl refl
on_conn-Keeps v (runtime_sends cid f) c g l =
    let tracked = Shrinks-insert g.clients cid c _ l (track-same f c).0 (track-same f c).1 in
    either g c.runtime_done _ _ (Shrinks-refl g.clients) (
      either g c.evicted _ _ (Shrinks-insert g.clients cid c _ l refl refl)
        (either g (should_send v f) _ _ tracked tracked))
on_conn-Keeps v (tears_down cid) c g l =
    let removed = Shrinks-remove g.clients cid in
    either g (c.client_done || c.runtime_done) _ _
      (either g (not c.evicted && (is_some (given c.active_run_id) || is_some (given c.session_id)))
        _ _ removed removed)
      (Shrinks-refl g.clients)

-- Eviction changes no user and revives nothing, and leaves no other bridge of the user live.
abbrev IsAged : String → String → String → ClientConn → ClientConn → Type 0
IsAged u cid j b x =
    (b.user_id ≡ x.user_id)
    × ((x.evicted ≡ false) → b.evicted ≡ false)
    × ((x.user_id ≡ some u) → cid ≢ j → x.evicted ≡ true)

same_text_refl : (o : Option String) (u : String) → o ≡ some u → same_text o u ≡ true
same_text_refl none u h = cc
same_text_refl (some x) u h = ground (arith, eq_iff x u)

evict_one-IsAged : (u cid j : String) (c : ClientConn) → IsAged u cid j c (evict_one u cid j c)
evict_one-IsAged u cid j c = (
  ground arith,
  λ h. ground arith,
  λ h n.
      let o : c.user_id ≡ some u = ground arith in
      ground (arith, same_text_refl c.user_id u o, n, eq_iff j cid),
)

evict_stale-found :
    (u cid j : String) (d : Dict ClientConn) (x : ClientConn)
    → lookup j (evict_stale u cid d) ≡ some x
    → (b : ClientConn) × (lookup j d ≡ some b) × IsAged u cid j b x
unfolding lookup
evict_stale-found u cid j [] x l = cc
evict_stale-found u cid j ((k, c) ∷ d) x l = elim (Bool-cases (k == j)) [
  | inr other ↦ let r = evict_stale-found u cid j d x (ground arith) in (r.0, rw other r.1, r.2)
  | inl same ↦
      let is : evict_one u cid k c ≡ x = ground arith in
      let at : k ≡ j = (eq_iff k j).0 same in
      (
        c,
        rw same refl,
        subst (λ y. IsAged u cid j c y) is
            (subst (λ i. IsAged u cid j c (evict_one u cid i c)) (sym at)
              (evict_one-IsAged u cid j c)),
      )
]

given-some : (u : String) → u ≢ "" → given (some u) ≡ some u
given-some u n = ground (arith, n, eq_iff u "")

evict_for-found :
    (user_id : Option String) (cid j : String) (d : Dict ClientConn) (x : ClientConn)
    → lookup j (evict_for (given user_id) cid d) ≡ some x
    → (b : ClientConn) × (lookup j d ≡ some b)
      × (b.user_id ≡ x.user_id)
      × ((x.evicted ≡ false) → b.evicted ≡ false)
      × ((u : String) → given user_id ≡ some u → x.user_id ≡ some u → cid ≢ j → x.evicted ≡ true)
evict_for-found user_id cid j d x l = elim (Option-cases (given user_id)) [
  | inl n ↦ (x, subst (λ o. lookup j (evict_for o cid d) ≡ some x) n l, refl, λ e. e, λ u h. cc)
  | inr (u, n) ↦
      let r =
        evict_stale-found u cid j d x (subst (λ o. lookup j (evict_for o cid d) ≡ some x) n l) in
      (
        r.0,
        r.1,
        r.2.0,
        r.2.1,
        λ w h o m. let e : w ≡ u = ground arith in r.2.2 (subst (λ z. x.user_id ≡ some z) e o) m,
      )
]

-- A live bridge of a user after a bridge was opened is the new one, opened for the user, or an old one of
-- a user for whom the new one was not opened.
opened-Serves :
    (cid j u : String) (user_id session_id : Option String) (g : Gateway)
    → u ≢ ""
    → Serves u (open_bridge cid user_id session_id g).clients j
    → ((cid ≡ j) × (user_id ≡ some u)) ⊎ (Serves u g.clients j × (user_id ≢ some u))
unfolding open_bridge
opened-Serves cid j u user_id session_id g n (x, l, o, live) = elim (Bool-cases (cid == j)) [
  | inl same ↦
      let is : new_conn user_id session_id ≡ x = ground (
        arith,
        lookup-insert cid j (new_conn user_id session_id) (evict_for (given user_id) cid g.clients),
      ) in
      inl ((eq_iff cid j).0 same, ap (λ (y : ClientConn). y.user_id) is ∙ o)
  | inr other ↦
      let r = evict_for-found user_id cid j g.clients x (
        ground (
          arith,
          lookup-insert cid j (new_conn user_id session_id)
              (evict_for (given user_id) cid g.clients),
        )) in
      inr (
        (r.0, r.1, r.2 ∙ o, r.3 live),
        λ h.
            let g : given user_id ≡ some u = rw h (given-some u n) in
            let dead = r.4 u g o (λ e. ground (arith, (eq_iff cid j).1 e)) in ground arith,
      )
]

open_bridge-IsExclusive :
    (cid : String) (user_id session_id : Option String) (g : Gateway)
    → IsExclusive g.clients
    → IsExclusive (open_bridge cid user_id session_id g).clients
open_bridge-IsExclusive cid user_id session_id g x u i j n s t =
    apart (opened-Serves cid i u user_id session_id g n s)
      (opened-Serves cid j u user_id session_id g n t)
  where
    apart :
        ((cid ≡ i) × (user_id ≡ some u)) ⊎ (Serves u g.clients i × (user_id ≢ some u))
        → ((cid ≡ j) × (user_id ≡ some u)) ⊎ (Serves u g.clients j × (user_id ≢ some u))
        → i ≡ j
    apart (inl a) (inl b) = sym a.0 ∙ b.0
    apart (inl a) (inr b) = absurd (b.1 a.1)
    apart (inr a) (inl b) = absurd (a.1 b.1)
    apart (inr a) (inr b) = x u i j n a.0 b.0

at_conn-IsExclusive :
    (v : Bool) (e : Event) (g : Gateway)
    → IsExclusive g.clients
    → IsExclusive (at_conn v e (lookup (client_of e) g.clients) g).clients
at_conn-IsExclusive v e g x = elim (Option-cases (lookup (client_of e) g.clients)) [
  | inl l ↦ subst (λ o. IsExclusive (at_conn v e o g).clients) (sym l) x
  | inr (c, l) ↦
      subst (λ o. IsExclusive (at_conn v e o g).clients) (sym l)
        (Shrinks-IsExclusive g.clients (on_conn v e c g).clients (on_conn-Keeps v e c g l) x)
]

step-IsExclusive :
    (v : Bool) (e : Event) (g : Gateway) → IsExclusive g.clients → IsExclusive (step v e g).clients
unfolding step
step-IsExclusive v (opens cid user_id session_id) g x =
    open_bridge-IsExclusive cid user_id session_id g x
step-IsExclusive v (client_sends cid f) g x = at_conn-IsExclusive v (client_sends cid f) g x
step-IsExclusive v (client_ends cid) g x = at_conn-IsExclusive v (client_ends cid) g x
step-IsExclusive v (runtime_sends cid f) g x = at_conn-IsExclusive v (runtime_sends cid f) g x
step-IsExclusive v (tears_down cid) g x = at_conn-IsExclusive v (tears_down cid) g x

run-IsExclusive :
    (v : Bool) (es : List Event) (g : Gateway)
    → IsExclusive g.clients
    → IsExclusive (run v es g).clients
unfolding run
run-IsExclusive v [] g x = x
run-IsExclusive v (e ∷ es) g x = run-IsExclusive v es (step v e g) (step-IsExclusive v e g x)

-- Whatever frames arrive and in whatever order bridges open, end and are torn down, no user with a name
-- has two bridges that are not evicted.
pub one_live_bridge :
    (v : Bool) (es : List Event) (user_id cid cid' : String)
    → user_id ≢ ""
    → Serves user_id (run v es init).clients cid
    → Serves user_id (run v es init).clients cid'
    → cid ≡ cid'
unfolding init lookup
one_live_bridge v es user_id cid cid' =
    run-IsExclusive v es init (λ u i j n s t. let (c, l, o, r) = s in cc) user_id cid cid'
