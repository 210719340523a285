-- ===== src/Sessions/Keyed.antt =====
-- A store in memory whose records stand under their own keys, and the operations that keep it so.
use runtime_assistant_agent.Base.{
  ℕ, String, false, ◌≡◌, refl, ◌∙◌, ap, sym, subst, Option, none, some, List, [], ◌∷◌, ◌==◌, eq_iff,
  arith, if◌then◌else◌, is_some, length, count_if, filter_if, All, Bool-cases, inl, inr,
}
use runtime_assistant_agent.Sessions.{
  SessionRecord, Run, Store, Memory, has_key, find, without, is_of, without_user, new_record,
  touched, touch_record, Operation, create, touch_run, delete, delete_by_user, Answer, stored,
  deleted, deleted_count, memory_get, memory_put, memory_without, memory_without_user, entries_of,
  values, memory_step, run,
}
use runtime_assistant_agent.Sessions.Index.{put, index_step}

-- the records under their own keys
abbrev pub keyed : Store → Memory
keyed [] = []
keyed (s ∷ ss) = ((s.user_id, s.session_id), s) ∷ keyed ss

-- A run is stored under a session that has a name.
abbrev pub IsNamed : Operation → Type 0
IsNamed (touch_run user_id session_id r fresh_id now) = (session_id == "") ≡ false
IsNamed o = Unit

pub memory_get-keyed : (u k : String) (ss : Store) → memory_get (u, k) (keyed ss) ≡ find u k ss
memory_get-keyed u k [] = refl
memory_get-keyed u k (s ∷ ss) =
    ap (λ o. if has_key u k s then some s else o) (memory_get-keyed u k ss)

memory_put-keyed :
    (r : SessionRecord) (ss : Store)
    → memory_put (r.user_id, r.session_id) r (keyed ss) ≡ keyed (put r ss)
unfolding put
memory_put-keyed r [] = refl
memory_put-keyed r (s ∷ ss) = elim (Bool-cases (has_key r.user_id r.session_id s)) [
  | inl same ↦
      let user : s.user_id ≡ r.user_id = ground (arith, eq_iff s.user_id r.user_id) in
      let session : s.session_id ≡ r.session_id =
        ground (arith, eq_iff s.session_id r.session_id) in
      rw same (
        ap (λ (u : String). ((u, s.session_id), r) ∷ keyed ss) user
        ∙ ap (λ (k : String). ((r.user_id, k), r) ∷ keyed ss) session)
  | inr other ↦
      rw other (ap (λ (m : Memory). ((s.user_id, s.session_id), s) ∷ m) (memory_put-keyed r ss))
]

memory_without-keyed :
    (u k : String) (ss : Store) → memory_without (u, k) (keyed ss) ≡ keyed (without u k ss)
memory_without-keyed u k [] = refl
memory_without-keyed u k (s ∷ ss) = ground (arith, memory_without-keyed u k ss)

memory_without_user-keyed :
    (u : String) (ss : Store) → memory_without_user u (keyed ss) ≡ keyed (without_user u ss)
memory_without_user-keyed u [] = refl
memory_without_user-keyed u (s ∷ ss) = ground (arith, memory_without_user-keyed u ss)

pub entries_of-keyed :
    (u : String) (ss : Store) → values (entries_of u (keyed ss)) ≡ filter_if (is_of u) ss
entries_of-keyed u [] = refl
entries_of-keyed u (s ∷ ss) = ground (arith, entries_of-keyed u ss)

length-entries_of :
    (u : String) (ss : Store) → length (entries_of u (keyed ss)) ≡ count_if (is_of u) ss
length-entries_of u [] = refl
length-entries_of u (s ∷ ss) = ground (arith, length-entries_of u ss)

-- A record that is found has the key under which it is found.
find-key :
    (u k : String) (ss : Store) (x : SessionRecord)
    → find u k ss ≡ some x
    → (x.user_id ≡ u) × (x.session_id ≡ k)
find-key u k [] x h = cc
find-key u k (s ∷ ss) x h = elim (Bool-cases (has_key u k s)) [
  | inl here ↦
      let same : s ≡ x = ground (arith, here) in
      subst (λ (y : SessionRecord). (y.user_id ≡ u) × (y.session_id ≡ k)) same
        (ground (arith, eq_iff s.user_id u), ground (arith, eq_iff s.session_id k))
  | inr later ↦ find-key u k ss x (ground (arith, later))
]

touched-key :
    (u k : String) (r : Run) (f : String) (now : ℕ) (o : Option SessionRecord)
    → (k == "") ≡ false
    → ((x : SessionRecord) → o ≡ some x → (x.user_id ≡ u) × (x.session_id ≡ k))
    → ((touched u k r f now o).user_id ≡ u) × ((touched u k r f now o).session_id ≡ k)
unfolding touch_record
touched-key u k r f now none named h = (refl, rw named refl)
touched-key u k r f now (some x) named h = h x refl

abbrev Step : Type 0
Step = Memory × Answer

touch-keyed :
    (u k : String) (s : SessionRecord) (ss : Store)
    → s.user_id ≡ u
    → s.session_id ≡ k
    → memory_put (u, k) s (keyed ss) ≡ keyed (put s ss)
touch-keyed u k s ss e f =
    ap (λ (v : String). memory_put (v, k) s (keyed ss)) (sym e)
    ∙ ap (λ (v : String). memory_put (s.user_id, v) s (keyed ss)) (sym f)
    ∙ memory_put-keyed s ss

step-keyed :
    (o : Operation) (ss : Store)
    → IsNamed o
    → memory_step o (keyed ss) ≡ (keyed (index_step o ss).0, (index_step o ss).1)
unfolding memory_step index_step
step-keyed (create u t k f now) ss n =
    let r = new_record u t k f now in ap (λ (m : Memory). (m, stored r)) (memory_put-keyed r ss)
step-keyed (touch_run u k r f now) ss n =
    let s = touched u k r f now (find u k ss) in
    let key = touched-key u k r f now (find u k ss) n (find-key u k ss) in
    ap
      (λ (o : Option SessionRecord).
        (memory_put (u, k) (touched u k r f now o) (keyed ss), stored (touched u k r f now o)))
      (memory_get-keyed u k ss)
    ∙ ap (λ (m : Memory). (m, stored s)) (touch-keyed u k s ss key.0 key.1)
step-keyed (delete u k) ss n =
    ap (λ (m : Memory). (m, deleted (is_some (memory_get (u, k) (keyed ss)))))
      (memory_without-keyed u k ss)
    ∙ ap (λ (o : Option SessionRecord). (keyed (without u k ss), deleted (is_some o)))
        (memory_get-keyed u k ss)
step-keyed (delete_by_user u) ss n =
    ap (λ (m : Memory). (m, deleted_count (length (entries_of u (keyed ss)))))
      (memory_without_user-keyed u ss)
    ∙ ap (λ (n : ℕ). (keyed (without_user u ss), deleted_count n)) (length-entries_of u ss)

-- Operations with names keep every record under its own key.
pub run-keyed :
    (os : List Operation) (ss : Store)
    → All IsNamed os
    → run memory_step os (keyed ss) ≡ (keyed (run index_step os ss).0, (run index_step os ss).1)
unfolding run
run-keyed [] ss n = refl
run-keyed (o ∷ os) ss n =
    let next = index_step o ss in
    ap (λ (x : Step). ((run memory_step os x.0).0, x.1 ∷ (run memory_step os x.0).1))
      (step-keyed o ss n.0)
    ∙ ap (λ (x : Memory × List Answer). (x.0, next.1 ∷ x.1)) (run-keyed os next.0 n.1)
