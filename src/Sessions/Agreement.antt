-- ===== src/Sessions/Agreement.antt =====
-- The store in memory and the store in a file give the same answers.
use runtime_assistant_agent.Base.{
  All, ◌+◌, ◌-◌, String, Bool, true, false, ◌≡◌, refl, subst, sym, ap, ◌∙◌, Option, none, some,
  List, [], ◌∷◌, eq_iff, arith, if◌then◌else◌, nat_beq, is_some, length, count_if, filter_if,
  Bool-cases, Option-cases, inl, inr, count_if-filter_if, length-count_if,
}
use runtime_assistant_agent.Sessions.{
  SessionRecord, Store, find, without, is_of, without_user, upsert, place, newest_first,
  list_by_user, new_record, touched, Operation, create, touch_run, delete, delete_by_user, Answer,
  stored, deleted, deleted_count, memory_step, memory_get, memory_list, Memory, jsonl_step,
  jsonl_get, run,
}
use runtime_assistant_agent.Sessions.Index.{put, index_step}
use runtime_assistant_agent.Sessions.Keyed.{
  keyed, IsNamed, memory_get-keyed, entries_of-keyed, run-keyed,
}
use runtime_assistant_agent.Sessions.Upsert.{
  IsIndexed, found_one, find-put, count_if-put, find-without, find-without_user, find-upsert,
  filter_if-IsIndexed, upsert-IsIndexed, put-IsIndexed, count_if-without, count_if-upsert,
}

-- Two stores hold the same records, in whatever order, each key once.
pub record Agrees (m j : Store) : Type 0 where
  pub found : (u k : String) → find u k m ≡ find u k j
  pub counted : (p : SessionRecord → Bool) → count_if p m ≡ count_if p j
  pub memory : IsIndexed m
  pub file : IsIndexed j

put-Agrees : (r : SessionRecord) (m j : Store) → Agrees m j → Agrees (put r m) (upsert r j)
put-Agrees r m j a = record {
  found = λ u k. ground (arith, find-put r u k m, find-upsert r u k j, a.found u k);
  counted = λ p. ground (
    arith,
    count_if-put p r m,
    count_if-upsert p r j a.file,
    a.counted p,
    a.found r.user_id r.session_id,
  );
  memory = put-IsIndexed r m a.memory;
  file = upsert-IsIndexed r j a.file;
}

without-Agrees : (u k : String) (m j : Store) → Agrees m j → Agrees (without u k m) (without u k j)
without-Agrees u k m j a = record {
  found = λ v l. ground (arith, find-without u k v l m, find-without u k v l j, a.found v l);
  counted = λ p. count_if-filter_if p _ m ∙ a.counted _ ∙ sym (count_if-filter_if p _ j);
  memory = filter_if-IsIndexed _ m a.memory;
  file = filter_if-IsIndexed _ j a.file;
}

without_user-Agrees :
    (u : String) (m j : Store) → Agrees m j → Agrees (without_user u m) (without_user u j)
without_user-Agrees u m j a = record {
  found = λ v l. ground (arith, find-without_user u v l m, find-without_user u v l j, a.found v l);
  counted = λ p. count_if-filter_if p _ m ∙ a.counted _ ∙ sym (count_if-filter_if p _ j);
  memory = filter_if-IsIndexed _ m a.memory;
  file = filter_if-IsIndexed _ j a.file;
}

-- Sorting changes neither what is found nor what is counted.
find-place :
    (u k : String) (s : SessionRecord) (ts : Store)
    → find s.user_id s.session_id ts ≡ none
    → find u k (place s ts) ≡ find u k (s ∷ ts)
find-place u k s [] h = refl
find-place u k s (t ∷ ts) h = ground (
  arith,
  find-place u k s ts,
  eq_iff t.user_id s.user_id,
  eq_iff t.session_id s.session_id,
  eq_iff t.user_id u,
  eq_iff t.session_id k,
  eq_iff s.user_id u,
  eq_iff s.session_id k,
)

find-newest_first :
    (u k : String) (ss : Store) → IsIndexed ss → find u k (newest_first ss) ≡ find u k ss
find-newest_first u k [] h = refl
find-newest_first u k (s ∷ ss) h =
    find-place u k s (newest_first ss) (find-newest_first s.user_id s.session_id ss h.1 ∙ h.0)
    ∙ ground (arith, find-newest_first u k ss h.1)

count_if-place :
    (p : SessionRecord → Bool) (s : SessionRecord) (ts : Store)
    → count_if p (place s ts) ≡ count_if p (s ∷ ts)
count_if-place p s [] = refl
count_if-place p s (t ∷ ts) = ground (arith, count_if-place p s ts)

count_if-newest_first :
    (p : SessionRecord → Bool) (ss : Store) → count_if p (newest_first ss) ≡ count_if p ss
count_if-newest_first p [] = refl
count_if-newest_first p (s ∷ ss) =
    count_if-place p s (newest_first ss) ∙ omega (arith, count_if-newest_first p ss)

find-own : (u k : String) (ss : Store) → find u k (filter_if (is_of u) ss) ≡ find u k ss
find-own u k [] = refl
find-own u k (s ∷ ss) = ground (arith, find-own u k ss)

find-jsonl_get : (u k : String) (ss : Store) → IsIndexed ss → jsonl_get u k ss ≡ find u k ss
find-jsonl_get u k ss h =
    find-newest_first u k (filter_if (is_of u) ss) (filter_if-IsIndexed (is_of u) ss h)
    ∙ find-own u k ss

Agrees-jsonl_get : (u k : String) (m j : Store) → Agrees m j → find u k m ≡ jsonl_get u k j
Agrees-jsonl_get u k m j a = a.found u k ∙ sym (find-jsonl_get u k j a.file)

-- what both stores answer to an operation, and the stores they are then
abbrev SameStep : Store × Answer → Store × Answer → Type 0
SameStep x y = Agrees x.0 y.0 × (x.1 ≡ y.1)

length-without :
    (u k : String) (ss : Store)
    → IsIndexed ss
    → length (without u k ss) + found_one (λ s. true) (find u k ss) ≡ length ss
length-without u k ss h =
    rw (length-count_if (without u k ss), length-count_if ss)
      (count_if-without (λ s. true) u k ss h)

found_none : (o : Option SessionRecord) → found_one (λ s. true) o ≡ 0 → o ≡ none
found_none none h = refl
found_none (some s) h = absurd (omega arith)

-- Deleting what is not there changes nothing.
without-none : (u k : String) (ss : Store) → find u k ss ≡ none → without u k ss ≡ ss
without-none u k [] h = refl
without-none u k (s ∷ ss) h = ground (arith, without-none u k ss)

without_user-none : (u : String) (ss : Store) → count_if (is_of u) ss ≡ 0 → without_user u ss ≡ ss
without_user-none u [] h = refl
without_user-none u (s ∷ ss) h = ground (arith, without_user-none u ss)

length-without_user :
    (u : String) (ss : Store) → length (without_user u ss) + count_if (is_of u) ss ≡ length ss
length-without_user u [] = omega arith
length-without_user u (s ∷ ss) = ground (arith, length-without_user u ss)

-- the branch that a test chooses
choose :
    (x y z : Store × Answer) (b c : Bool)
    → b ≡ c
    → SameStep x (if c then y else z)
    → SameStep x (if b then y else z)
choose x y z b c e h = subst (λ d. SameStep x (if d then y else z)) (sym e) h

delete-SameStep :
    (u k : String) (m j : Store)
    → Agrees m j
    → SameStep (index_step (delete u k) m) (jsonl_step (delete u k) j)
unfolding index_step jsonl_step
delete-SameStep u k m j a =
    let l = length-without u k j a.file in
    elim (Option-cases (find u k j)) [
      | inl e ↦
          choose _ (j, deleted false) (without u k j, deleted true)
            (nat_beq (length (without u k j)) (length j)) true (ground arith)
            (
              subst (λ x. Agrees x j) (sym (without-none u k m (a.found u k ∙ e))) a,
              ap (λ o. deleted (is_some o)) (a.found u k ∙ e),
            )
      | inr (s, e) ↦
          choose _ (j, deleted false) (without u k j, deleted true)
            (nat_beq (length (without u k j)) (length j)) false (ground arith)
            (without-Agrees u k m j a, ap (λ o. deleted (is_some o)) (a.found u k ∙ e))
    ]

delete_by_user-SameStep :
    (u : String) (m j : Store)
    → Agrees m j
    → SameStep (index_step (delete_by_user u) m) (jsonl_step (delete_by_user u) j)
unfolding index_step jsonl_step
delete_by_user-SameStep u m j a =
    let count = length j - length (without_user u j) in
    let l : count ≡ count_if (is_of u) m =
      omega (arith, length-without_user u j, a.counted (is_of u)) in
    elim (Bool-cases (nat_beq count 0)) [
      | inl zero_count ↦
          let none_left : count_if (is_of u) m ≡ 0 = ground (arith, l) in
          choose _ (j, deleted_count 0) (without_user u j, deleted_count count) (nat_beq count 0)
            true zero_count
            (
              subst (λ x. Agrees x j) (sym (without_user-none u m none_left)) a,
              ap deleted_count none_left,
            )
      | inr more ↦
          choose _ (j, deleted_count 0) (without_user u j, deleted_count count) (nat_beq count 0)
            false more (without_user-Agrees u m j a, ap deleted_count (sym l))
    ]

step-SameStep :
    (o : Operation) (m j : Store) → Agrees m j → SameStep (index_step o m) (jsonl_step o j)
unfolding index_step jsonl_step
step-SameStep (create u t k f now) m j a = (put-Agrees (new_record u t k f now) m j a, refl)
step-SameStep (touch_run u k r f now) m j a =
    let e = Agrees-jsonl_get u k m j a in
    subst
      (λ o.
        SameStep
          (put (touched u k r f now (find u k m)) m, stored (touched u k r f now (find u k m)))
          (upsert (touched u k r f now o) j, stored (touched u k r f now o)))
      e (put-Agrees (touched u k r f now (find u k m)) m j a, refl)
step-SameStep (delete u k) m j a = delete-SameStep u k m j a
step-SameStep (delete_by_user u) m j a = delete_by_user-SameStep u m j a

run-SameRun :
    (os : List Operation) (m j : Store)
    → Agrees m j
    → Agrees (run index_step os m).0 (run jsonl_step os j).0
      × ((run index_step os m).1 ≡ (run jsonl_step os j).1)
unfolding run
run-SameRun [] m j a = (a, refl)
run-SameRun (o ∷ os) m j a =
    let (b, e) = step-SameStep o m j a in
    let (c, f) = run-SameRun os (index_step o m).0 (jsonl_step o j).0 b in
    (
      c,
      ap (λ x. x ∷ (run index_step os (index_step o m).0).1) e
          ∙ ap (λ xs. (jsonl_step o j).1 ∷ xs) f,
    )

empty-Agrees : Agrees [] []
empty-Agrees = record { found = λ u k. refl; counted = λ p. refl; memory = tt; file = tt }

-- After the same operations on two new stores, one in memory and one in a file, in which runs are stored
-- under sessions with a name, both have given the same answers, both find the same record for each user
-- and session, and for each user both list the same records as often, though records of one time may
-- stand in another order.
pub stores_agree :
    (os : List Operation)
    → All IsNamed os
    → let m = (run memory_step os []).0 in
      let j = (run jsonl_step os []).0 in
      ((run memory_step os []).1 ≡ (run jsonl_step os []).1)
      × ((u k : String) → memory_get (u, k) m ≡ jsonl_get u k j)
      × ((u : String) (p : SessionRecord → Bool)
          → count_if p (memory_list u m) ≡ count_if p (list_by_user u j))
stores_agree os named =
    let i = (run index_step os []).0 in
    let j = (run jsonl_step os []).0 in
    let (a, e) = run-SameRun os [] [] empty-Agrees in
    let k = run-keyed os [] named in
    let m : (run memory_step os []).0 ≡ keyed i = ap (λ (x : Memory × List Answer). x.0) k in
    (
      ap (λ (x : Memory × List Answer). x.1) k ∙ e,
      λ u key.
          ap (λ (x : Memory). memory_get (u, key) x) m
          ∙ memory_get-keyed u key i
          ∙ Agrees-jsonl_get u key i j a,
      λ u p.
          ap (λ (x : Memory). count_if p (memory_list u x)) m
          ∙ ap (λ (x : Store). count_if p (newest_first x)) (entries_of-keyed u i)
          ∙ count_if-newest_first p (filter_if (is_of u) i)
          ∙ count_if-filter_if p (is_of u) i
          ∙ a.counted _
          ∙ sym (count_if-filter_if p (is_of u) j)
          ∙ sym (count_if-newest_first p (filter_if (is_of u) j)),
    )
