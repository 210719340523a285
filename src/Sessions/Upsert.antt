-- ===== src/Sessions/Upsert.antt =====
-- What the two ways to store a record, and the ways to delete, do to what is found and counted.
use runtime_assistant_agent.Base.{
  ℕ, ◌+◌, String, Bool, ◌&&◌, ◌≡◌, refl, ◌∙◌, Option, none, some, [], ◌∷◌, ◌++◌, ◌==◌, eq_iff,
  eq_refl, arith, if_intro, count_if-append, if◌then◌else◌, count_if, filter_if, Bool-cases,
  Option-cases, inl, inr,
}
use runtime_assistant_agent.Sessions.{
  SessionRecord, Store, has_key, find, without, without_user, upsert,
}
use runtime_assistant_agent.Sessions.Index.{put}

-- no key stands twice
abbrev pub IsIndexed : Store → Type 0
IsIndexed [] = Unit
IsIndexed (s ∷ ss) = (find s.user_id s.session_id ss ≡ none) × IsIndexed ss

-- what a record that is found adds to a count
abbrev pub one : (SessionRecord → Bool) → SessionRecord → ℕ
one p s = if p s then 1 else 0

abbrev pub found_one : (SessionRecord → Bool) → Option SessionRecord → ℕ
found_one p none = 0
found_one p (some s) = one p s

pub find-put :
    (r : SessionRecord) (u k : String) (ss : Store)
    → find u k (put r ss) ≡ (if has_key u k r then some r else find u k ss)
unfolding put
find-put r u k [] = refl
find-put r u k (s ∷ ss) = ground (
  arith,
  find-put r u k ss,
  eq_iff s.user_id r.user_id,
  eq_iff s.session_id r.session_id,
  eq_iff r.user_id u,
  eq_iff r.session_id k,
  eq_iff s.user_id u,
  eq_iff s.session_id k,
)

pub count_if-put :
    (p : SessionRecord → Bool) (r : SessionRecord) (ss : Store)
    → count_if p (put r ss) + found_one p (find r.user_id r.session_id ss) ≡ count_if p ss + one p r
unfolding put
count_if-put p r [] = omega arith
count_if-put p r (s ∷ ss) = ground (arith, count_if-put p r ss)

pub find-without :
    (u k v l : String) (ss : Store)
    → find v l (without u k ss) ≡ (if u == v && k == l then none else find v l ss)
find-without u k v l [] = ground arith
find-without u k v l (s ∷ ss) = ground (
  arith,
  find-without u k v l ss,
  eq_iff s.user_id u,
  eq_iff s.session_id k,
  eq_iff s.user_id v,
  eq_iff s.session_id l,
  eq_iff u v,
  eq_iff k l,
)

pub find-without_user :
    (u v l : String) (ss : Store)
    → find v l (without_user u ss) ≡ (if u == v then none else find v l ss)
find-without_user u v l [] = ground arith
find-without_user u v l (s ∷ ss) =
    ground (arith, find-without_user u v l ss, eq_iff s.user_id u, eq_iff s.user_id v, eq_iff u v)

pub find-append :
    (u k : String) (ss : Store) (r : SessionRecord)
    → find u k ss ≡ none
    → find u k (ss ++ r ∷ []) ≡ (if has_key u k r then some r else none)
find-append u k [] r h = refl
find-append u k (s ∷ ss) r h = ground (arith, find-append u k ss r)

found_or : Option SessionRecord → Option SessionRecord → Option SessionRecord
found_or none o = o
found_or (some s) o = some s

find-append_or :
    (u k : String) (ss : Store) (r : SessionRecord)
    → find u k (ss ++ r ∷ []) ≡ found_or (find u k ss) (if has_key u k r then some r else none)
unfolding found_or
find-append_or u k [] r = refl
find-append_or u k (s ∷ ss) r = ground (arith, find-append_or u k ss r)

pub find-upsert :
    (r : SessionRecord) (u k : String) (ss : Store)
    → find u k (upsert r ss) ≡ (if has_key u k r then some r else find u k ss)
unfolding upsert found_or
find-upsert r u k ss =
    find-append_or u k (without r.user_id r.session_id ss) r
    ∙ rw (find-without r.user_id r.session_id u k ss)
        (elim (Option-cases (find u k ss)) [ inl e ↦ ground arith | inr (x, e) ↦ ground arith ])

-- A search that finds nothing still finds nothing in a part.
find-filter_if :
    (q : SessionRecord → Bool) (u k : String) (ss : Store)
    → find u k ss ≡ none
    → find u k (filter_if q ss) ≡ none
find-filter_if q u k [] h = refl
find-filter_if q u k (s ∷ ss) h = ground (arith, find-filter_if q u k ss)

pub filter_if-IsIndexed :
    (q : SessionRecord → Bool) (ss : Store) → IsIndexed ss → IsIndexed (filter_if q ss)
filter_if-IsIndexed q [] h = tt
filter_if-IsIndexed q (s ∷ ss) h =
    if_intro IsIndexed (q s)
      (find-filter_if q s.user_id s.session_id ss h.0, filter_if-IsIndexed q ss h.1)
      (filter_if-IsIndexed q ss h.1)

append-IsIndexed :
    (ss : Store) (r : SessionRecord)
    → find r.user_id r.session_id ss ≡ none
    → IsIndexed ss
    → IsIndexed (ss ++ r ∷ [])
append-IsIndexed [] r f h = (refl, tt)
append-IsIndexed (s ∷ ss) r f h = (
  ground (
    arith,
    find-append s.user_id s.session_id ss r h.0,
    eq_iff s.user_id r.user_id,
    eq_iff s.session_id r.session_id,
    eq_iff r.user_id s.user_id,
    eq_iff r.session_id s.session_id,
  ),
  append-IsIndexed ss r (ground arith) h.1,
)

pub upsert-IsIndexed : (r : SessionRecord) (ss : Store) → IsIndexed ss → IsIndexed (upsert r ss)
unfolding upsert
upsert-IsIndexed r ss h =
    append-IsIndexed (without r.user_id r.session_id ss) r
      (ground (
        arith,
        find-without r.user_id r.session_id r.user_id r.session_id ss,
        eq_refl r.user_id,
        eq_refl r.session_id,
      ))
      (filter_if-IsIndexed _ ss h)

pub put-IsIndexed : (r : SessionRecord) (ss : Store) → IsIndexed ss → IsIndexed (put r ss)
unfolding put
put-IsIndexed r [] h = (refl, tt)
put-IsIndexed r (s ∷ ss) h = elim (Bool-cases (has_key r.user_id r.session_id s)) [
  | inl same ↦
      rw same
        (ground (arith, h.0, eq_iff s.user_id r.user_id, eq_iff s.session_id r.session_id), h.1)
  | inr other ↦ rw other (
    ground (
      arith,
      h.0,
      find-put r s.user_id s.session_id ss,
      eq_iff s.user_id r.user_id,
      eq_iff s.session_id r.session_id,
      eq_iff r.user_id s.user_id,
      eq_iff r.session_id s.session_id,
    ),
    put-IsIndexed r ss h.1,
  )
]

count_if-without-none :
    (p : SessionRecord → Bool) (u k : String) (ss : Store)
    → find u k ss ≡ none
    → count_if p (without u k ss) ≡ count_if p ss
count_if-without-none p u k [] h = refl
count_if-without-none p u k (s ∷ ss) h = ground (arith, count_if-without-none p u k ss)

pub count_if-without :
    (p : SessionRecord → Bool) (u k : String) (ss : Store)
    → IsIndexed ss
    → count_if p (without u k ss) + found_one p (find u k ss) ≡ count_if p ss
count_if-without p u k [] h = omega arith
count_if-without p u k (s ∷ ss) h = ground (
  arith,
  h.0,
  count_if-without p u k ss h.1,
  count_if-without-none p u k ss,
  eq_iff s.user_id u,
  eq_iff s.session_id k,
)

pub count_if-upsert :
    (p : SessionRecord → Bool) (r : SessionRecord) (ss : Store)
    → IsIndexed ss
    → count_if p (upsert r ss) + found_one p (find r.user_id r.session_id ss)
      ≡ count_if p ss + one p r
unfolding upsert
count_if-upsert p r ss h = omega (
  arith,
  count_if-append p (without r.user_id r.session_id ss) (r ∷ []),
  count_if-without p r.user_id r.session_id ss h,
)
