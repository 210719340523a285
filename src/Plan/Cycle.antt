-- ===== src/Plan/Cycle.antt =====
-- A cycle that the search reports is one.
use runtime_assistant_agent.Base.{
  ℕ, zero, suc, String, true, ◌≡◌, refl, sym, ◌∙◌, ap, none, some, List, [], ◌∷◌, ◌++◌, arith, ◌==◌,
  eq_iff, eq_refl, if_intro, contains, Bool-cases, inl, inr, length, All, ◌||◌, subst,
}
use runtime_assistant_agent.Base.Dict.{Dict}
use runtime_assistant_agent.Plan.{
  TaskStep, Search, Found, dependencies_of, keys, visit_each, enter, visit, close, continue,
  first_cycle, dependencies, no_search, from_index,
}
use runtime_assistant_agent.Plan.Restore.{Quiet, visit-Quiet}

contains-append :
    (xs ys : List String) (a : String) → contains (xs ++ ys) a ≡ (contains xs a || contains ys a)
contains-append [] ys a = refl
contains-append (x ∷ xs) ys a = ground (arith, contains-append xs ys a)

module _ (deps : Dict (List String)) where
  -- each step of the list depends on the next
  abbrev pub Walk : List String → Type 0
  Walk [] = Unit
  Walk (x ∷ []) = Unit
  Walk (x ∷ y ∷ r) = (contains (dependencies_of deps x) y ≡ true) × Walk (y ∷ r)

  -- a walk of one edge at least that ends where it begins
  abbrev pub IsCycle : List String → Type 0
  IsCycle c = (a : String) × (r : List String) × (c ≡ a ∷ (r ++ a ∷ [])) × Walk c

  Walk-append :
      (xs : List String) (a b : String)
      → Walk (xs ++ a ∷ [])
      → contains (dependencies_of deps a) b ≡ true
      → Walk ((xs ++ a ∷ []) ++ b ∷ [])
  Walk-append [] a b w e = (e, tt)
  Walk-append (x ∷ []) a b w e = (w.0, (e, tt))
  Walk-append (x ∷ y ∷ xs) a b w e = (w.0, Walk-append (y ∷ xs) a b w.1 e)

  Walk-tail : (x : String) (xs : List String) → Walk (x ∷ xs) → Walk xs
  Walk-tail x [] w = tt
  Walk-tail x (y ∷ xs) w = w.1

  -- the part of a path from a step of it on, with that step behind it once more
  from_index-IsCycle :
      (a : String) (whole xs : List String)
      → contains xs a ≡ true
      → Walk (xs ++ a ∷ [])
      → IsCycle (from_index a whole xs ++ a ∷ [])
  from_index-IsCycle a whole [] h w = cc
  from_index-IsCycle a whole (x ∷ xs) h w = elim (Bool-cases (x == a)) [
    | inl same ↦ rw same (a, xs, ap (λ y. y ∷ (xs ++ a ∷ [])) ((eq_iff x a).0 same), w)
    | inr other ↦
        rw other (from_index-IsCycle a whole xs (ground arith) (Walk-tail x (xs ++ a ∷ []) w))
  ]

  abbrev Reports : Found → Type 0
  Reports none = Unit
  Reports (some (u, [])) = Unit
  Reports (some (u, x ∷ c)) = IsCycle (x ∷ c)

  -- the visiting set is the set of the path
  abbrev Synced : Search → Type 0
  Synced st = (a : String) → contains st.visiting a ≡ contains st.path a

  abbrev Leads : Search → String → Type 0
  Leads st d = Walk (st.path ++ d ∷ [])

  Reports-IsCycle : (st : Search) (c : List String) → IsCycle c → Reports (some (st, c))
  Reports-IsCycle st [] h = tt
  Reports-IsCycle st (x ∷ c) h = h

  Reports-continue :
      (loop : Search → Found) (st : Search) (r : Found)
      → ((u : Search) → u.visiting ≡ st.visiting → u.path ≡ st.path → Reports (loop u))
      → Quiet st r
      → Reports r
      → Reports (continue loop r)
  Reports-continue loop st none h q p = tt
  Reports-continue loop st (some (u, [])) h q p = h u q.0 q.1
  Reports-continue loop st (some (u, x ∷ c)) h q p = p

  Reports-each :
      (fuel : ℕ)
      → ((d : String) (u : Search) → Leads u d → Synced u → Reports (visit fuel deps d u))
      → (ds : List String) (st : Search) → All (Leads st) ds
      → Synced st
      → Reports (visit_each (visit fuel deps) ds st)
  unfolding visit_each
  Reports-each fuel h [] st l s = tt
  Reports-each fuel h (d ∷ ds) st l s =
      Reports-continue (visit_each (visit fuel deps) ds) st (visit fuel deps d st)
        (λ u v p.
          Reports-each fuel h ds u (subst (λ q. All (λ x. Walk (q ++ x ∷ [])) ds) (sym p) l.1)
            (λ a. ap (λ q. contains q a) v ∙ s a ∙ sym (ap (λ q. contains q a) p)))
        (visit-Quiet fuel deps d st) (h d st l.0 s)

  Reports-close : (step_id : String) (r : Found) → Reports r → Reports (close step_id r)
  Reports-close step_id none p = tt
  Reports-close step_id (some (u, [])) p = tt
  Reports-close step_id (some (u, x ∷ c)) p = p

  enter-Synced : (step_id : String) (st : Search) → Synced st → Synced (enter step_id st)
  enter-Synced step_id st s a = ground (arith, contains-append st.path (step_id ∷ []) a, s a)

  Leads-All :
      (step_id : String) (st : Search) (ds : List String)
      → Leads st step_id
      → ((d : String) → contains ds d ≡ true → contains (dependencies_of deps step_id) d ≡ true)
      → All (Leads (enter step_id st)) ds
  Leads-All step_id st [] w h = tt
  Leads-All step_id st (d ∷ ds) w h = (
    Walk-append st.path step_id d w (h d (rw eq_refl)),
    Leads-All step_id st ds w (λ x p. h x (rest d x p)),
  )
    where
      rest : (d x : String) → contains ds x ≡ true → contains (d ∷ ds) x ≡ true
      rest d x p = ground arith

  visit-Reports :
      (fuel : ℕ) (step_id : String) (st : Search)
      → Leads st step_id
      → Synced st
      → Reports (visit fuel deps step_id st)
  unfolding visit
  visit-Reports zero step_id st w s = tt
  visit-Reports (suc fuel) step_id st w s =
      if_intro Reports (contains st.visited step_id) tt
        (elim (Bool-cases (contains st.visiting step_id)) [
          | inl seen ↦ rw seen (
              Reports-IsCycle st (from_index step_id st.path st.path ++ step_id ∷ [])
                (from_index-IsCycle step_id st.path st.path (sym (s step_id) ∙ seen) w))
          | inr fresh ↦ rw fresh (
              Reports-close step_id _ (
                Reports-each fuel (visit-Reports fuel) (dependencies_of deps step_id)
                  (enter step_id st)
                  (Leads-All step_id st (dependencies_of deps step_id) w (λ d p. p))
                  (enter-Synced step_id st s)))
        ])

  start-Leads : (ds : List String) → All (Leads no_search) ds
  start-Leads [] = tt
  start-Leads (d ∷ ds) = (tt, start-Leads ds)

-- A cycle that the search reports is a cycle of the dependencies: it begins and ends with the same
-- step, and each of its steps depends on the next.
pub reported-IsCycle :
    (steps : List TaskStep) (st : Search) (x : String) (c : List String)
    → first_cycle steps ≡ some (st, x ∷ c)
    → IsCycle (dependencies steps) (x ∷ c)
unfolding first_cycle
reported-IsCycle steps st x c e =
    let deps = dependencies steps in
    let n = suc (length (keys deps)) in
    rw e at (
      Reports-each deps n (visit-Reports deps n) (keys deps) no_search
        (start-Leads deps (keys deps)) (λ a. refl))
