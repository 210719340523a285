-- ===== src/Plan/Order.antt =====
-- A search that meets no cycle has put the steps in an order.
use runtime_assistant_agent.Base.{
  ℕ, zero, suc, String, true, ◌≡◌, none, some, List, [], ◌∷◌, ◌++◌, arith, eq_refl, if_intro,
  contains, Bool-cases, inl, inr, length,
}
use runtime_assistant_agent.Base.Dict.{Dict}
use runtime_assistant_agent.Plan.{
  TaskStep, Search, Found, dependencies_of, keys, visit_each, enter, visit, close, continue,
  first_cycle, dependencies, no_search, from_index,
}

-- every text of the first list is in the second
abbrev pub AllIn : List String → List String → Type 0
AllIn [] ys = Unit
AllIn (x ∷ xs) ys = (contains ys x ≡ true) × AllIn xs ys

-- Newest first: all that a step depends on stands behind it.
abbrev pub IsOrder : Dict (List String) → List String → Type 0
IsOrder deps [] = Unit
IsOrder deps (x ∷ xs) = AllIn (dependencies_of deps x) xs × IsOrder deps xs

-- what was visited stays visited
abbrev Grows : List String → List String → Type 0
Grows xs ys = (a : String) → contains xs a ≡ true → contains ys a ≡ true

AllIn-Grows : (xs ys zs : List String) → AllIn xs ys → Grows ys zs → AllIn xs zs
AllIn-Grows [] ys zs h g = tt
AllIn-Grows (x ∷ xs) ys zs h g = (g x h.0, AllIn-Grows xs ys zs h.1 g)

-- After a search without a cycle the visited steps are in order, grew, and hold the texts that were
-- asked for.
abbrev pub Ordered : Dict (List String) → List String → Search → Found → Type 0
Ordered deps asked st none = Unit
Ordered deps asked st (some (u, x ∷ cycle)) = Unit
Ordered deps asked st (some (u, [])) =
    IsOrder deps u.visited × Grows st.visited u.visited × AllIn asked u.visited

module _ (deps : Dict (List String)) where
  Ordered-continue :
      (loop : Search → Found) (d : String) (ds : List String) (st : Search) (r : Found)
      → ((u : Search) → IsOrder deps u.visited → Ordered deps ds u (loop u))
      → Ordered deps (d ∷ []) st r
      → Ordered deps (d ∷ ds) st (continue loop r)
  Ordered-continue loop d ds st none h o = tt
  Ordered-continue loop d ds st (some (u, x ∷ cycle)) h o = tt
  Ordered-continue loop d ds st (some (u, [])) h o = after (loop u) (h u o.0)
    where
      after : (r : Found) → Ordered deps ds u r → Ordered deps (d ∷ ds) st r
      after none q = tt
      after (some (v, x ∷ cycle)) q = tt
      after (some (v, [])) q = (q.0, (λ a p. q.1 a (o.1 a p)), (q.1 d o.2.0, q.2))

  Ordered-each :
      (visit_one : String → Search → Found)
      → ((d : String) (st : Search)
          → IsOrder deps st.visited
          → Ordered deps (d ∷ []) st (visit_one d st))
      → (ds : List String) (st : Search) → IsOrder deps st.visited
      → Ordered deps ds st (visit_each visit_one ds st)
  unfolding visit_each
  Ordered-each visit_one h [] st o = (o, (λ a p. p), tt)
  Ordered-each visit_one h (d ∷ ds) st o =
      Ordered-continue (visit_each visit_one ds) d ds st (visit_one d st)
        (Ordered-each visit_one h ds) (h d st o)

  Ordered-close :
      (step_id : String) (st : Search) (r : Found)
      → Ordered deps (dependencies_of deps step_id) (enter step_id st) r
      → Ordered deps (step_id ∷ []) st (close step_id r)
  Ordered-close step_id st none o = tt
  Ordered-close step_id st (some (u, x ∷ cycle)) o = tt
  Ordered-close step_id st (some (u, [])) o =
      ((o.2, o.0), (λ a p. later u.visited a (o.1 a p)), (rw eq_refl, tt))
    where
      later :
          (xs : List String) (a : String) → contains xs a ≡ true → contains (step_id ∷ xs) a ≡ true
      later xs a h = ground arith

  Ordered-cycle :
      (d : String) (st : Search) (xs : List String) (y : String)
      → Ordered deps (d ∷ []) st (some (st, xs ++ y ∷ []))
  Ordered-cycle d st [] y = tt
  Ordered-cycle d st (x ∷ xs) y = tt

pub visit-Ordered :
    (fuel : ℕ) (deps : Dict (List String)) (step_id : String) (st : Search)
    → IsOrder deps st.visited
    → Ordered deps (step_id ∷ []) st (visit fuel deps step_id st)
unfolding visit
visit-Ordered zero deps step_id st o = tt
visit-Ordered (suc fuel) deps step_id st o = elim (Bool-cases (contains st.visited step_id)) [
  | inl seen ↦ rw seen (o, (λ a p. p), (seen, tt))
  | inr fresh ↦ rw fresh (
      if_intro (Ordered deps (step_id ∷ []) st) (contains st.visiting step_id)
        (Ordered-cycle deps step_id st (from_index step_id st.path st.path) step_id)
        (Ordered-close deps step_id st _ (
          Ordered-each deps (visit fuel deps) (visit-Ordered fuel deps)
            (dependencies_of deps step_id) (enter step_id st) o)))
]

-- The answer that there is no cycle comes with an order of the steps: a list that holds every step and
-- in which all that a step depends on stands behind it.
pub acyclic-IsOrder :
    (steps : List TaskStep) (st : Search)
    → first_cycle steps ≡ some (st, [])
    → IsOrder (dependencies steps) st.visited × AllIn (keys (dependencies steps)) st.visited
unfolding first_cycle
acyclic-IsOrder steps st e =
    let deps = dependencies steps in
    let o : Ordered deps (keys deps) no_search (some (st, [])) = rw e at (
      Ordered-each deps (visit (suc (length (keys deps))) deps)
        (visit-Ordered (suc (length (keys deps))) deps) (keys deps) no_search tt) in
    (o.0, o.2)
