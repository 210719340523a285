-- ===== src/Plan/Total.antt =====
-- The search never runs out of fuel: each level of it enters a step that is not being visited yet.
use runtime_assistant_agent.Base.{
  ℕ, zero, suc, ◌+◌, ◌≤◌, ◌<◌, String, true, false, ◌≡◌, refl, none, some, List, [], ◌∷◌, arith,
  eq_iff, if◌then◌else◌, if_intro, contains, Bool-cases, inl, inr, length,
}
use runtime_assistant_agent.Base.Dict.{Dict, lookup}
use runtime_assistant_agent.Plan.{
  TaskStep, Search, Found, dependencies_of, keys, visit_each, enter, visit, close, continue,
  first_cycle, dependencies, no_search,
}
use runtime_assistant_agent.Plan.Restore.{Quiet, visit-Quiet}

-- how many keys are not being visited
abbrev pub unvisited : List String → List String → ℕ
unvisited [] visiting = 0
unvisited (k ∷ ks) visiting = (if contains visiting k then 0 else 1) + unvisited ks visiting

unvisited-le :
    (ks visiting : List String) (x : String) → unvisited ks (x ∷ visiting) ≤ unvisited ks visiting
unvisited-le [] visiting x = omega arith
unvisited-le (k ∷ ks) visiting x = ground (arith, unvisited-le ks visiting x)

unvisited-lt :
    (ks visiting : List String) (x : String)
    → contains ks x ≡ true
    → contains visiting x ≡ false
    → unvisited ks (x ∷ visiting) < unvisited ks visiting
unvisited-lt [] visiting x k v = cc
unvisited-lt (y ∷ ks) visiting x k v =
    ground (arith, eq_iff x y, eq_iff y x, unvisited-le ks visiting x, unvisited-lt ks visiting x)

unvisited-length : (ks visiting : List String) → unvisited ks visiting ≤ length ks
unvisited-length [] visiting = omega arith
unvisited-length (k ∷ ks) visiting = ground (arith, unvisited-length ks visiting)

abbrev pub Answered : Found → Type 0
Answered none = ⊥
Answered (some r) = Unit

Answered-continue :
    (loop : Search → Found) (st : Search) (r : Found)
    → ((u : Search) → u.visiting ≡ st.visiting → Answered (loop u))
    → Quiet st r
    → Answered r
    → Answered (continue loop r)
Answered-continue loop st none h q a = a
Answered-continue loop st (some (u, [])) h q a = h u q.0
Answered-continue loop st (some (u, x ∷ cycle)) h q a = tt

Answered-close : (step_id : String) (r : Found) → Answered r → Answered (close step_id r)
Answered-close step_id none a = a
Answered-close step_id (some (u, [])) a = tt
Answered-close step_id (some (u, x ∷ cycle)) a = tt

module _ (fuel : ℕ) (deps : Dict (List String)) where
  Answered-each :
      (ds : List String) (st : Search)
      → ((d : String) (u : Search)
          → unvisited (keys deps) u.visiting < fuel
          → Answered (visit fuel deps d u))
      → unvisited (keys deps) st.visiting < fuel
      → Answered (visit_each (visit fuel deps) ds st)
  unfolding visit_each
  Answered-each [] st h m = tt
  Answered-each (d ∷ ds) st h m =
      Answered-continue (visit_each (visit fuel deps) ds) st (visit fuel deps d st)
        (λ u same. Answered-each ds u h (rw same m)) (visit-Quiet fuel deps d st) (h d st m)

lookup-not_key :
    (d : Dict (List String)) (x : String) → contains (keys d) x ≡ false → lookup x d ≡ none
unfolding lookup
lookup-not_key [] x h = refl
lookup-not_key ((k, v) ∷ d) x h = ground (arith, lookup-not_key d x)

inner-Answered :
    (fuel : ℕ) (deps : Dict (List String)) (step_id : String) (st : Search)
    → ((d : String) (u : Search)
        → unvisited (keys deps) u.visiting < fuel
        → Answered (visit fuel deps d u))
    → unvisited (keys deps) st.visiting < suc fuel
    → contains st.visiting step_id ≡ false
    → Answered (visit_each (visit fuel deps) (dependencies_of deps step_id) (enter step_id st))
inner-Answered fuel deps step_id st h m fresh = elim (Bool-cases (contains (keys deps) step_id)) [
  | inl key ↦
      Answered-each fuel deps (dependencies_of deps step_id) (enter step_id st) h
        (omega (arith, unvisited-lt (keys deps) st.visiting step_id key fresh))
  | inr other ↦ rw (lookup-not_key deps step_id other) (unfold visit_each in tt)
]

pub visit-Answered :
    (fuel : ℕ) (deps : Dict (List String)) (step_id : String) (st : Search)
    → unvisited (keys deps) st.visiting < fuel
    → Answered (visit fuel deps step_id st)
unfolding visit
visit-Answered zero deps step_id st m = absurd (omega arith)
visit-Answered (suc fuel) deps step_id st m =
    let inner = inner-Answered fuel deps step_id st (visit-Answered fuel deps) m in
    if_intro Answered (contains st.visited step_id) tt
      (elim (Bool-cases (contains st.visiting step_id)) [
        | inl seen ↦ rw seen tt
        | inr fresh ↦ rw fresh (Answered-close step_id _ (inner fresh))
      ])

-- The search of `_first_cycle` always comes to an answer, whatever the steps.
pub first_cycle-Answered : (steps : List TaskStep) → Answered (first_cycle steps)
unfolding first_cycle
first_cycle-Answered steps =
    let deps = dependencies steps in
    Answered-each (suc (length (keys deps))) deps (keys deps) no_search
      (visit-Answered (suc (length (keys deps))) deps)
      (omega (arith, unvisited-length (keys deps) []))
