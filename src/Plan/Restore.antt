-- ===== src/Plan/Restore.antt =====
-- What a search that meets no cycle leaves as it was, and what it adds.
use runtime_assistant_agent.Base.{
  ℕ, zero, suc, String, ◌≡◌, refl, ◌∙◌, ap, none, some, List, [], ◌∷◌, ◌++◌, eq_refl, if_intro,
  contains,
}
use runtime_assistant_agent.Base.Dict.{Dict}
use runtime_assistant_agent.Plan.{
  Search, Found, dependencies_of, drop_last, visit_each, enter, visit, close, continue, from_index,
}

pub drop_last-append : (xs : List String) (y : String) → drop_last (xs ++ y ∷ []) ≡ xs
drop_last-append [] y = refl
drop_last-append (x ∷ []) y = refl
drop_last-append (x ∷ z ∷ xs) y = ap (λ r. x ∷ r) (drop_last-append (z ∷ xs) y)

-- A quiet answer: no cycle, and the same visiting set and path as before.
abbrev pub Quiet : Search → Found → Type 0
Quiet st none = Unit
Quiet st (some (st', [])) = (st'.visiting ≡ st.visiting) × (st'.path ≡ st.path)
Quiet st (some (st', x ∷ cycle)) = Unit

Quiet-trans :
    (st st' : Search) (r : Found)
    → st'.visiting ≡ st.visiting
    → st'.path ≡ st.path
    → Quiet st' r
    → Quiet st r
Quiet-trans st st' none v p q = tt
Quiet-trans st st' (some (u, [])) v p q = (q.0 ∙ v, q.1 ∙ p)
Quiet-trans st st' (some (u, x ∷ cycle)) v p q = tt

Quiet-continue :
    (loop : Search → Found) (st : Search) (r : Found)
    → ((u : Search) → Quiet u (loop u))
    → Quiet st r
    → Quiet st (continue loop r)
Quiet-continue loop st none h q = tt
Quiet-continue loop st (some (u, [])) h q = Quiet-trans st u (loop u) q.0 q.1 (h u)
Quiet-continue loop st (some (u, x ∷ cycle)) h q = tt

pub Quiet-each :
    (visit_one : String → Search → Found)
    → ((d : String) (st : Search) → Quiet st (visit_one d st))
    → (ds : List String) (st : Search) → Quiet st (visit_each visit_one ds st)
unfolding visit_each
Quiet-each visit_one h [] st = (refl, refl)
Quiet-each visit_one h (d ∷ ds) st =
    Quiet-continue (visit_each visit_one ds) st (visit_one d st) (Quiet-each visit_one h ds)
      (h d st)

Quiet-close :
    (step_id : String) (st : Search) (r : Found)
    → Quiet (enter step_id st) r
    → Quiet st (close step_id r)
Quiet-close step_id st none q = tt
Quiet-close step_id st (some (u, [])) q =
    (rw (q.0, eq_refl), ap drop_last q.1 ∙ drop_last-append st.path step_id)
Quiet-close step_id st (some (u, x ∷ cycle)) q = tt

Quiet-cycle : (st : Search) (xs : List String) (y : String) → Quiet st (some (st, xs ++ y ∷ []))
Quiet-cycle st [] y = tt
Quiet-cycle st (x ∷ xs) y = tt

-- A visit that finds no cycle leaves the visiting set and the path as it found them.
pub visit-Quiet :
    (fuel : ℕ) (deps : Dict (List String)) (step_id : String) (st : Search)
    → Quiet st (visit fuel deps step_id st)
unfolding visit
visit-Quiet zero deps step_id st = tt
visit-Quiet (suc fuel) deps step_id st =
    if_intro (Quiet st) (contains st.visited step_id) (refl, refl)
      (if_intro (Quiet st) (contains st.visiting step_id)
        (Quiet-cycle st (from_index step_id st.path st.path) step_id)
        (Quiet-close step_id st _ (
          Quiet-each (visit fuel deps) (visit-Quiet fuel deps) (dependencies_of deps step_id)
            (enter step_id st))))
