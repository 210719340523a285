-- ===== src/Assistant/Unended.antt =====
-- A run of some rounds, whether the loop has ended within them or not.
use runtime_assistant_agent.Base.{ℕ, zero, suc, ◌≡◌, refl, ◌∙◌, ◌⊎◌, inl, inr, Option, none, some}
use runtime_assistant_agent.Assistant.{Env, LoopState}
use runtime_assistant_agent.Assistant.PlanMode.{enter, exit}
use runtime_assistant_agent.Assistant.Execute.{execute_tool}
use runtime_assistant_agent.Assistant.Loop.{
  Route, finish, execute, enter_plan, exit_plan, route_after_assistant, assistant_node, run_loop,
  run_for, follow, go_on,
}

-- One result is none, or it is the other.
abbrev Within : Option LoopState → Option LoopState → Type 0
Within o p = (o ≡ none) ⊎ (o ≡ p)

module _ (rest longer : LoopState → Option LoopState)
    (k : (s : LoopState) → Within (rest s) (longer s)) where
  go_on-Within : (o : Option LoopState) → Within (go_on rest o) (go_on longer o)
  go_on-Within none = inl refl
  go_on-Within (some s) = k s

  follow-Within :
      (env : Env) (s : LoopState) (r : Route) → Within (follow env rest s r) (follow env longer s r)
  follow-Within env s finish = inr refl
  follow-Within env s (execute d) = go_on-Within (execute_tool env d s)
  follow-Within env s (enter_plan d) = go_on-Within (enter env s d.plan)
  follow-Within env s (exit_plan d) = k (exit d s)

run_loop-Within :
    (env : Env) (rounds : ℕ) (s : LoopState) → Within (run_loop rounds env s) (run_for rounds env s)
unfolding run_loop run_for
run_loop-Within env zero s = inl refl
run_loop-Within env (suc rounds) s =
    follow-Within (run_loop rounds env) (run_for rounds env) (run_loop-Within env rounds) env
      (assistant_node env s) (route_after_assistant env (assistant_node env s))

-- The loop has ended within some rounds in the state after them, or it has not ended.
pub run_loop-run_for :
    (env : Env) (rounds : ℕ) (s t : LoopState)
    → run_for rounds env s ≡ some t
    → (run_loop rounds env s ≡ none) ⊎ (run_loop rounds env s ≡ some t)
run_loop-run_for env rounds s t e = elim (run_loop-Within env rounds s) [
  | inl more ↦ inl more
  | inr same ↦ inr (same ∙ e)
]
