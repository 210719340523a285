-- ===== src/Assistant/Ending.antt =====
-- When the loop ends: what ends it within the limits, and what does not.
use Prim.Native.Nat.{◌-◌}
use runtime_assistant_agent.Base.{
  ℕ, zero, suc, ◌+◌, ◌≤◌, ◌<◌, Bool, true, false, ◌≡◌, refl, ◌∙◌, ap, sym, inl, inr, Option, some,
  if◌then◌else◌, is_some, Bool-cases, arith,
}
use mathlib.Core.Bool.{false≢true}
use runtime_assistant_agent.Base.Strings.{strip_text}
use runtime_assistant_agent.Actions.{AssistantDecision}
use runtime_assistant_agent.Budget.{ProviderCallBudget}
use runtime_assistant_agent.Assistant.{Env, LoopState, start}
use runtime_assistant_agent.Assistant.Decide.{raw_output}
use runtime_assistant_agent.Assistant.Loop.{
  Route, finish, execute, enter_plan, exit_plan, route_after_assistant, assistant_node, run_loop,
  follow, go_on, has_answer,
}
use runtime_assistant_agent.Assistant.Keeps.{Visited, assistant_node-Visited}
use runtime_assistant_agent.Assistant.Executes.{execute_tool-Comes, Executed}
use runtime_assistant_agent.Assistant.Rounds.{
  is_exit, Leads, route_after_assistant-Leads, answered_run_ends, Entered, Adopted, enter-Enters,
}
use runtime_assistant_agent.Assistant.Staying.{Decides, assistant_node-Decides}

module _ (env : Env) where
  -- the plans that may still be adopted
  abbrev plans_left : LoopState → ℕ
  plans_left s =
      (env.max_plan_revisions - s.plan_revision_count) + (if is_some s.plan then 0 else 1)

  -- the rounds that may still follow
  abbrev rounds_left : LoopState → ℕ
  rounds_left s =
      (env.max_tool_iterations - s.iterations) + plans_left s + (if has_answer s then 0 else 1)

  plans_left_mono :
      (s s' : LoopState)
      → s'.plan_revision_count ≡ s.plan_revision_count
      → (is_some s.plan ≡ true → s'.plan ≡ s.plan)
      → plans_left s' ≤ plans_left s
  plans_left_mono s s' r p = elim (Bool-cases (is_some s.plan)) [
    | inl planned ↦ ground (arith, r, ap is_some (p planned))
    | inr free ↦ ground (arith, r)
  ]

  flag_le : (b : Bool) → (if b then 0 else 1) ≤ 1
  flag_le b = ground arith

  Adopted-plans_left : (t u : LoopState) → Adopted env t u → plans_left u < plans_left t
  Adopted-plans_left t u (plan, w, p, e, ok, r, room) = ground (arith, ap is_some p, r, room)

  -- a round with a call of a tool
  execute-rounds_left :
      (s t u : LoopState)
      → Visited s t
      → has_answer s ≡ false
      → t.iterations < env.max_tool_iterations
      → Executed t u
      → rounds_left u < rounds_left s
  execute-rounds_left s t u v unanswered under x =
      let a = plans_left_mono s t v.2 v.5 in
      let b = plans_left_mono t u x.1 (λ h. x.0) in
      rw unanswered (omega (arith, a, b, v.4, x.2, flag_le (has_answer u)))

  enter-rounds_left :
      (s t u : LoopState)
      → Visited s t
      → has_answer s ≡ false
      → Entered env t u
      → rounds_left u < rounds_left s
  enter-rounds_left s t u v unanswered (i, c, inl r) =
      let a = plans_left_mono s t v.2 v.5 in
      let b = plans_left_mono t u r.2 (λ h. r.1) in
      rw (unanswered, r.0) (omega (arith, a, b, v.4, i))
  enter-rounds_left s t u v unanswered (i, c, inr a) =
      let b = plans_left_mono s t v.2 v.5 in
      let d = Adopted-plans_left t u a in
      rw unanswered (omega (arith, b, d, v.4, i, flag_le (has_answer u)))

module _ (env : Env) (parsed : (n : ℕ) → is_exit (env.parse (raw_output (env.chat n))).type ≡ false)
    (stripped : (n : ℕ)
      → is_exit (env.parse (strip_text (env.chat n).response_text)).type ≡ false) where
  abbrev Ended : (LoopState → Option LoopState) → LoopState → Type 0
  Ended rest s = (s' : LoopState) × (rest s ≡ some s')

  follow-ends :
      (rest : LoopState → Option LoopState) (s t : LoopState) (r : Route)
      → ((u : LoopState) → rounds_left env u < rounds_left env s → Ended rest u)
      → has_answer s ≡ false
      → Visited s t
      → Decides env parsed stripped t
      → Leads env t r
      → (s' : LoopState) × (follow env rest t r ≡ some s')
  follow-ends rest s t finish k h v d l = (t, refl)
  follow-ends rest s t (execute d) k h v e l =
      let (u, f, x) = execute_tool-Comes env d t in
      let (s', g) = k u (execute-rounds_left env s t u v h l.2 x) in (s', ap (go_on rest) f ∙ g)
  follow-ends rest s t (enter_plan d) k h v e l =
      let (u, f, x) = enter-Enters env t d.plan in
      let (s', g) = k u (enter-rounds_left env s t u v h x) in (s', ap (go_on rest) f ∙ g)
  follow-ends rest s t (exit_plan d) k h v (d', e, stay) l =
      let same : d' ≡ d = cc in
      absurd (false≢true (sym stay ∙ ap (λ (x : AssistantDecision). is_exit x.type) same ∙ l.2))

  run_loop-ends :
      (fuel : ℕ) (s : LoopState) → rounds_left env s < fuel → Ended (run_loop fuel env) s
  unfolding run_loop
  run_loop-ends zero s h = absurd (omega arith)
  run_loop-ends (suc fuel) s h =
      let t = assistant_node env s in
      elim (Bool-cases (has_answer s)) [
        | inl over ↦ (t, ap (follow env (run_loop fuel env) t) (answered_run_ends env s over))
        | inr unanswered ↦
            follow-ends (run_loop fuel env) s t (route_after_assistant env t)
              (λ u less. run_loop-ends fuel u (omega arith)) unanswered
              (assistant_node-Visited env s) (assistant_node-Decides env parsed stripped s)
              (route_after_assistant-Leads env t)
      ]

  -- A run of the loop ends, whatever the tools do, if none of the model's answers in this run is read as a
  -- decision that leaves plan mode, neither its text as it is nor without the whitespace around it: fuel
  -- for as many rounds as the limits on iterations and on revisions of the plan together, and three
  -- more, is enough. What other texts are read as does not matter.
  pub loop_ends :
      (budget : ProviderCallBudget)
      → (s : LoopState) × (run_loop
            (env.max_tool_iterations + env.max_plan_revisions + 3)
            env
            (start budget)
          ≡ some s)
  loop_ends budget =
      run_loop-ends (env.max_tool_iterations + env.max_plan_revisions + 3) (start budget)
        (omega arith)
