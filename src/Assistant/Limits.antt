-- ===== src/Assistant/Limits.antt =====
-- The limits that a run of the loop keeps to.
use Prim.Native.Nat.{◌-◌}
use runtime_assistant_agent.Base.{
  ℕ, zero, suc, ◌≤◌, ◌<◌, ◌≡◌, ◌∙◌, ap, refl, ◌⊎◌, inl, inr, Option, none, some, length, arith,
}
use runtime_assistant_agent.Budget.{ProviderCallBudget}
use runtime_assistant_agent.Assistant.{Env, LoopState, start}
use runtime_assistant_agent.Assistant.PlanMode.{exit}
use runtime_assistant_agent.Assistant.Loop.{
  Route, finish, execute, enter_plan, exit_plan, route_after_assistant, assistant_node, run_loop,
  run_for, follow, go_on,
}
use runtime_assistant_agent.Assistant.Keeps.{assistant_node-Visited}
use runtime_assistant_agent.Assistant.Executes.{Core, core, exit-core, execute_tool-Comes, Executed}
use runtime_assistant_agent.Assistant.Unended.{run_loop-run_for}
use runtime_assistant_agent.Assistant.Rounds.{
  Leads, route_after_assistant-Leads, Entered, enter-Enters,
}

module _ (env : Env) where
  -- The calls are fewer than the limit, and no more than the visits; and revisions keep to theirs.
  pub record IsLimited (s : LoopState) : Type 0 where
    pub calls : length s.agent.tool_calls ≤ env.max_tool_iterations - 1
    pub visits : length s.agent.tool_calls ≤ s.iterations
    pub revisions : s.plan_revision_count ≤ env.max_plan_revisions

  IsLimited-of_core : (s s' : LoopState) → core s' ≡ core s → IsLimited s → IsLimited s'
  IsLimited-of_core s s' e h =
      let calls : length s'.agent.tool_calls ≡ length s.agent.tool_calls =
        ap (λ (c : Core). length c.tool_calls) e in
      record {
        calls = omega (arith, calls, h.calls);
        visits = omega (arith, calls, h.visits, ap (λ (c : Core). c.iterations) e);
        revisions = omega (arith, h.revisions, ap (λ (c : Core). c.revisions) e);
      }

  assistant_node-IsLimited : (s : LoopState) → IsLimited s → IsLimited (assistant_node env s)
  assistant_node-IsLimited s h =
      let v = assistant_node-Visited env s in
      record {
        calls = omega (arith, ap length v.0, h.calls);
        visits = omega (arith, ap length v.0, h.visits, v.4);
        revisions = omega (arith, h.revisions, v.2);
      }

  execute_tool-IsLimited :
      (s s' : LoopState)
      → Executed s s'
      → s.iterations < env.max_tool_iterations
      → suc (length s.agent.tool_calls) ≤ s.iterations
      → IsLimited s
      → IsLimited s'
  execute_tool-IsLimited s s' x under visits h = record {
    calls = omega (arith, x.3);
    visits = omega (arith, x.3, x.2);
    revisions = omega (arith, x.1, h.revisions);
  }

  Entered-IsLimited : (s s' : LoopState) → Entered env s s' → IsLimited s → IsLimited s'
  Entered-IsLimited s s' (i, c, inl r) h = record {
    calls = omega (arith, ap length c, h.calls);
    visits = omega (arith, ap length c, i, h.visits);
    revisions = omega (arith, r.2, h.revisions);
  }
  Entered-IsLimited s s' (i, c, inr (plan, v, p, e, ok, revised, room)) h = record {
    calls = omega (arith, ap length c, h.calls);
    visits = omega (arith, ap length c, i, h.visits);
    revisions = ground (arith, revised, room, h.revisions);
  }

  -- The rest of a run comes to a state within the limits.
  abbrev Stays : (LoopState → Option LoopState) → LoopState → Type 0
  Stays rest t = (s' : LoopState) × (rest t ≡ some s') × IsLimited s'

  follow-Stays :
      (rest : LoopState → Option LoopState) (s : LoopState) (r : Route)
      → ((t : LoopState) → IsLimited t → Stays rest t)
      → Leads env s r
      → suc (length s.agent.tool_calls) ≤ s.iterations
      → IsLimited s
      → (s' : LoopState) × (follow env rest s r ≡ some s') × IsLimited s'
  follow-Stays rest s finish k l v h = (s, refl, h)
  follow-Stays rest s (execute d) k l v h =
      let (t, f, x) = execute_tool-Comes env d s in
      let (s', g, h') = k t (execute_tool-IsLimited s t x l.2 v h) in
      (s', ap (go_on rest) f ∙ g, h')
  follow-Stays rest s (enter_plan d) k l v h =
      let (t, f, x) = enter-Enters env s d.plan in
      let (s', g, h') = k t (Entered-IsLimited s t x h) in (s', ap (go_on rest) f ∙ g, h')
  follow-Stays rest s (exit_plan d) k l v h =
      k (exit d s) (IsLimited-of_core s (exit d s) (exit-core d s) h)

  run_for-Stays : (rounds : ℕ) (t : LoopState) → IsLimited t → Stays (run_for rounds env) t
  unfolding run_for
  run_for-Stays zero t h = (t, refl, h)
  run_for-Stays (suc rounds) t h =
      let v = assistant_node-Visited env t in
      let s = assistant_node env t in
      follow-Stays (run_for rounds env) s (route_after_assistant env s) (run_for-Stays rounds)
        (route_after_assistant-Leads env s) (omega (arith, ap length v.0, h.visits, v.4))
        (assistant_node-IsLimited t h)

  -- Whatever the model answers and whatever the tools do, a run that goes on as well as one that has
  -- ended: after any number of rounds the run has come to a state, which is the result of the loop
  -- where the loop has ended within these rounds, and in this state the tool calls are fewer than
  -- the limit on iterations (none, where the limit is 0), and the revisions of the plan do not
  -- exceed their limit.
  pub calls_stay_below_limit :
      (rounds : ℕ) (budget : ProviderCallBudget)
      → (s : LoopState) × (run_for rounds env (start budget) ≡ some s)
        × ((run_loop rounds env (start budget) ≡ none)
            ⊎ (run_loop rounds env (start budget) ≡ some s))
        × (length s.agent.tool_calls ≤ env.max_tool_iterations - 1)
        × (s.plan_revision_count ≤ env.max_plan_revisions)
  calls_stay_below_limit rounds budget =
      let at_start : IsLimited (start budget) = record {
        calls = omega arith;
        visits = omega arith;
        revisions = omega arith;
      } in
      let (s, e, h) = run_for-Stays rounds (start budget) at_start in
      (s, e, run_loop-run_for env rounds (start budget) s e, h.calls, h.revisions)
