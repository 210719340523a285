-- ===== src/Executor/Added.antt =====
-- What one call adds to the lists of a run.
use runtime_assistant_agent.Base.{ℕ, suc, ◌≡◌, refl, some, [], ◌∷◌, ◌++◌, length, if_intro}
use runtime_assistant_agent.Executor.{
  AgentState, ToolResult, RetryPolicy, RecoveryPolicy, Call, blocked_result, succeeded, failed,
}
use runtime_assistant_agent.Executor.Calls.{
  run_one, run_tool-Ends, by_budget, by_tool, settled, blocked, length-added,
}

-- A call adds itself and one result.
abbrev pub Adds : AgentState → ToolResult → AgentState → Type 0
Adds s r a =
    (length a.tool_calls ≡ suc (length s.tool_calls)) × (a.tool_results ≡ s.tool_results ++ r ∷ [])

module _ (retry : RetryPolicy) (recovery : RecoveryPolicy) where
  settled-Adds : (q : Call) (r : ToolResult) (s : AgentState) → Adds s r (settled recovery q r s)
  settled-Adds q r s =
      if_intro (Adds s r) r.success (length-added s q succeeded, refl)
        (length-added s q failed, refl)

  pub run_one-Adds :
      (q : Call) (s : AgentState)
      → (a : AgentState) × (n : ℕ) × (r : ToolResult) × (run_one retry recovery q s ≡ some (a, n))
        × Adds s r a
  run_one-Adds q s = elim (run_tool-Ends retry recovery q s) [
    | by_budget code v e ↦
        (blocked code q s, 0, blocked_result q.tool_name code, e, (length-added s q failed, refl))
    | by_tool k v x e ↦ (
      settled recovery q (q.attempts k) s,
      suc k,
      q.attempts k,
      e,
      settled-Adds q (q.attempts k) s,
    )
  ]
