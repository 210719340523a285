-- ===== src/Executor/Limits.antt =====
-- What a run of tool calls keeps to.
use Prim.Native.Nat.{◌*◌}
use runtime_assistant_agent.Base.{
  ℕ, suc, ◌+◌, ◌-◌, ◌≤◌, String, ◌≡◌, refl, subst, sym, ap, ◌∙◌, Option, none, some, List, [], ◌∷◌,
  arith, if_intro,
}
use runtime_assistant_agent.Base.Dict.{lookup}
use runtime_assistant_agent.Budget.{
  ProviderCallBudget, provider_call_count, capability_call_count, input_bytes_total, record_call,
  call_record,
}
use runtime_assistant_agent.Budget.Totals.{IsWithin, Within, record_call-IsWithin, total-append}
use runtime_assistant_agent.Executor.{
  fresh, ToolResult, RetryPolicy, RecoveryPolicy, Call, AgentState, charge, capability_name,
  run_tools, status_name, add_tool_call,
}
use runtime_assistant_agent.Executor.Retry.{MayRetry}
use runtime_assistant_agent.Executor.Calls.{
  by_budget, by_tool, run_tool-Ends, IsSettled, settled, settled-IsSettled,
  fail_tool_call-IsSettled, run_one, verdict, blocked,
}

abbrev pub charged : Call → ToolResult → AgentState → ProviderCallBudget
charged q result s = (charge q result (add_tool_call q.tool_name s)).provider_budget

settled-budget :
    (recovery : RecoveryPolicy) (q : Call) (result : ToolResult) (s : AgentState)
    → (settled recovery q result s).provider_budget ≡ charged q result s
settled-budget recovery q result s =
    if_intro (λ (s' : AgentState). s'.provider_budget ≡ charged q result s) result.success refl refl

mul_le : (m c e : ℕ) → m * c ≤ m * (c + e)
mul_le m c e = omega arith

mul_mono : (m c d : ℕ) → c ≤ d → m * c ≤ m * d
mul_mono m c d h =
    let e : c + (d - c) ≡ d = omega arith in subst (λ x. m * c ≤ m * x) e (mul_le m c (d - c))

module _ (retry : RetryPolicy) (recovery : RecoveryPolicy) where
  -- What some calls leave of a sound state, after a number of attempts. The limits stay as they are, and
  -- attempts are paid for: each counted call has at most one attempt more than the retries allowed.
  pub record Follows (s s' : AgentState) (n : ℕ) : Type 0 where
    pub sound : IsSettled s'
    pub within : IsWithin s'.provider_budget
    pub same_calls :
        s'.provider_budget.max_provider_calls_per_run ≡ s.provider_budget.max_provider_calls_per_run
    pub same_capabilities :
        s'.provider_budget.max_calls_per_capability ≡ s.provider_budget.max_calls_per_capability
    pub same_bytes :
        s'.provider_budget.max_input_bytes_per_run ≡ s.provider_budget.max_input_bytes_per_run
    pub paid :
        n + suc retry.max_retries * provider_call_count s.provider_budget
        ≤ suc retry.max_retries * provider_call_count s'.provider_budget

  charged-count :
      (q : Call) (result : ToolResult) (s : AgentState)
      → provider_call_count (charged q result s) ≡ suc (provider_call_count s.provider_budget)
  unfolding record_call
  charged-count q result s =
      total-append (λ r. r.call_count) s.provider_budget.call_records
        (call_record (capability_name q.tool_name q.step) result.estimated_cost
          (some q.input_size_bytes) (status_name result.success))
      ∙ omega arith

  one_more : (k m c d : ℕ) → k ≤ m → d ≡ suc c → suc k + suc m * c ≤ suc m * d
  one_more k m c d h e = rw e (omega arith)

  charged-IsWithin :
      (q : Call) (result : ToolResult) (s : AgentState)
      → verdict q s ≡ none
      → IsWithin s.provider_budget
      → IsWithin (charged q result s)
  charged-IsWithin q result s v w =
      record_call-IsWithin (capability_name q.tool_name q.step) (status_name result.success)
        q.estimated_cost result.estimated_cost q.input_size_bytes s.provider_budget w v

  blocked-Follows :
      (code : String) (q : Call) (s : AgentState)
      → IsSettled s
      → IsWithin s.provider_budget
      → Follows s (blocked code q s) 0
  blocked-Follows code q s i w = record {
    sound = fail_tool_call-IsSettled q _ _ s s.provider_budget i;
    within = w;
    same_calls = refl;
    same_capabilities = refl;
    same_bytes = refl;
    paid = omega arith;
  }

  settled-Follows :
      (q : Call) (k : ℕ) (s : AgentState)
      → verdict q s ≡ none
      → k ≤ retry.max_retries
      → IsSettled s
      → IsWithin s.provider_budget
      → Follows s (settled recovery q (q.attempts k) s) (suc k)
  unfolding record_call
  settled-Follows q k s v b i w =
      let e = settled-budget recovery q (q.attempts k) s in
      record {
        sound = settled-IsSettled recovery q (q.attempts k) s i;
        within = subst IsWithin (sym e) (charged-IsWithin q (q.attempts k) s v w);
        same_calls = ap (λ b. b.max_provider_calls_per_run) e;
        same_capabilities = ap (λ b. b.max_calls_per_capability) e;
        same_bytes = ap (λ b. b.max_input_bytes_per_run) e;
        paid =
            one_more k retry.max_retries _ _ b
              (ap provider_call_count e ∙ charged-count q (q.attempts k) s);
      }

  run_tool-Follows :
      (q : Call) (s : AgentState)
      → IsSettled s
      → IsWithin s.provider_budget
      → (s' : AgentState) × (n : ℕ) × (run_one retry recovery q s ≡ some (s', n)) × Follows s s' n
  run_tool-Follows q s i w = elim (run_tool-Ends retry recovery q s) [
    | by_budget code v e ↦ (blocked code q s, 0, e, blocked-Follows code q s i w)
    | by_tool k v x e ↦
        (settled recovery q (q.attempts k) s, suc k, e, settled-Follows q k s v x.bounded i w)
  ]

  Follows-refl : (s : AgentState) → IsSettled s → IsWithin s.provider_budget → Follows s s 0
  Follows-refl s i w = record {
    sound = i;
    within = w;
    same_calls = refl;
    same_capabilities = refl;
    same_bytes = refl;
    paid = omega arith;
  }

  Follows-trans :
      (s s' s'' : AgentState) (n m : ℕ) → Follows s s' n → Follows s' s'' m → Follows s s'' (n + m)
  Follows-trans s s' s'' n m f g = record {
    sound = g.sound;
    within = g.within;
    same_calls = g.same_calls ∙ f.same_calls;
    same_capabilities = g.same_capabilities ∙ f.same_capabilities;
    same_bytes = g.same_bytes ∙ f.same_bytes;
    paid = omega (arith, f.paid, g.paid);
  }

  run_tools-Follows :
      (qs : List Call) (s : AgentState)
      → IsSettled s
      → IsWithin s.provider_budget
      → (s' : AgentState) × (n : ℕ) × (run_tools (suc retry.max_retries) retry recovery qs s
          ≡ some (s', n))
        × Follows s s' n
  unfolding run_tools
  run_tools-Follows [] s i w = (s, 0, refl, Follows-refl s i w)
  run_tools-Follows (q ∷ qs) s i w =
      let (s', n, e, f) = run_tool-Follows q s i w in
      let (s'', m, e', g) = run_tools-Follows qs s' f.sound f.within in
      (s'', n + m, rw (run_tools, e, e') refl, Follows-trans s s' s'' n m f g)

  Within-zero : (l : Option ℕ) → Within l 0
  Within-zero none = tt
  Within-zero (some l) = omega arith

  fresh-IsSettled : (b : ProviderCallBudget) → IsSettled (fresh b)
  fresh-IsSettled b = record { done = refl; results = refl; explained = refl }

  fresh-IsWithin : (b : ProviderCallBudget) → IsWithin (fresh b).provider_budget
  fresh-IsWithin b = record {
    calls = omega arith;
    capabilities = λ c. Within-zero (lookup c b.max_calls_per_capability);
    bytes = Within-zero b.max_input_bytes_per_run;
  }

  -- Whatever tools a new run calls, the run ends with fuel for every retry, and no total is above its
  -- limit: not the calls of the run, not those of a capability, and not the bytes of input. The attempts,
  -- retries included, are at most the limit of calls times one more than the retries allowed.
  pub tool_calls_keep_to_budget :
      (qs : List Call) (b : ProviderCallBudget)
      → (s : AgentState) × (n : ℕ) × (run_tools (suc retry.max_retries) retry recovery qs (fresh b)
          ≡ some (s, n))
        × (provider_call_count s.provider_budget ≤ b.max_provider_calls_per_run)
        × ((c : String)
            → Within
                (lookup c b.max_calls_per_capability)
                (capability_call_count c s.provider_budget))
        × Within b.max_input_bytes_per_run (input_bytes_total s.provider_budget)
        × (n ≤ suc retry.max_retries * b.max_provider_calls_per_run)
  tool_calls_keep_to_budget qs b =
      let (s, n, e, f) = run_tools-Follows qs (fresh b) (fresh-IsSettled b) (fresh-IsWithin b) in
      let few : provider_call_count s.provider_budget ≤ b.max_provider_calls_per_run =
        subst (λ m. provider_call_count s.provider_budget ≤ m) f.same_calls f.within.calls in
      (
        s,
        n,
        e,
        few,
        λ c.
            subst (λ d. Within (lookup c d) (capability_call_count c s.provider_budget))
              f.same_capabilities (f.within.capabilities c),
        subst (λ l. Within l (input_bytes_total s.provider_budget)) f.same_bytes f.within.bytes,
        omega (arith, f.paid, mul_mono (suc retry.max_retries) _ _ few),
      )

  -- Whatever tools a new run calls, in the end no call is left running, every call has a result, and
  -- there is one error for each call that failed.
  pub every_call-IsSettled :
      (qs : List Call) (b : ProviderCallBudget)
      → (s : AgentState) × (n : ℕ) × (run_tools (suc retry.max_retries) retry recovery qs (fresh b)
          ≡ some (s, n))
        × IsSettled s
  every_call-IsSettled qs b =
      let (s, n, e, f) = run_tools-Follows qs (fresh b) (fresh-IsSettled b) (fresh-IsWithin b) in
      (s, n, e, f.sound)

  -- A tool that fails at every attempt with an error that may be retried is tried one time more than the
  -- retries allowed, and the budget counts one call.
  pub retries_are_not_counted :
      (q : Call) (s : AgentState)
      → verdict q s ≡ none
      → ((j : ℕ) → MayRetry retry q.attempts j)
      → (s' : AgentState) × (run_one retry recovery q s ≡ some (s', suc retry.max_retries))
        × (provider_call_count s'.provider_budget ≡ suc (provider_call_count s.provider_budget))
  retries_are_not_counted q s v m = elim (run_tool-Ends retry recovery q s) [
    | by_budget code w e ↦ cc
    | by_tool k w x e ↦ (
      settled recovery q (q.attempts k) s,
      e
          ∙ ap (λ n. some (settled recovery q (q.attempts k) s, suc n))
              (ground (arith, x.final, m k)),
      ap provider_call_count (settled-budget recovery q (q.attempts k) s)
          ∙ charged-count q (q.attempts k) s,
    )
  ]
