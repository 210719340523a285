-- ===== src/Assistant/Rounds.antt =====
-- Where a round leads: what each route says of the state, and what entering plan mode leaves.
use runtime_assistant_agent.Base.{
  suc, ◌<◌, String, Bool, true, false, ◌&&◌, ◌≡◌, refl, ◌∙◌, ap, sym, subst, ◌⊎◌, inl, inr, Option,
  none, some, if◌then◌else◌, is_some, given, leb, if_intro, if_cases, Bool-cases, Option-cases,
  arith,
}
use runtime_assistant_agent.Plan.{TaskPlan, PlanValidationResult, validate}
use runtime_assistant_agent.Plan.Validate.{validate_total}
use runtime_assistant_agent.Actions.{
  DecisionType, final_answer, tool_call, ask_followup, enter_plan_mode, exit_plan_mode,
  AssistantDecision,
}
use runtime_assistant_agent.Assistant.{Env, LoopState, is_completed, is_failed, set_plan}
use runtime_assistant_agent.Assistant.PlanMode.{
  enter, by_verdict, adopt_plan, fail_plan_mode_transition, count_revision, ask_for_followup,
}
use runtime_assistant_agent.Assistant.Executes.{Core, core}
use runtime_assistant_agent.Assistant.Loop.{
  Route, finish, execute, enter_plan, exit_plan, route_call, route_type, route_decision,
  route_after_assistant, assistant_node, has_answer,
}

abbrev pub is_exit : DecisionType → Bool
is_exit exit_plan_mode = true
is_exit _ = false

-- what a route that goes on says of the state
abbrev pub Leads : Env → LoopState → Route → Type 0
Leads env s finish = Unit
Leads env s (execute d) =
    (has_answer s ≡ false)
    × (s.decision ≡ some d)
    × (s.iterations < env.max_tool_iterations)
    × (d.type ≡ tool_call)
Leads env s (enter_plan d) = has_answer s ≡ false
Leads env s (exit_plan d) = (has_answer s ≡ false) × (s.decision ≡ some d) × (is_exit d.type ≡ true)

route_call-Leads :
    (env : Env) (s : LoopState) (d : AssistantDecision)
    → has_answer s ≡ false
    → s.decision ≡ some d
    → d.type ≡ tool_call
    → Leads env s (route_call env s d)
route_call-Leads env s d unanswered e c =
    elim (Bool-cases (leb env.max_tool_iterations s.iterations)) [
      | inl over ↦ rw over tt
      | inr under ↦ rw under (
          if_intro (Leads env s) (is_some (given d.tool_name)) {x = execute d} {y = finish}
            (unanswered, e, ground arith, c) tt)
    ]

route_type-Leads :
    (env : Env) (s : LoopState) (d : AssistantDecision) (t : DecisionType)
    → has_answer s ≡ false
    → s.decision ≡ some d
    → d.type ≡ t
    → Leads env s (route_type env s d t)
route_type-Leads env s d enter_plan_mode u e h = u
route_type-Leads env s d exit_plan_mode u e h = (u, e, ap is_exit h)
route_type-Leads env s d tool_call u e h = route_call-Leads env s d u e h
route_type-Leads env s d final_answer u e h = tt
route_type-Leads env s d ask_followup u e h = tt

route_decision-Leads :
    (env : Env) (s : LoopState) (o : Option AssistantDecision)
    → has_answer s ≡ false
    → s.decision ≡ o
    → Leads env s (route_decision env s o)
route_decision-Leads env s none u e = tt
route_decision-Leads env s (some d) u e = route_type-Leads env s d d.type u e refl

pub route_after_assistant-Leads :
    (env : Env) (s : LoopState) → Leads env s (route_after_assistant env s)
unfolding route_after_assistant
route_after_assistant-Leads env s =
    if_intro (Leads env s) (is_failed s.agent.status) {x = finish}
      {y = if is_completed s.agent.status then finish else route_decision env s s.decision} tt
      (elim (Bool-cases (is_completed s.agent.status)) [
        | inl over ↦ rw over tt
        | inr running ↦ rw running (route_decision-Leads env s s.decision (rw running refl) refl)
      ])

-- A run that has its answer ends at the next visit.
pub answered_run_ends :
    (env : Env) (s : LoopState)
    → has_answer s ≡ true
    → route_after_assistant env (assistant_node env s) ≡ finish
unfolding assistant_node route_after_assistant
answered_run_ends env s h =
    let c : is_completed s.agent.status ≡ true = ground arith in
    rw h (
      rw c
        (if_intro (λ r. r ≡ finish) (is_failed s.agent.status) {x = finish} {y = finish} refl refl))

-- What entering plan mode leaves. Either the run has its answer, and the plan is as it was; or the plan
-- is one that the validator has accepted, which counts as a revision where there was a plan before.
abbrev pub Adopted : Env → LoopState → LoopState → Type 0
Adopted env s s' =
    (plan : TaskPlan) × (v : PlanValidationResult) × (s'.plan ≡ some plan)
    × (validate env.max_plan_steps plan env.registry ≡ some v)
    × (v.accepted ≡ true)
    × (s'.plan_revision_count
        ≡ (if is_some s.plan then suc s.plan_revision_count else s.plan_revision_count))
    × ((is_some s.plan && leb env.max_plan_revisions s.plan_revision_count) ≡ false)

abbrev pub Rejected : LoopState → LoopState → Type 0
Rejected s s' =
    (has_answer s' ≡ true) × (s'.plan ≡ s.plan) × (s'.plan_revision_count ≡ s.plan_revision_count)

abbrev pub Entered : Env → LoopState → LoopState → Type 0
Entered env s s' =
    (s'.iterations ≡ s.iterations)
    × (s'.agent.tool_calls ≡ s.agent.tool_calls)
    × (Rejected s s' ⊎ Adopted env s s')

abbrev Enters : Env → LoopState → Option LoopState → Type 0
Enters env s o = (s' : LoopState) × (o ≡ some s') × Entered env s s'

fails-Enters :
    (env : Env) (code : String) (s : LoopState)
    → Enters env s (some (fail_plan_mode_transition code s))
fails-Enters env code s =
    (fail_plan_mode_transition code s, refl, (refl, refl, inl (refl, refl, refl)))

ask_for_followup-core : (plan : TaskPlan) (s : LoopState) → core (ask_for_followup plan s) ≡ core s
ask_for_followup-core plan s = elim (Bool-cases plan.requires_followup) [
  | inl asks ↦ rw asks refl
  | inr runs ↦ rw runs refl
]

-- the core of a state that has adopted a plan
abbrev adopted_core : TaskPlan → LoopState → Core
adopted_core plan s = record {
  plan = some plan;
  revisions = if is_some s.plan then suc s.plan_revision_count else s.plan_revision_count;
  iterations = s.iterations;
  tool_calls = s.agent.tool_calls;
}

count_revision-core :
    (plan : TaskPlan) (s : LoopState)
    → core (set_plan plan (count_revision s)) ≡ adopted_core plan s
count_revision-core plan s = elim (Bool-cases (is_some s.plan)) [
  | inl planned ↦ rw planned refl
  | inr free ↦ rw free refl
]

adopt_plan-core : (plan : TaskPlan) (s : LoopState) → core (adopt_plan plan s) ≡ adopted_core plan s
adopt_plan-core plan s = ask_for_followup-core plan _ ∙ count_revision-core plan s

adopts-Enters :
    (env : Env) (plan : TaskPlan) (s : LoopState) (v : PlanValidationResult)
    → validate env.max_plan_steps plan env.registry ≡ some v
    → v.accepted ≡ true
    → (is_some s.plan && leb env.max_plan_revisions s.plan_revision_count) ≡ false
    → Enters env s (some (adopt_plan plan s))
adopts-Enters env plan s v e ok room =
    let k = adopt_plan-core plan s in
    (
      adopt_plan plan s,
      refl,
      (
        ap (λ (c : Core). c.iterations) k,
        ap (λ (c : Core). c.tool_calls) k,
        inr (plan, v, ap (λ (c : Core). c.plan) k, e, ok, ap (λ (c : Core). c.revisions) k, room),
      ),
    )

by_verdict-Enters :
    (env : Env) (plan : TaskPlan) (s : LoopState)
    → (is_some s.plan && leb env.max_plan_revisions s.plan_revision_count) ≡ false
    → Enters env s (by_verdict plan s (validate env.max_plan_steps plan env.registry))
by_verdict-Enters env plan s room =
    elim (Option-cases (validate env.max_plan_steps plan env.registry)) [
      | inl e ↦ absurd (validate_total env.max_plan_steps plan env.registry e)
      | inr (v, e) ↦
          subst (λ o. Enters env s (by_verdict plan s o)) (sym e)
            (elim (Bool-cases v.accepted) [
              | inl ok ↦ rw ok (adopts-Enters env plan s v e ok room)
              | inr bad ↦ rw bad (fails-Enters env v.code s)
            ])
    ]

pub enter-Enters :
    (env : Env) (s : LoopState) (o : Option TaskPlan)
    → (s' : LoopState) × (enter env s o ≡ some s') × Entered env s s'
enter-Enters env s none = fails-Enters env "planner_output_invalid" s
enter-Enters env s (some plan) =
    if_cases (Enters env s) (is_some s.plan && leb env.max_plan_revisions s.plan_revision_count)
      {x = some (fail_plan_mode_transition "plan_revision_limit_exceeded" s)}
      {y = by_verdict plan s (validate env.max_plan_steps plan env.registry)}
      (λ full. fails-Enters env "plan_revision_limit_exceeded" s)
      (λ room. by_verdict-Enters env plan s room)
