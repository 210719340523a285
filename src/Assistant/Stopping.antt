-- ===== src/Assistant/Stopping.antt =====
-- What a failed call does to a run.
use runtime_assistant_agent.Base.{
  String, Bool, true, false, not, ◌&&◌, ◌||◌, ◌≡◌, refl, ◌∙◌, ap, Option, [], ◌∷◌, ◌++◌,
  if◌then◌else◌, if_intro, if_cases, Bool-cases, inl, inr, arith,
}
use runtime_assistant_agent.Plan.{TaskStep}
use runtime_assistant_agent.Executor.{ToolResult, is_optional}
use runtime_assistant_agent.LoopGuard.{LoopGuard, LoopGuardDecision, failures, record_tool_result}
use runtime_assistant_agent.LoopGuard.Counts.{Results, open_failures, record_tool_result-Counts}
use runtime_assistant_agent.Assistant.{
  LoopState, is_plan_mode_active, is_completed, is_failed, set_response,
}
use runtime_assistant_agent.Assistant.Execute.{stop_repeated, note_result}

-- the results that the guard has on record: those of the steps that may fail are left out
abbrev pub on_record : Option TaskStep → String → ToolResult → Results → Results
on_record step tool r results =
    if is_optional step then results else results ++ (tool, r.success) ∷ []

-- a failure that ends the run
abbrev pub is_fatal : Option TaskStep → ToolResult → LoopState → Bool
is_fatal step r s =
    not (is_optional step)
    && (not r.success && (not (is_plan_mode_active s) && not (is_failed s.agent.status)))

record_tool_result-triggered :
    (tool : String) (success : Bool) (g : LoopGuard)
    → (record_tool_result tool success g).1.triggered ≡ not success
unfolding record_tool_result
record_tool_result-triggered tool true g = refl
record_tool_result-triggered tool false g = ground arith

stop_repeated-guard : (v : LoopGuardDecision) (s : LoopState) → (stop_repeated v s).guard ≡ s.guard
stop_repeated-guard v s =
    if_intro (λ (t : LoopState). t.guard ≡ s.guard)
      (v.triggered && (not (is_plan_mode_active s) && not (is_failed s.agent.status)))
      {x = set_response _ s} {y = s} refl refl

true_or : (a b : Bool) → b ≡ true → true ≡ (a || b)
true_or a b h = ground arith

or_false : (a b : Bool) → b ≡ false → a ≡ (a || b)
or_false a b h = ground arith

stop_repeated-completed :
    (v : LoopGuardDecision) (s : LoopState)
    → is_completed (stop_repeated v s).agent.status ≡ (
        is_completed s.agent.status
        || (v.triggered && (not (is_plan_mode_active s) && not (is_failed s.agent.status))))
stop_repeated-completed v s =
    let stops = v.triggered && (not (is_plan_mode_active s) && not (is_failed s.agent.status)) in
    if_cases
      (λ (t : LoopState). is_completed t.agent.status ≡ (is_completed s.agent.status || stops))
      stops {x = set_response _ s} {y = s} (true_or (is_completed s.agent.status) stops)
      (or_false (is_completed s.agent.status) stops)

-- After a result that the guard is told of, where its counts have been right before, they are right
-- again: for each tool the failures that no later success of the tool follows, apart from results of
-- optional steps, which do not count. And the run is complete if it was before, or if the result is a
-- failure of a step that is not optional, or of none, outside plan mode, in a run that has not failed
-- already; in plan mode and at an optional step a failure does not stop the run.
pub failed_call_stops_run :
    (step : Option TaskStep) (tool : String) (r : ToolResult) (results : Results) (s : LoopState)
    → ((t : String) → failures t s.guard ≡ open_failures t results)
    → ((t : String)
        → failures t (note_result step tool r s).guard
          ≡ open_failures t (on_record step tool r results))
      × (is_completed (note_result step tool r s).agent.status
          ≡ (is_completed s.agent.status || is_fatal step r s))
failed_call_stops_run step tool r results s counts =
    let verdict = record_tool_result tool r.success s.guard in
    let s' = record s { guard = verdict.0 } in
    elim (Bool-cases (is_optional step)) [
      | inl optional ↦ rw optional (counts, or_false (is_completed s.agent.status) false refl)
      | inr needed ↦ rw needed (
        λ t.
            ap (failures t) (stop_repeated-guard verdict.1 s')
            ∙ record_tool_result-Counts tool r.success results s.guard counts t,
        stop_repeated-completed verdict.1 s'
            ∙ ap
                (λ b.
                  is_completed s.agent.status
                  || (b && (not (is_plan_mode_active s) && not (is_failed s.agent.status))))
                (record_tool_result-triggered tool r.success s.guard),
      )
    ]
