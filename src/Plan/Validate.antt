-- ===== src/Plan/Validate.antt =====
-- What the validator's verdicts mean.
use runtime_assistant_agent.Base.{
  ℕ, ◌≤◌, ◌<◌, String, Bool, true, false, not, ◌≡◌, ◌≢◌, refl, sym, ◌∙◌, Option, none, some, List,
  [], ◌∷◌, arith, ◌==◌, eq_iff, eq_refl, contains, Option-cases, Bool-cases, inl, inr, length, All,
  any, is_some, given, ltb, ne_of_test, ◌⊎◌,
}
use runtime_assistant_agent.Base.Dict.{Dict, lookup, insert, lookup-insert}
use runtime_assistant_agent.Plan.{
  TaskStep, TaskPlan, Search, Found, keys, first_cycle, dependencies, collect, PlanValidationResult,
  validate, first_error, step_error, tool_error, step_ids, has_duplicates, finish, is_empty,
}
use runtime_assistant_agent.Plan.Total.{first_cycle-Answered}
use runtime_assistant_agent.Plan.Order.{AllIn, IsOrder, acyclic-IsOrder}
use runtime_assistant_agent.Plan.Cycle.{IsCycle, reported-IsCycle}

-- the tool of a step, if it names one, is registered
abbrev pub HasTool : List String → Option String → Type 0
HasTool tools none = Unit
HasTool tools (some tool) = contains tools tool ≡ true

-- Each step depends on steps of the plan only, and names a registered tool or none.
abbrev pub IsKnown : List String → List String → TaskStep → Type 0
IsKnown known tools s = AllIn s.depends_on known × HasTool tools s.tool_name

known_dependencies :
    (known ds : List String) → any (λ d. not (contains known d)) ds ≡ false → AllIn ds known
known_dependencies known [] h = tt
known_dependencies known (d ∷ ds) h = ground (arith, known_dependencies known ds)

tool_error-none :
    (tools : List String) (t : Option String) → tool_error tools t ≡ none → HasTool tools t
tool_error-none tools none h = tt
tool_error-none tools (some tool) h = ground arith

step_error-none :
    (known tools : List String) (s : TaskStep)
    → step_error known tools s ≡ none
    → IsKnown known tools s
step_error-none known tools s h = (
  known_dependencies known s.depends_on (ground arith),
  tool_error-none tools s.tool_name (ground arith),
)

first_error-none :
    (known tools : List String) (steps : List TaskStep)
    → first_error known tools steps ≡ none
    → All (IsKnown known tools) steps
unfolding first_error
first_error-none known tools [] h = tt
first_error-none known tools (s ∷ rest) h =
    (step_error-none known tools s (ground arith), first_error-none known tools rest (ground arith))

-- no text stands twice
abbrev pub IsUnique : List String → Type 0
IsUnique [] = Unit
IsUnique (x ∷ xs) = (contains xs x ≡ false) × IsUnique xs

has_duplicates-IsUnique : (xs : List String) → has_duplicates xs ≡ false → IsUnique xs
has_duplicates-IsUnique [] h = tt
has_duplicates-IsUnique (x ∷ xs) h = (ground arith, has_duplicates-IsUnique xs (ground arith))

-- the tests that an accepted plan has passed
record Passed (max_steps : ℕ) (tools : List String) (plan : TaskPlan) (r : PlanValidationResult)
    : Type 0 where
  some_step : is_empty plan.steps ≡ false
  small : ltb max_steps (length plan.steps) ≡ false
  unique : has_duplicates (step_ids plan.steps) ≡ false
  known : first_error (step_ids plan.steps) tools plan.steps ≡ none
  finished : finish plan.steps (first_cycle plan.steps) ≡ some r

validate-Passed :
    (max_steps : ℕ) (plan : TaskPlan) (tools : List String) (r : PlanValidationResult)
    → plan.requires_followup ≡ false
    → r.accepted ≡ true
    → validate max_steps plan tools ≡ some r
    → Passed max_steps tools plan r
unfolding validate
validate-Passed max_steps plan tools r q a h = record {
  some_step = ground arith;
  small = ground arith;
  unique = ground arith;
  known = ground arith;
  finished = ground arith;
}

abbrev pub is_executable : TaskStep → Bool
is_executable s = is_some (given s.tool_name)

finish-accepted :
    (steps : List TaskStep) (f : Found) (r : PlanValidationResult)
    → r.accepted ≡ true
    → finish steps f ≡ some r
    → (st : Search) × (f ≡ some (st, [])) × (any is_executable steps ≡ true)
finish-accepted steps none r a h = cc
finish-accepted steps (some (st, x ∷ c)) r a h = ground arith
finish-accepted steps (some (st, [])) r a h = (st, refl, ground arith)

nonempty : (steps : List TaskStep) → is_empty steps ≡ false → 0 < length steps
unfolding is_empty
nonempty [] h = cc
nonempty (s ∷ rest) h = omega arith

lookup-collect :
    (d : Dict (List String)) (steps : List TaskStep) (x : String)
    → contains (step_ids steps) x ≡ false
    → lookup x (collect d steps) ≡ lookup x d
lookup-collect d [] x h = refl
lookup-collect d (s ∷ rest) x h =
    lookup-collect (insert s.step_id s.depends_on d) rest x (ground arith)
    ∙ (rw lookup-insert (ground arith))

lookup-dependencies :
    (d : Dict (List String)) (steps : List TaskStep)
    → IsUnique (step_ids steps)
    → All (λ s. lookup s.step_id (collect d steps) ≡ some s.depends_on) steps
lookup-dependencies d [] u = tt
lookup-dependencies d (s ∷ rest) u = (
  lookup-collect (insert s.step_id s.depends_on d) rest s.step_id u.0 ∙ rw (lookup-insert, eq_refl),
  lookup-dependencies (insert s.step_id s.depends_on d) rest u.1,
)

contains-keys :
    (x : String) (v : List String) (d : Dict (List String))
    → lookup x d ≡ some v
    → contains (keys d) x ≡ true
unfolding lookup
contains-keys x v [] h = cc
contains-keys x v ((k, w) ∷ d) h = ground (arith, contains-keys x v d)

AllIn-contains :
    (xs ys : List String) (a : String) → AllIn xs ys → contains xs a ≡ true → contains ys a ≡ true
AllIn-contains [] ys a h c = cc
AllIn-contains (x ∷ xs) ys a h c = elim (Bool-cases (x == a)) [
  | inl same ↦ rw (← (eq_iff x a).0 same) h.0
  | inr other ↦ AllIn-contains xs ys a h.1 (ground arith)
]

steps-AllIn :
    (d : Dict (List String)) (order : List String) (steps : List TaskStep)
    → AllIn (keys d) order
    → All (λ s. lookup s.step_id d ≡ some s.depends_on) steps
    → AllIn (step_ids steps) order
steps-AllIn d order [] h l = tt
steps-AllIn d order (s ∷ rest) h l = (
  AllIn-contains (keys d) order s.step_id h (contains-keys s.step_id s.depends_on d l.0),
  steps-AllIn d order rest h l.1,
)

-- A plan that can be run: a list of all its steps in which what a step depends on stands behind it.
abbrev pub HasOrder : List TaskStep → Type 0
HasOrder steps =
    (order : List String) × IsOrder (dependencies steps) order × AllIn (step_ids steps) order

-- A plan that needs no follow-up and is accepted has between one and `max_steps` steps with different
-- ids, depends on its own steps only, names registered tools only and one tool at least, its
-- dependencies are those that the steps state, and they can be met: there is an order of all the steps
-- in which whatever a step depends on comes before it.
pub accepted_plan_is_executable :
    (max_steps : ℕ) (plan : TaskPlan) (tools : List String) (r : PlanValidationResult)
    → plan.requires_followup ≡ false
    → r.accepted ≡ true
    → validate max_steps plan tools ≡ some r
    → (0 < length plan.steps)
      × (length plan.steps ≤ max_steps)
      × IsUnique (step_ids plan.steps)
      × All (IsKnown (step_ids plan.steps) tools) plan.steps
      × (any is_executable plan.steps ≡ true)
      × All (λ s. lookup s.step_id (dependencies plan.steps) ≡ some s.depends_on) plan.steps
      × HasOrder plan.steps
accepted_plan_is_executable max_steps plan tools r q a h =
    let p = validate-Passed max_steps plan tools r q a h in
    let (st, quiet, tool) = finish-accepted plan.steps (first_cycle plan.steps) r a p.finished in
    let o = acyclic-IsOrder plan.steps st quiet in
    let u = has_duplicates-IsUnique (step_ids plan.steps) p.unique in
    let l = lookup-dependencies [] plan.steps u in
    (
      nonempty plan.steps p.some_step,
      ground (arith, p.small),
      u,
      first_error-none (step_ids plan.steps) tools plan.steps p.known,
      tool,
      l,
      (st.visited, o.0, steps-AllIn (dependencies plan.steps) st.visited plan.steps o.1 l),
    )

finish-none : (steps : List TaskStep) (f : Found) → finish steps f ≡ none → f ≡ none
finish-none steps none h = refl
finish-none steps (some (st, x ∷ c)) h = cc
finish-none steps (some (st, [])) h = ground arith

tool_error_code :
    (tools : List String) (t : Option String) (code : String)
    → tool_error tools t ≡ some code
    → code ≡ "unknown_tool"
tool_error_code tools none code h = cc
tool_error_code tools (some t) code h = ground arith

step_error_codes :
    (known tools : List String) (s : TaskStep) (code : String)
    → step_error known tools s ≡ some code
    → (code ≡ "unknown_dependency") ⊎ (code ≡ "unknown_tool")
step_error_codes known tools s code h = ground (arith, tool_error_code tools s.tool_name code)

-- The validator always comes to a verdict: its search for a cycle does not run out of fuel.
pub validate_total :
    (max_steps : ℕ) (plan : TaskPlan) (tools : List String) → validate max_steps plan tools ≢ none
unfolding validate
validate_total max_steps plan tools h =
    let n : finish plan.steps (first_cycle plan.steps) ≡ none = ground arith in
    absurd
      (rw (finish-none plan.steps (first_cycle plan.steps) n) at (first_cycle-Answered plan.steps))

-- only the search finds a cycle
step_error-acyclic :
    (known tools : List String) (s : TaskStep) (code : String)
    → step_error known tools s ≡ some code
    → code ≢ "cyclic_dependency"
step_error-acyclic known tools s code h p = elim (step_error_codes known tools s code h) [
  | inl e ↦ ne_of_test "unknown_dependency" "cyclic_dependency" refl (sym e ∙ p)
  | inr e ↦ ne_of_test "unknown_tool" "cyclic_dependency" refl (sym e ∙ p)
]

first_error-acyclic :
    (known tools : List String) (steps : List TaskStep) (code : String)
    → first_error known tools steps ≡ some code
    → code ≢ "cyclic_dependency"
unfolding first_error
first_error-acyclic known tools [] code h = cc
first_error-acyclic known tools (s ∷ rest) code h = elim (Option-cases (step_error known tools s)) [
  | inl e ↦ first_error-acyclic known tools rest code (ground arith)
  | inr (c, e) ↦ step_error-acyclic known tools s code (ground arith)
]

finish-cyclic :
    (steps : List TaskStep) (f : Found) (r : PlanValidationResult)
    → r.code ≡ "cyclic_dependency"
    → finish steps f ≡ some r
    → (st : Search) × (x : String) × (c : List String) × (f ≡ some (st, x ∷ c))
finish-cyclic steps none r a h = cc
finish-cyclic steps (some (st, x ∷ c)) r a h = (st, x, c, refl)
finish-cyclic steps (some (st, [])) r a h =
    ground (
      arith,
      eq_iff "accepted" "cyclic_dependency",
      eq_iff "no_executable_steps" "cyclic_dependency",
    )

-- Where the verdict is `cyclic_dependency`, the stated dependencies do have a cycle.
pub verdict-IsCycle :
    (max_steps : ℕ) (plan : TaskPlan) (tools : List String) (r : PlanValidationResult)
    → r.code ≡ "cyclic_dependency"
    → validate max_steps plan tools ≡ some r
    → (c : List String) × IsCycle (dependencies plan.steps) c
unfolding validate
verdict-IsCycle max_steps plan tools r a h =
    let (st, x, c, e) = finish-cyclic plan.steps (first_cycle plan.steps) r a searched in
    (x ∷ c, reported-IsCycle plan.steps st x c e)
  where
    searched : finish plan.steps (first_cycle plan.steps) ≡ some r
    searched = elim (Option-cases (first_error (step_ids plan.steps) tools plan.steps)) [
      | inl e ↦ ground (
        arith,
        eq_iff "followup_required" "cyclic_dependency",
        eq_iff "empty_plan" "cyclic_dependency",
        eq_iff "plan_too_large" "cyclic_dependency",
        eq_iff "duplicate_step_id" "cyclic_dependency",
      )
      | inr (code, e) ↦ ground (
        arith,
        eq_iff "followup_required" "cyclic_dependency",
        eq_iff "empty_plan" "cyclic_dependency",
        eq_iff "plan_too_large" "cyclic_dependency",
        eq_iff "duplicate_step_id" "cyclic_dependency",
        first_error-acyclic (step_ids plan.steps) tools plan.steps code e,
      )
    ]
