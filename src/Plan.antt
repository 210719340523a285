-- ===== src/Plan.antt =====
-- assistant_agent/src/assistant_agent/agent/plan_validator.py with the plan of schemas/planning.py.
-- A set is a list with the newest member first. The depth-first search takes fuel, and `none` means
-- that it ran out; the messages of the results are left out.
pub mod Restore
pub mod Total
pub mod Order
pub mod Cycle
pub mod Validate
mod Tests
use runtime_assistant_agent.Base.{
  ℕ, zero, suc, String, Bool, true, false, not, ◌||◌, Option, none, some, List, [], ◌∷◌, ◌++◌, map,
  ◌==◌, if◌then◌else◌, given, get_or, is_some, ltb, length, contains, any,
}
use runtime_assistant_agent.Base.Dict.{Dict, lookup, insert}

pub record TaskStep : Type 0 where
  pub step_id : String
  pub action : String
  pub tool_name : Option String
  pub depends_on : List String
  pub optional : Bool

pub record TaskPlan : Type 0 where
  pub steps : List TaskStep
  pub requires_followup : Bool
  pub followup_question : Option String

pub record Search : Type 0 where
  pub visiting : List String
  pub visited : List String
  pub path : List String

-- `dependencies.get(step_id, [])`
abbrev pub dependencies_of : Dict (List String) → String → List String
dependencies_of deps step_id = get_or (lookup step_id deps) []

-- `path[path.index(step_id):]`, and the whole path where `index` raises
abbrev pub from_index : String → List String → List String → List String
from_index step_id whole [] = whole
from_index step_id whole (x ∷ rest) =
    if x == step_id then x ∷ rest else from_index step_id whole rest

-- `path.pop()`, as the path that is left
abbrev pub drop_last : List String → List String
drop_last [] = []
drop_last (x ∷ []) = []
drop_last (x ∷ y ∷ rest) = x ∷ drop_last (y ∷ rest)

-- `visiting.remove(step_id)`
abbrev pub discard : String → List String → List String
discard step_id [] = []
discard step_id (x ∷ xs) = if x == step_id then xs else x ∷ discard step_id xs

abbrev pub Found : Type 0
Found = Option (Search × List String)

-- A loop goes on after a call that met no cycle.
abbrev continue : (Search → Found) → Found → Found
continue loop none = none
continue loop (some (st, [])) = loop st
continue loop (some (st, x ∷ cycle)) = some (st, x ∷ cycle)

-- A loop over `visit` calls, which ends at the first cycle.
pub visit_each : (String → Search → Found) → List String → Search → Found
visit_each visit_one [] st = some (st, [])
visit_each visit_one (d ∷ ds) st = continue (visit_each visit_one ds) (visit_one d st)

abbrev pub enter : String → Search → Search
enter step_id st = record {
  visiting = step_id ∷ st.visiting;
  visited = st.visited;
  path = st.path ++ step_id ∷ [];
}

abbrev pub leave : String → Search → Search
leave step_id st = record {
  visiting = discard step_id st.visiting;
  visited = step_id ∷ st.visited;
  path = drop_last st.path;
}

-- after the loop over the dependencies
abbrev close : String → Found → Found
close step_id none = none
close step_id (some (st, [])) = some (leave step_id st, [])
close step_id (some (st, x ∷ cycle)) = some (st, x ∷ cycle)

pub visit : ℕ → Dict (List String) → String → Search → Found
unfolding visit_each
visit zero deps step_id st = none
visit (suc fuel) deps step_id st =
    let inner = visit_each (visit fuel deps) (dependencies_of deps step_id) (enter step_id st) in
    if contains st.visited step_id
    then some (st, [])
    else if contains st.visiting step_id
    then some (st, from_index step_id st.path st.path ++ step_id ∷ [])
    else close step_id inner

-- `{step.step_id: list(step.depends_on) for step in plan.steps}`
abbrev collect : Dict (List String) → List TaskStep → Dict (List String)
collect d [] = d
collect d (s ∷ rest) = collect (insert s.step_id s.depends_on d) rest

abbrev pub dependencies : List TaskStep → Dict (List String)
dependencies steps = collect [] steps

abbrev pub keys : Dict (List String) → List String
keys [] = []
keys ((k, v) ∷ d) = k ∷ keys d

abbrev pub no_search : Search
no_search = record { visiting = []; visited = []; path = [] }

unfoldable pub first_cycle : List TaskStep → Found
unfolding visit visit_each
first_cycle steps =
    let deps = dependencies steps in
    visit_each (visit (suc (length (keys deps))) deps) (keys deps) no_search

pub record PlanValidationResult : Type 0 where
  pub accepted : Bool
  pub code : String

abbrev pub accept : String → Option PlanValidationResult
accept code = some (record { accepted = true; code = code })

abbrev pub reject : String → Option PlanValidationResult
reject code = some (record { accepted = false; code = code })

abbrev has_duplicates : List String → Bool
has_duplicates [] = false
has_duplicates (x ∷ xs) = contains xs x || has_duplicates xs

abbrev pub step_ids : List TaskStep → List String
step_ids = map (λ s. s.step_id)

abbrev tool_error : List String → Option String → Option String
tool_error tools none = none
tool_error tools (some tool) = if contains tools tool then none else some "unknown_tool"

-- the first complaint about a step
abbrev step_error : List String → List String → TaskStep → Option String
step_error known tools s =
    if any (λ d. not (contains known d)) s.depends_on
    then some "unknown_dependency"
    else tool_error tools s.tool_name

first_error : List String → List String → List TaskStep → Option String
first_error known tools [] = none
first_error known tools (s ∷ rest) = elim (step_error known tools s) [
  | some code ↦ some code
  | none ↦ first_error known tools rest
]

-- what is left once the steps are known to be well formed
abbrev finish : List TaskStep → Found → Option PlanValidationResult
finish steps none = none
finish steps (some (st, x ∷ cycle)) = reject "cyclic_dependency"
finish steps (some (st, [])) =
    if any (λ s. is_some (given s.tool_name)) steps
    then accept "accepted"
    else reject "no_executable_steps"

is_empty : List TaskStep → Bool
is_empty [] = true
is_empty (s ∷ rest) = false

unfoldable pub validate : ℕ → TaskPlan → List String → Option PlanValidationResult
unfolding is_empty first_error
validate max_steps plan tools =
    if plan.requires_followup
    then accept "followup_required"
    else if is_empty plan.steps
    then reject "empty_plan"
    else if ltb max_steps (length plan.steps)
    then reject "plan_too_large"
    else if has_duplicates (step_ids plan.steps)
    then reject "duplicate_step_id"
    else elim (first_error (step_ids plan.steps) tools plan.steps) [
      | some code ↦ reject code
      | none ↦ finish plan.steps (first_cycle plan.steps)
    ]
