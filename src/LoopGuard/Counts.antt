-- ===== src/LoopGuard/Counts.antt =====
-- What the guard's counters say of the results of a run.
use runtime_assistant_agent.Base.{
  ℕ, suc, ◌+◌, String, Bool, true, false, not, ◌&&◌, ◌||◌, ◌≡◌, refl, List, [], ◌∷◌, ◌++◌, arith,
  ◌==◌, if◌then◌else◌, eq_iff,
}
use runtime_assistant_agent.Base.Dict.{lookup-insert, lookup-remove}
use runtime_assistant_agent.LoopGuard.{LoopGuard, failures, record_tool_result}

-- the results of a run's calls, oldest first: a tool, and whether it succeeded
abbrev pub Results : Type 0
Results = List (String × Bool)

abbrev pub has_success : String → Results → Bool
has_success tool [] = false
has_success tool ((t, success) ∷ rest) = (t == tool && success) || has_success tool rest

-- the failures of a tool that no later success of it follows
abbrev pub open_failures : String → Results → ℕ
open_failures tool [] = 0
open_failures tool ((t, success) ∷ rest) =
    (if (t == tool && not success) && not (has_success tool rest) then 1 else 0)
    + open_failures tool rest

failures-record_tool_result :
    (tool t : String) (success : Bool) (g : LoopGuard)
    → failures tool (record_tool_result t success g).0
      ≡ (if t == tool then (if success then 0 else suc (failures tool g)) else failures tool g)
unfolding record_tool_result
failures-record_tool_result tool t true g =
    ground (arith, lookup-remove t tool g.same_tool_failures)
failures-record_tool_result tool t false g =
    ground (arith, lookup-insert t tool (suc (failures t g)) g.same_tool_failures, eq_iff t tool)

has_success-append :
    (tool : String) (xs ys : Results)
    → has_success tool (xs ++ ys) ≡ (has_success tool xs || has_success tool ys)
has_success-append tool [] ys = refl
has_success-append tool ((t, success) ∷ xs) ys = ground (arith, has_success-append tool xs ys)

-- One result more clears the count of its tool, or adds to it.
open_failures-append :
    (tool t : String) (success : Bool) (xs : Results)
    → open_failures tool (xs ++ (t, success) ∷ []) ≡ (
        if t == tool
        then if success then 0 else suc (open_failures tool xs)
        else open_failures tool xs)
open_failures-append tool t success [] = ground arith
open_failures-append tool t success ((u, ok) ∷ xs) =
    ground (
      arith,
      open_failures-append tool t success xs,
      has_success-append tool xs ((t, success) ∷ []),
    )

-- A guard counts for every tool the failures that no later success of the tool follows.
abbrev pub Counts : Results → LoopGuard → Type 0
Counts results g = (tool : String) → failures tool g ≡ open_failures tool results

pub record_tool_result-Counts :
    (t : String) (success : Bool) (results : Results) (g : LoopGuard)
    → Counts results g
    → Counts (results ++ (t, success) ∷ []) (record_tool_result t success g).0
record_tool_result-Counts t success results g h tool = ground (
  arith,
  failures-record_tool_result tool t success g,
  open_failures-append tool t success results,
  h tool,
  eq_iff t tool,
)
