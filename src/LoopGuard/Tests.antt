-- ===== src/LoopGuard/Tests.antt =====
-- The guard at concrete results.
use runtime_assistant_agent.Base.{true, false, ◌≡◌, refl}
use runtime_assistant_agent.Base.Dict.{lookup, insert}
use runtime_assistant_agent.LoopGuard.{init, failures, record_tool_result}

-- A failure counts, and stops; a success of the tool clears the count.
failure_counts : failures "product_search" (record_tool_result "product_search" false init).0 ≡ 1
unfolding record_tool_result lookup insert
failure_counts = refl

failure_stops : (record_tool_result "product_search" false init).1.triggered ≡ true
unfolding record_tool_result lookup insert
failure_stops = refl
