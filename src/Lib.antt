-- ===== src/Lib.antt =====
-- Verification of the core of two Python programs: the runtime behind a telephone or chat client
-- (runTime/src/openclaw_gateway_runtime) and the assistant agent that can stand behind it
-- (assistant_agent/src/assistant_agent).
--
-- The runtime. A client's connection becomes a bridge of the gateway, which passes frames on to the
-- runtime service of the client's user and back. The runtime manager keeps one runtime for each user,
-- merges the configuration of a call into the stored one, and evicts runtimes that are idle or were hung
-- up. The runtime service starts a task for each message, registers it as the run of its session, and
-- cancels runs on request or when the next message arrives.
--   Protocol    protocol.py: the frames that the parts exchange, with absent keys as none
--   Gateway     gateway/gateway.py: GatewayService.bridge as open_bridge, on_client_frame,
--               on_runtime_frame and tear_down, put together by step
--   Manager     gateway/runtime_manager.py: RuntimeManager and its entries; get_or_create, mark_hangup,
--               destroy and inject_config under their names, the reaper's loop as scan and evict_next
--   Transport   transport.py: the duplex channel between them, InMemoryDuplex and Endpoint
--   UserConfig  gateway/user_config.py: UserConfig and merge_config
--   Runtime     runtime/runtime.py: RuntimeService, with the counters of infra/metrics.py; the task of a
--               message, _runner, as begin_run, adapter_round and end_run
--   Sse         agent_runtime/anthropic_sse.py: iter_sse_data_lines and AnthropicStreamBuilder.feed
--
-- The assistant agent. A loop asks a model for decisions: to call a tool, to enter or leave plan mode, or to
-- answer. A plan of steps is validated, a call is checked by the action validator and by the guards of the
-- loop, then the tool is called through an executor that asks a budget first and retries failures, and the
-- answer is cut into chunks; the sessions of a user are kept in an index. An older router makes a decision
-- out of capabilities, whose inputs a validator asks for. A request may also go to one of several agents: a
-- directory holds them, a routing policy chooses one, a delegation policy decides whether an agent may hand
-- a task to another, and the task then goes through a transport, without the context that is not to cross.
--   Plan        agent/plan_validator.py with schemas/planning.py: PlanValidator.validate and _first_cycle
--   Budget      services/provider_budget.py: ProviderCallBudget
--   Executor    agent/tool_executor.py with services/provider_policy.py, agent/recovery.py and the
--               records of calls of agent/state.py: run_tool, _run_with_retry, decide
--   LoopGuard   agent/loop_guard.py: LoopGuard, its methods under their names
--   Actions     agent/action_validator.py: ActionValidator.validate as validate_action
--   Capabilities  agent/capability_validator.py with schemas/capabilities.py and schemas/intent_decision.py:
--               CapabilityValidator.validate
--   Assistant   agent/assistant_loop_nodes.py and agent/assistant_loop_graph.py, over Executor, Plan, Actions
--               and LoopGuard: _decide_with_llm and the mock plan in Decide, the guards and the final response
--               in Guards, entering and leaving plan mode in PlanMode, the call of a tool in Execute, and
--               assistant_node, route_after_assistant and the loop of rounds in Loop
--   Chunking    realtime/chunking.py: chunk_response_text and _find_split_point, over code points
--   Sessions    services/session_store.py with schemas/sessions.py: InMemorySessionStore as memory_step and
--               JsonlSessionStore as jsonl_step
--   TaskQueue   services/task_queue.py: the protocol TaskQueue as a record of operations and laws in
--               Contract, with its two implementations
--   Directory   services/agent_directory.py with schemas/agent_communication.py: AgentDirectory
--   Routing     services/agent_routing_policy.py with schemas/agent_gateway.py: AgentRoutingPolicy.resolve
--               as choose
--   Delegation  services/agent_delegation_policy.py: AgentDelegationPolicy.validate and the pairs that
--               _metadata_for_dispatch writes
--   DelegationContext  services/agent_delegation_context.py: DelegationContextBuilder.build with its filter
--   Communication  services/agent_communication.py: AgentCommunicationService.send_task, over Delegation,
--               DelegationContext and Directory
-- Base holds what they share: Boolean tests, Python's truthiness of texts, lists, and the dict as a list of
-- entries in the order of insertion. Each part has its proofs in child modules named for what they show,
-- and its concrete runs in Tests.
--
-- State and time. Mutable objects are records that operations take and return. Coroutines are schedules:
-- lists of events, one for each stretch between two points where the coroutine can be suspended, over
-- every order of which the invariants are proved. A lock that is not held across a wait is left out. Time
-- is a number of milliseconds handed to an operation. Uses of new ids (uuid4) are the position in a list
-- or an argument that is taken to be new.
--
-- Fuel. The search for a cycle is as deep as the plan has keys, and the validator gives it fuel for one
-- more; the loop of retries has fuel for the retries allowed and one more; the chunks of a text have fuel
-- of its length. In each case an answer is proved to come. The assistant loop has fuel for its rounds; when
-- it comes to an end is the subject of two theorems. Every other loop is structural.
--
-- Left out. Logging, traces and metrics that no code reads; the texts of error messages where only the code
-- decides; the prompts and the parsing of a model's JSON; the model client around its streams, the skills, the
-- memory stores, the context builder, provider adapters, HTTP and WebSocket routes, which are input and
-- output around the core or large parts of their own. The classification of an error's text and the sanitizer of metadata are chains of string searches
-- and regular expressions: a failed result carries its code, and the sanitizer is an argument.
pub mod Base
pub mod Protocol
pub mod Runtime
pub mod UserConfig
pub mod Manager
pub mod Gateway
pub mod Plan
pub mod Directory
pub mod Routing
pub mod Delegation
pub mod Budget
pub mod Executor
pub mod Chunking
pub mod Sessions
pub mod LoopGuard
pub mod Actions
pub mod Assistant
pub mod Transport
pub mod TaskQueue
pub mod Sse
pub mod DelegationContext
pub mod Communication
pub mod Capabilities
