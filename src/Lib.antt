-- ===== src/Lib.antt =====
-- Cobalto is an agentic SOC platform: alerts are routed to agents, agents are looked up in a registry,
-- their calls go to MCP servers over pooled connections, dangerous actions wait for a person's
-- approval, and analysts are assigned and held to service levels. This is a model of the parts of its
-- Python code that decide. Each part is a module, its proofs are its children, and its concrete runs
-- are in the child Tests. The parts:
--
-- Mcp.Breaker, Mcp.Pool: frameworks/mcp-bridge/src/cobalto/mcp/transport/pool.py. CircuitBreaker and
--   MCPConnectionPool with get_client, record_success, record_failure, reset_breaker, evict,
--   get_pool_info and close_all, and execute_request. A breaker and a pool are records, a method maps
--   the state before to the state after, and the clock is an argument, in its ticks. httpx is a
--   parameter: a client is its configuration, and sending is a function to an outcome.
-- Mcp.RateLimit: frameworks/mcp-bridge/src/cobalto/mcp/middleware/rate_limit.py. TokenBucket and the
--   check_rate_limit of MCPRateLimitMiddleware. Tokens are integers in parts of a token, so that the
--   fractions of the source are exact.
-- Mcp.Protocol, Mcp.Dump: frameworks/mcp-bridge/src/cobalto/mcp/protocol.py, the messages, their reading
--   and model_dump. The record Runtime has what is used of pydantic, json and re, with laws for the
--   fields that are texts, numbers and dicts; Mcp.Tests fills it.
-- Mcp.Tools, Mcp.Resources, Mcp.Prompts, Mcp.Adapter: the files tools.py, resources.py, prompts.py and
--   unified_adapter.py of frameworks/mcp-bridge/src/cobalto/mcp/registry. Functions behind tools,
--   resources and prompts take arguments and the world and give an answer or an exception. Mcp.Adapter
--   is over Agent.Tools, and fills, as Mcp.Tools does, the interface Mcp.Source that the server takes.
-- Mcp.Handlers, Mcp.Server: frameworks/mcp-bridge/src/cobalto/mcp/server.py. The state and the handlers of
--   MCPServer, and handle_message, from a text or a dict to a response or none. An exception is a
--   json.JSONDecodeError or any other, as the two except clauses tell them apart. A response stands
--   for the JSON text that is printed of it.
-- Oscar: services/langgraph/agents/supervisor.py. MagentaSupervisor, which takes an alert through the
--   phases of OSCAR and asks a sub-agent in each. OSCARState is a record, the agents are functions that
--   return a result or raise, and orchestrate runs the while loop. The loop of the source has no bound;
--   the model runs it on fuel, of which 5 is enough, since every phase is followed by a later one of
--   the five.
-- Agent.Registry: frameworks/agent-sdk/src/cobalto/agent/registry.py. AgentRegistry: register,
--   unregister and the look-ups. The sets of the capability index are lists without order.
-- Agent.Approval: frameworks/agent-sdk/src/cobalto/agent/approval.py. ApprovalService: creating,
--   approving, rejecting and reading requests; Agent.Approval.Sweep is its sweep for timeouts. Redis
--   is the parameter of Agent.Redis, an interface with the documented laws of the commands used;
--   Agent.Redis.Cells fills it. A stored request is the dict of to_dict, and the JSON text around it
--   is left out.
-- Agent.Audit: frameworks/agent-sdk/src/cobalto/agent/audit.py. AuditService over the same Redis: log_event,
--   the reads and verify_chain; Agent.Audit.Reports has get_agent_runs and get_metrics. The HMAC, JSON and what Redis keeps of a
--   text are the record Codec; KEYS is an argument, and the archive in S3 is left out.
-- Agent.Tools: frameworks/agent-sdk/src/cobalto/agent/tool_registry.py. UnifiedToolRegistry: register,
--   the look-ups, and execute with its audit trail. An executor is a function of its arguments and the
--   world to a result or an exception.
-- Agent.Supervisor: frameworks/agent-sdk/src/cobalto/agent/supervisor.py. SupervisorAgent: what an alert
--   asks for (_determine_required_capabilities), the routing by the table (_route_via_mapping), by the
--   registry (_route_via_registry, over Agent.Registry) and by the legacy rules (_determine_routing),
--   and run (Agent.Supervisor.Run). str.lower, the test for a pattern and _evaluate_condition are
--   arguments.
-- Console: services/console-auth/main.py. Console.Limiter is LoginRateLimiter; Console.Auth has the
--   globals of the module as the record Service, the tokens and the endpoints login, refresh, verify
--   and logout, and Console.Auth.Users load_users. PyJWT with the secret, SHA-256 and bcrypt are the
--   interface Crypto, whose one law is that a token is decoded in its lifetime; Console.Auth.Tests
--   fills it. The readings of the clocks and the fresh ids of a request are the record World.
-- Mdr.Sla: services/cobalt-mdr-ops/slas.py. SLACalculator and EscalationEngine.
-- Mdr.Scheduling: services/cobalt-mdr-ops/scheduling.py. ShiftSchedule, and
--   Mdr.Scheduling.Assignment is its AlertAssignment. Analysts are objects that shifts and the pool
--   share, so they are addresses in a heap.
--
-- Soar: frameworks/soar-sdk/src/cobalto/soar/playbook.py. Soar.Playbook has the data, Soar.Versions
--   PlaybookVersionManager over its files, whose format is the parameter Storage (a
--   file that cannot be read is left out), Soar.Template TemplateEngine, whose pattern is a scanner of
--   one pass, Soar.Condition _evaluate_condition, Soar.Actions _execute_action, Soar.Parallel the
--   asyncio.gather of a parallel step as turns of its tasks, and Soar.Engine execute and the
--   registrations. A handler is a function of its parameters, the context and the world; the turns
--   are an argument, and any list of positions is a schedule, since what it leaves is run at its end.
--   Playbooks and snapshots are values: that a snapshot in memory shares the dict of variables with
--   its playbook is not modelled.
--
-- Soar.Workflow: frameworks/soar-sdk/src/cobalto/soar/workflow_builder.py. WorkflowBuilder: the methods
--   that add a node (Soar.Workflow.Nodes), connect, and build, whose while loop runs on fuel: two more
--   than the output that is connected, which is enough since each round adds an output. A negative
--   output counts from the end, or is an IndexError.
--
-- Base holds what these share: Boolean tests and decidable equality (Base.Tests), lists and dicts as
--   Python uses them (Base.Lists, Base.Dict, Base.Sets), JSON values (Base.Json), integers (Base.Int).
--
-- Numbers are natural numbers: counts, and instants as numbers of ticks or microseconds, where
--   the source has a float or a datetime; a subtraction that the source clips at 0 is the one that
--   stops at 0. Floating-point scores and minutes are kept exact, so their rounding is not modelled.
-- Not modelled: logging, metrics and messages to people, which only write; the agents' calls of
--   language models; the clients of external services; the web console; deployment and
--   infrastructure; and the rest of the SDKs, among them cases, memory and the data mesh.
pub mod Base
pub mod Console
pub mod Mcp
pub mod Mdr
pub mod Oscar
pub mod Soar
pub mod Agent
