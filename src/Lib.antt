-- ===== src/Lib.antt =====
-- AI Platform Mini, a self-hosted AI gateway (app/): the parts that decide who may spend what, and
-- the engines that run agents, subtasks and workflows.
--
-- A request of an API key passes the rate limiter (app/ratelimit) and reserves tokens of its quota
-- (app/quota), whose limits come from the workspace, its billing plan (app/billing) or the
-- settings, and whose totals come from the usage records (app/usage); the reservation is renewed
-- while the request runs, and settled or released when it ends. An agent run (app/agents) is a
-- bounded loop of model decisions and tool calls with an event log. A multi-agent run
-- (app/multi_agent) schedules subtasks, each an agent run, by their dependencies. A workspace
-- (app/auth) has members with roles. An agent run is given what its owner's long-term memory
-- (app/memory) has to its question, and a conversation (app/conversations) is cut to a budget of
-- tokens. A workflow (app/workflows/engine) is a graph of nodes that is executed in topological
-- order. Retrieval (app/rag) ingests documents through a queue with one worker, and splits texts
-- into chunks.
--
-- Files, with the code that they model:
--   Prelude      tests on numbers, lists, sums, texts, ids, dicts and results
--   RateLimit    app/ratelimit/base.py, memory.py, service.py: Window, Keys, Bounds, Reset
--   Billing      app/billing/models.py, memory_repository.py; Billing.Plans: service.py;
--                Billing.Entitlement: entitlement.py; Billing.Assign: what an assignment leaves
--   Usage        app/usage/models.py, and the readings that the quota asks of app/usage/repository.py;
--                Usage.Memory: app/usage/memory_repository.py; Totals: what a record adds
--   Quota        app/quota/models.py, memory_repository.py: Sums, Create, Extend, Within, Renew;
--                Quota.Service and Quota.Clock: app/quota/service.py: Limits, Reserve;
--                Quota.Lifecycle: app/quota/lifecycle.py: Leaving
--   Agent        app/agents: Models (models.py), Events, Checks, Tools, Loop (runtime.py);
--                Log, Report, Outcomes, Output, Steps: what a run guarantees
--   Auth         app/auth: Records (models.py, memory_repository.py), Service (service.py, and the
--                routes of app/api/auth.py and admin.py that revoke keys); Steps, Filed, Own,
--                Touches: what the calls of the service leave
--   Conversation app/conversations/service.py and app/quota/token_estimator.py: Context, the short-term
--                context of a conversation; Bounds: its limits; History: the merged history
--   Memory       app/memory: Store (models.py, memory_repository.py), Terms and Service (service.py);
--                Isolation, Owners, Context: what an owner's calls leave and give
--   Orchestra    app/multi_agent: Models (models.py), Dag, Execute (orchestrator.py);
--                Decision (decision_factory.py); Schedule, Safety, Rounds, Termination, Outcome,
--                Acyclic, Canvas, Completes: what a schedule and a canvas graph guarantee
--   Workflow     app/workflows/engine: Graph (models.py), Order, Conditions, Validation
--                (validation.py), Engine, Descendants (executor.py); Degrees, Kahn, Sorted: the
--                topological order; Printed, Placeholders, Rendered: conditions and templates;
--                Validated, Trace, Visits, Follows, Sources, Chosen, Runs, Precedence: what a run
--                executes, and in which order
--   Workspace    app/auth/workspaces_repository.py; Workspace.Service: workspace_service.py;
--                Changes, Steps, Owners: what the operations of members leave
--   Rag          app/rag/chunker.py: Chunker; Rejoin: what the chunks make up; app/rag/queue.py: Queue,
--                with Invariant, Accepting, Working, Stopping, Kept, Moves, Stops below it
--
-- Conventions. Python's unbounded non-negative integers are native numbers; a time is a number of
-- clock ticks or microseconds. A name or id that is only compared is a String; a text whose
-- characters matter is a list of code points (Prelude/Texts). A dict is an association list in
-- insertion order (Prelude/Dict). A method returns the new state with its result; what it raises is a
-- Result (Prelude/Results). The clock, uuid4 and other services are arguments; what a run waits for
-- (the model, the tools, the ends of tasks, cancellation, deadlines) is a record World of what it
-- answers, so that a theorem over every World is one over every behaviour of them.
--
-- Loops. The rounds of an agent run are counted by max_steps, as in the code. The orchestrator's
-- loop has fuel for one round more than there are tasks, and Kahn's loop for as many as there are
-- nodes; both are proved to be enough, as is the depth of the searches in a graph (what lies below
-- a node, cycles), one more than there are nodes. The chunker and the rendering of a template have
-- fuel for each character of the text, of which every round takes one or more; so has the search
-- for the longest summary that fits, which is proved to end within it.
--
-- Not modelled: logging, metrics, tracing and the observers that are told of events; SQL
-- repositories; HTTP routes (but for those named above) and providers; the front end.
pub mod Prelude
pub mod RateLimit
pub mod Billing
pub mod Usage
pub mod Quota
pub mod Agent
pub mod Auth
pub mod Conversation
pub mod Memory
pub mod Orchestra
pub mod Workflow
pub mod Rag
pub mod Workspace
