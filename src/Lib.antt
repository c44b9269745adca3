-- ===== src/Lib.antt =====
-- Obligation runtime: a patch to a Lean project is checked in a session, verified in batch, judged by
-- a policy pack and by the rules of a multi-agent protocol, and then accepted with a witness bundle,
-- sent to a human, or turned down.
--
-- The parts, with the files that model them (paths from the repository's root):
--   Json       the dictionaries that the parts exchange, with what Python does on a missing key or on
--              a value that is no dictionary
--   Glob       fnmatch and basename of Python's library, as far as the engine uses them
--   Policy     packages/policy/lean_langchain_policy and packages/protocol/lean_langchain_protocol
--     Decision, Pack, Events   constants.py and models.py, with the decisions of packages/schemas
--     Protocol                 protocol_evaluator.py, one definition per obligation class
--     Patch                    patch_metadata.py (summarize_patch)
--     Engine                   engine.py (PolicyEngine.evaluate), stage by stage in its order
--   Protocol   packages/protocol/lean_langchain_protocol/validators.py
--   Runtime    apps/orchestrator/lean_langchain_orchestrator/runtime
--     State                    state.py and initial_state.py
--     Exec                     the SDK client as a record of operations on an abstract gateway state
--     Handlers, Review, Finalize   nodes/handlers.py, one definition per node
--     Graph                    graph.py and routes.py: the nodes, the edges and a whole run
--     Tracing                  graph.py: the events around each node, and a run of traced nodes
--   System     the graph over the gateway: the client's calls for sessions, checks and batch verifications
--              reach the handlers of the gateway
--   Gateway    apps/lean-gateway/lean_langchain_gateway
--     Reviews                  api/review_store.py and api/routes_reviews.py; its Postgres is
--                              api/review_store_postgres.py
--     Queues                   coordination/queue.py, the in-memory backend, and in Redis the other
--     Health                   api/routes_health.py, with parts of routes_metrics.py and app.py
--     Paths                    the table of routes: api_paths.py of packages/schemas, the decorators of
--                              api/routes_*.py, and create_app of api/app.py; what HTTP makes of a path
--                              is in Sent
--     Sessions                 server/session_manager.py and server/worker_pool.py
--     Batch                    batch/combine.py and its use by api/routes_batch.py; its Commands
--                              are batch/build_runner.py, batch/fresh_checker.py and LocalRunner, and
--                              its Audit is batch/axiom_audit.py
--     Runners, Slots           server/runner.py: every runner, the choice from the environment, and
--                              the semaphore of a pool with its threads
--     Lsp                      server/lsp_client.py: the cache of processes, and in Requests and
--                              Messages what is asked and what is made of the answers
--     Interactive              server/interactive_api.py, transport.py and normalizers.py
--     Files                    api/path_safety.py and the patches of api/routes_sessions.py
--     Routes                   the other handlers of api/routes_sessions.py
--     Webhooks                 api/webhooks.py
--     Errors                   api/errors.py and the exception handlers of api/app.py
--   Environment  environment/fingerprint.py, snapshot_store.py and overlay_fs.py of the gateway, with
--              api/routes_environment.py
--   Config     api/capabilities.py, api/deps.py and the production test of api/app.py
--   Orchestrator   apps/orchestrator/lean_langchain_orchestrator: http_server.py and
--              orchestrator_capabilities.py
--   Cli        apps/orchestrator/lean_langchain_orchestrator/cli.py: the commands on arguments that are read
--   Mcp        apps/orchestrator/lean_langchain_orchestrator: mcp_session_store.py (Store, Redis,
--              Postgres), mcp_server.py (Session, Tools) and mcp_server_main.py (Requests); its Catalog is
--              operation_catalog.py of packages/schemas
--   Sdk        packages/sdk-py/lean_langchain_sdk: requests (Methods), responses, errors and batch results
--   Schemas    packages/schemas/lean_langchain_schemas/review.py: the validators of a review payload
--   Text       strip, lower, int and str of Python's library, as far as the configuration uses them
--   Loader     packages/policy/lean_langchain_policy/pack_loader.py: packs that import packs
--   Tests      concrete values, and each theorem with hypotheses applied to them
--
-- A node is a function from the state to the state with the node's updates merged in; a node that
-- calls the gateway also takes and returns the gateway's state. A Python exception is a value of
-- Result. A missing key of the state's dictionary is an Option or an empty value.
--
-- A run has 25 steps of fuel, the default recursion limit of LangGraph, which stops a run with an
-- error. The graph has no cycle and its longest path has nine nodes, so a larger limit gives the same run.
-- The composition of packs has 13 levels, the depths 0 to 12 of the source, which raises beyond them.
--
-- The loop that evicts language servers has one round of fuel for each entry of the cache: each round
-- removes one, so it ends by its own test. What a start meets, an exception of a pipe or of the reader of
-- JSON with the rest, is an argument.
--
-- A thread of the pool is idle, waiting or running, and the scheduler is a relation between states; the
-- requests for a language server run one at a time, since they hold the client's lock.
--
-- Parameters, since their code is not in the repository: SHA-256, the validation of pydantic models, the
-- YAML parser, json.dumps and json.loads, subprocesses, the resolution of paths, what a language server
-- sends, the lists of Redis, the tables of Postgres, the router, and what HTTP makes of a path, each of the
-- last four as a record of operations with the laws that are documented of them. A theorem names what it asks of a parameter. The
-- graph's client is a record of operations.
-- lower changes the letters of ASCII only, and floats are left out of JSON.
-- Not modelled: the tracers, HTTP transport, the framing of messages on pipes, the time limit
-- of a check, the connections to databases, the redaction of secrets, the
-- modes of files, the reading of a command line, what an earlier run of a thread left in its checkpoint,
-- the review user interface and the TypeScript client, the scripts and the examples.
pub mod Common
pub mod Json
pub mod Glob
pub mod Text
pub mod Policy
pub mod Runtime
pub mod System
pub mod Tests
pub mod Gateway
pub mod Loader
pub mod Mcp
pub mod Sdk
pub mod Environment
pub mod Config
pub mod Orchestrator
pub mod Schemas
pub mod Protocol
pub mod Cli
