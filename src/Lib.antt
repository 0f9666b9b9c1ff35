-- ===== src/Lib.antt =====
-- Verification of VISION, a platform that orchestrates departments of software agents.
--
-- The program. A manager leads a project through its phases, with three approval gates
-- (services/manager/graphs/lifecycle.py), and delegates tasks to departments, with retries and
-- escalation (services/manager/graphs/delegation.py). The departments follow one another in a fixed
-- pipeline (services/integration/dependency_graph.py), and each agent call picks a provider and a
-- model (core/llm/router.py). Workflows are graphs of named nodes:
-- services/integration/diagnostics/graph_metrics.py analyses them, and
-- services/integration/workflow_designer edits them on a canvas and builds the runtime graph. Plugins
-- are validated, registered and confined by services/integration/plugin_sdk.
--
-- The modules.
--   Prelude     the shared helpers: Boolean tests, lists over the native numbers, string keyed
--               dictionaries as association lists in insertion order.
--   Router      core/llm/router.py. `select_provider_and_model` returns none where the source raises
--               RuntimeError; the settings are an argument.
--   Delegation  services/manager/graphs/delegation.py. A node returns an Update, a list of writes,
--               as the source returns a partial dict; `merge` is what the graph library does with it.
--               `targets` lists every node that the declared edges name after a node, and Walk is a
--               path along them. Two nodes can follow handle_retry in one step of the library: that
--               joint step is not modelled. select_model_node calls the definitions of Router.
--   Lifecycle   services/manager/graphs/lifecycle.py, the master state machine: a node takes the state to
--               the state that its partial dict is merged into, `next` is the declared edge out of a
--               node, and Run a run of the graph, into whose state anything may be written between
--               two nodes (`update_state`). The floats of the budget are a type F.
--   Pipeline    services/integration/dependency_graph.py. The reason texts are a data type.
--   Metrics     services/integration/diagnostics/graph_metrics.py. A set is a list that is read by
--               membership.
--   Workflows   services/integration/lifecycle.py, the start-up check of every workflow graph, over the
--               adjacency and the search of Metrics. What building and inspecting a graph gives is an
--               argument.
--   Designer    services/integration/workflow_designer: designer_models.py in Models, the operations
--               of canvas_state.py in Canvas and Paste, and Step and Session for a run of them.
--               Coordinates and configuration values are types F and V, the addition of coordinates
--               is a parameter, and the time stamp of an edit is an argument. build_graph of
--               graph_builder.py is in Builder.
--   Plugins     services/integration/plugin_sdk: plugin_registry.py in Registry, an Outcome for what an
--               operation raises or returns, sandbox/sandbox_policy.py in Sandbox, and
--               plugin_validator.py in Validator, in LoadOrder for the order of its dependency graph and
--               in Cycles for the rest of it, and plugin_runtime.py in Runtime. A raised exception leaves the registry as it was.
--
--   Versions    services/integration/versioning: version_registry.py in Registry, a registry being its
--               histories in order, and compatibility_checker.py in Compatibility. The SHA-256
--               signature is a parameter.
--   Auth        infrastructure/auth/jwt_auth.py, over a token library and a password library that are
--               parameters. An HTTP error is a constructor of Response.
--   Replay      services/integration/replay: state_diff.py in Diff, and replay_engine.py and
--               artifact_diff.py in Trace. A state is a dictionary of values whose leaves are of any
--               type with its own test of equality.
--   Release     services/integration/production/release_manager.py: semantic versions, in Semver.
--   Repository  services/repository: the naming policy in Names and Slug, the tables of
--               infrastructure/database in Store and Tables, the managers in Managers and Service.
--               A method is a function of the World, its tables and the log of what it called,
--               recorded and published, and returns or raises; the provider's answers are an
--               argument. State, Graph and Workflow model workflows/repository_graph.py. The laws
--               that a relation of two states must have to hold of a method are the record Frame,
--               which the modules on the gate, the protected branches and the states of a pull
--               request fill.
--
-- Fuel. `bfs_loop` has one unit for each node that can enter the queue; `fresh_from` tries one number
-- more than there are ids taken; `visit_all` has one unit for each department and one for the empty
-- queue; a walk of two values has the height of the first one; `order_loop` has one for each manifest
-- and one for the empty queue; `dfs` has one for each node and one more. For all but `visit_all`,
-- theorems say that it is enough. Repository has no fuel.
--
-- Not modelled: floats (averages, percentages, zoom arithmetic), dates (`needs_autosave`), logging,
-- the asynchronous runtime, HTTP, messaging, and the database but for the tables of Repository.
pub mod Prelude
pub mod Router
pub mod Delegation
pub mod Pipeline
pub mod Metrics
pub mod Designer
pub mod Plugins
pub mod Lifecycle
pub mod Versions
pub mod Auth
pub mod Workflows
pub mod Replay
pub mod Release
pub mod Repository
