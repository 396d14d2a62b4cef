-- ===== src/Lib.antt =====
-- A model of the launcher's core (demo2/native-launcher/crates) with the theorems that make its
-- parts correct.
--
-- Parts, the crates they model, and how they interact:
-- - Common: equality, lists, sets and maps as association lists, results, text.
-- - Domain: commands, actions and the resolver of descriptors (launcher-domain/src/lib.rs), the retry
--   rules (execution_semantics.rs), workflow definitions and failure policies (workflow.rs), and the
--   condition language (expr.rs) of the same crate.
-- - Search.Cache: the query cache of launcher-search/src/cache.rs, which keeps lists of commands.
-- - Mcp.Session: sessions of launcher-mcp/src/protocol/session.rs and their manager
--   (session_manager.rs), with the profile of launcher-mcp/src/compat.rs. A session is bound to a
--   runtime's id, and closes with it.
-- - Runtime.Manager: the registry of launcher-runtime/src/runtime_manager.rs.
-- - Workflow: graphs and their validator (launcher-workflow/src/graph.rs), variables, conditions
--   and readiness (engine.rs), and the scheduler `run_graph` (scheduler.rs) over them; and the runner
--   of workflow definitions and proposals (lib.rs and proposal.rs of the same crate) in
--   Workflow.Runner, with the variable store and the templates of v2.rs in Workflow.Variables, and
--   its check of a definition in Workflow.Validation. The runner resolves actions by Domain.Action,
--   tests conditions by Domain.Expr and follows the policies of Domain.Policy.
-- - Ai: plans and the approval gate (launcher-ai/src/plan.rs, approval.rs), which validates an
--   edited plan, and the agent loop with its budgets (agent.rs
--   of the same crate): Ai.Budget and Ai.Loop, which takes proposals from the planner.
--
-- A function keeps its name. An operation that changes its object takes the object as its last
-- argument and returns the new one; a call that reads the clock takes the instant. What the code
-- calls outside the repository is an argument: serde_json is the record `Json` of
-- Workflow.Engine; the executor, the cancel flag and the stored decisions are the record `Host`
-- of Workflow.Scheduler. For the runner, serde_json's numbers are the record `Serde` of
-- Workflow.Variables, `f64` and the classes of `char` the record `Std` of Domain.Expr, and the two
-- ports of the runner, with the state behind them, the record `Host` of Workflow.Runner. The host,
-- the planner and the clock of the agent loop are the record `Agent` of Ai.Loop. An object of JSON
-- is a list of entries. Texts of errors that only a person reads are shortened.
--
-- Fuel: the two searches of the validator run on fuel, as many rounds as a node and its edges can
-- cause pushes (`fuel_for`), and the scheduler on `2 n + 1` passes for `n` nodes. That these are
-- enough is proved. The lexer runs a round for each character, the loops of the parser one for
-- each token, and a step of the runner as many rounds as its attempts and resolutions can be, and
-- each search of a definition's check one for each name that it can meet; that these are enough
-- is proved too. The agent loop runs on one round more than its limit on turns, which is proved
-- enough. The walk of a run is counted down from its own limit. Machine integers wrap where
-- they are counted up without a check in the session counter, the budgets, the approval gate,
-- the restart counts and the attempts of a step; times and the cache's counters do not wrap.
--
-- Not modelled: the operating system, SQLite stores, JSON text, the user interface, plugins and
-- their processes, ranking with floating-point scores, and the search coordinator.
pub mod Common
pub mod Domain
pub mod Search
pub mod Mcp
pub mod Runtime
pub mod Workflow
pub mod Ai
