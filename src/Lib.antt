-- ===== src/Lib.antt =====
-- Phus is an agent runtime in TypeScript: an LLM loop with tools, plans that run as graphs of steps,
-- sessions on SQLite, and several channels. This library models its core logic as executable
-- functions and proves what makes each part correct. Paths are from the repository's root.
--
-- How the parts fit: every outbound LLM request passes the fuse (Fuse), which may stop it for an
-- unpaid account or a spent budget, and goes to an endpoint that the provider mesh (Mesh) picks,
-- with a circuit breaker, retries and failover. A plan is run in passes over the levels of its
-- graph (Plan), each step by an executor that retries; its state is saved in the store (PlanStore),
-- which also finds the plan to resume. Everything a session does is on its tape, with checkpoints
-- to resume from (Tape); before each request the context is measured and, if it is too large,
-- compacted into a summary (Compact). The people who write on the channels have identities
-- (Identity). Sessions have runtimes of their own, kept in a registry that evicts the least
-- recently used (Registry); the terminal keeps its chat in a state with a reducer (TuiState) and
-- shows the end of it in a window (Scroll). Parts of the runtime call each other through hooks
-- (Hooks); the scheduler fires hooks when a cron expression is due (Scheduler), and messages from
-- outside wait in an inbox until the agent takes them (Steering).
--
-- Modules and sources:
--   Prelude         shared names, Boolean tests, lists over the native numbers, text, stable
--                   sort, maps with texts as keys, integers, values and their JSON
--   Fuse            packages/runtime/src/infra/llm-fuse.ts: LlmFuse is the record LlmFuse; check,
--                   report, resetTurn and status are functions on it. Fuse.Trace has whole runs,
--                   Fuse.Window, Fuse.Budget, Fuse.Hours and Fuse.Billing the proofs
--   Mesh            packages/runtime/src/llm/provider-mesh: Mesh is types.ts, Mesh.Circuit circuit.ts,
--                   Mesh.Routing routing.ts, Mesh.Health health.ts, Mesh.Call index.ts
--   Plan            packages/core/src/session/plan-store.ts for the types; Plan.Order and Plan.Pass are
--                   plan-runner.ts (sortSteps, computeLevels, one pass of runPlan), Plan.Runner its
--                   replans, Plan.Executor executor/index.ts, all in
--                   packages/runtime/src/core/runtime
--   PlanStore       packages/core/src/session/plan-store.ts: the plans table; PlanStore.Validation
--                   has the tables of skill validation
--   Registry        packages/runtime/src/bridge/session-runtime-registry.ts
--   Scroll          packages/tui/src/runtime/scroll.ts
--   Command         packages/runtime/src/runtime/internal-commands/parser.ts
--   TuiState        packages/tui/src/state/state.ts: Items and Panel hold the operations on chat items
--                   and on the plan, Reducer is appReducer
--   Hooks           packages/core/src/runtime/hook/registry.ts; Hooks.Run is execute
--   Scheduler       packages/core/src/runtime/scheduler/index.ts and hook/ctx-builder.ts; it fires
--                   through Hooks.Run.execute
--   Steering        packages/core/src/runtime/steering/index.ts
--   Identity        packages/core/src/session/session-identity.ts: Identity has the tables and queries,
--                   Identity.Methods the methods
--   Tape            packages/core/src/session/tape.ts; Tape.Checkpoint is checkpoint.ts
--   Compact         packages/core/src/session/context-budget.ts; Compact.Session is compaction.ts and
--                   Compact.Auto auto-compact.ts
--   SessionStore    packages/core/src/session/session-store.ts: SessionStore has the table and create,
--                   SessionStore.Methods and SessionStore.Bootstrap the other methods
--
-- Conventions: a method that changes an object returns the new record; a method that throws returns
-- a result or an Option; clocks, random numbers, callbacks and what a network call does are
-- arguments. Numbers are natural numbers, and priorities integers; where the source subtracts, the
-- comparison is written without subtraction. A loop that is not structural runs on fuel: `call` of
-- the mesh has one round for each endpoint and one more, and call-settles shows that it never runs
-- out.
-- sortSteps and computeLevels go one call deeper than there are steps, executeStep has a round for
-- each retry that is left and one more, the batches of a level are at most its steps, and eviction
-- takes an entry away in each turn.
--
-- A table of SQLite is the list of its rows in the order of insertion, and a statement is a function
-- on it; where the order of rows or of texts is SQLite's own, it is an argument. A column that holds
-- JSON has what JSON.parse makes of its text, and what is written to it is the value after the way
-- through JSON.stringify and JSON.parse, as Prelude.Json has it: functions and `undefined` are left
-- out (an array has null for them), and an Error is an object without fields.
--
-- Not modelled: logging that nothing reads, rendering of text for people, SQLite itself and the file
-- system, the SDKs of the model providers, what the implementation of a hook does beside its result,
-- methods that run while another one waits (each call runs to its end), the vendored terminal
-- library, and values that JSON.stringify refuses (a cycle, a BigInt) or that have a toJSON.
pub mod Prelude
pub mod Fuse
pub mod Mesh
pub mod Plan
pub mod PlanStore
pub mod Registry
pub mod Scroll
pub mod Command
pub mod TuiState
pub mod Hooks
pub mod Scheduler
pub mod Steering
pub mod Identity
pub mod Tape
pub mod Compact
pub mod SessionStore
