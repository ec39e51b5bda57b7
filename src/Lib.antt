-- ===== src/Lib.antt =====
-- The execution engine of baara-next: packages/core, packages/store, packages/orchestrator,
-- packages/executor, packages/agent, packages/transport, the routes of packages/server, the tools of
-- packages/mcp and the stores of packages/web.
--
-- A task is a prompt with limits. Each run of it is an execution, a row of the database with a
-- status that moves along a state machine. The orchestrator creates executions (on request, by cron,
-- for a retry), hands them to agents, takes their reports, and schedules retries or gives up; each of
-- its handlers also appends events to a log with a number for each execution. The program is modelled
-- as it is layered:
--
-- * Base has what every module shares: tests and lists over the native numbers, tables of keyed
--   rows with their lookup lemmas, and text as code units.
-- * Core is packages/core/src: Core.Status the state machine (state-machine.ts), with
--   Core.Status.Graph for its ends; Core.Types the entities (types.ts); Core.Events the events
--   (events.ts); Core.Errors the errors (errors.ts).
-- * Store is packages/store/src: Store.Schema the tables (migrations.ts), and a module for each group
--   of the methods of `SQLiteStore` (sqlite-store.ts): Tasks, Executions, Events, Inputs, Threads,
--   Messages, Queues, Projects; Settings and Migrations have the settings and the versions of the
--   schema (migrations.ts). A method is a function from the store to a new store or an error,
--   and a query a function of the store. Unique keys, foreign keys and cascades are written out as
--   the schema declares them. Inversion, Selection, Deletion, Logs, Soundness and Evolution have
--   lemmas.
-- * Orchestrator is packages/orchestrator/src: World the state of all its objects and the effects,
--   and a module for each file: EventHandler, QueueManager, Retry, HealthMonitor, Scheduler,
--   TaskManager, and Service with a child for each group of methods of orchestrator-service.ts. A
--   handler is an action: a function from the world to a result and a world, so that what is written
--   before an exception stays written. Frames has rules for relations between the stores before
--   and after a handler, Lifecycle the sequences of calls, Outcomes how single calls end.
-- * Executor is packages/executor/src: MessageBus (message-bus.ts) with the mailboxes that it
--   implements, CheckpointService, LogWriter, Registries, Recovery, Limits (sandbox.ts), the shell and
--   cloud runtimes (Shell, CloudCode) and the sandboxes (NativeSandbox, DockerSandbox, WasmSandbox).
--   EventStream is the event iterator that the sandboxes share, Sdk what they see of the agent SDK.
-- * Agent is packages/agent/src: TurnManager, Heartbeat (checkpoint.ts), Context, Hitl, and Service
--   (agent.ts), which calls the orchestrator as the in-process transport does.
-- * Transport is packages/transport/src: HttpTransport (http-transport.ts), as what it makes of the
--   replies of the server, and DevTransport (dev-transport.ts), the waiters of the in-process one.
-- * Server is packages/server/src/routes: a handler is an action with a reply; an exception that no
--   route catches stays the error of the action (500). ExecutionRoutes, InternalRoutes, QueueRoutes,
--   TaskRoutes are the files, Replies what they share, Inputs and Conflicts their questions and answers.
-- * Mcp is packages/mcp/src/tools: a tool is an action whose reply is a content or a failure, for
--   executions (ExecutionTools, with hitl.ts), queues, tasks and projects.
-- * Web is packages/web/src/stores: ChatStore with the answers that it builds from a stream, TaskStore and
--   ExecutionStore. What the server answers is an argument (Requests).
-- * Tests has runs of the model on a small world.
--
-- Names and ids are only compared, so they are numbers; times are milliseconds as numbers, dates of
-- rows are seconds as SQLite has them. A handler of the orchestrator runs to its end before another
-- starts: JavaScript interleaves only at `await`, and the handlers await only each other. The direct
-- runs, which await a runtime, are two steps in a sequence of calls, the beginning and the report.
-- `crypto.randomUUID`, `Math.random`, number formatting, and JSON are parameters (`Platform`), as are
-- runtimes and sandboxes; that drawn ids are new is a hypothesis where it is needed. `Math.random` is
-- a fraction of natural numbers and the jitter is computed exactly, without floating point rounding.
-- All loops are structural recursion over lists, but for two on fuel: the digits of a number, enough for
-- numbers below 10^21, from where JavaScript writes exponents; and the polling of the HTTP transport,
-- where 151 rounds are enough because each takes two seconds at least and the deadline is five minutes.
-- Which texts croner takes as expressions is a parameter (`Platform`).
--
-- What the agent SDK, docker, a shell or the file system do is an argument: the messages of the SDK with
-- the state of the abort signal before each, the exit of a process, the chunks of a file. JSON is a pair
-- of functions (`Codec`); that it reads back what it wrote is a hypothesis where it is needed.
--
-- Not modelled: packages/cli; in packages/mcp the servers, the tools of templates and logs, and the
-- creation of tasks; in packages/server the chat, system and log routes, the middleware and the web
-- sockets; in packages/web the components, the queue store and the thread store; the headers of requests
-- and the text of JSON bodies; subprocesses, timers of runs, a pause of
-- a run that never ends, and the Wasm plugin; in the store the connection; in the
-- queue manager `waitForTask`, a promise over an event emitter.
pub mod Base
pub mod Core
pub mod Store
pub mod Orchestrator
pub mod Executor
pub mod Agent
pub mod Transport
pub mod Server
pub mod Mcp
pub mod Web
pub mod Tests
