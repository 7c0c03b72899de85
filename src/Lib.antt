-- ===== src/Lib.antt =====
-- quacker: a workflow engine on a SQL database. Clients enqueue runs of steps; the engine of each node
-- claims due steps, runs their tasks and records the outcomes; all state is in the database, so the
-- transactions of internal/store are where the promises of the program are kept.
--
-- Table models the SQL statements that the store uses, on tables that are lists of rows. Store/Model has
-- the rows (internal/store/rows.go, schema.go) and the database, Store/Gates the predicates of the claim
-- path (driver/driver.go, sqlite.go). The transactions of internal/store/queries.go are functions of the
-- database: Store/Claim (ClaimDue, ClaimDueMulti), Store/Complete (CompleteStep, CompleteSteps,
-- FinalFailStep, ephemeral deletion), Store/Lifecycle (retry, park, cancel, snooze, pause, resume, and
-- the leases of store.go), Store/Purge (PurgeRuns and the dead-letter queue). Store/Journal is
-- journal.go, Store/Recovery is InterruptAll of store.go and recoverInterrupted of schema.go. A
-- transaction that fails is rolled back, so its error carries no database. The claim lock and the run
-- lock make each transaction atomic; Store/Transitions makes each commit a step of a relation, and an
-- interleaving of goroutines and nodes is a sequence of such steps (PurgeRuns' several commits are one). Store/Dag states what the step graph
-- of a run promises. Store/Enqueue is CreateRunsUnique (unique keys, cancel strategies, sequence numbers, multi-row inserts) and
-- FireCron, and Store/Enqueue/History adds them to the histories. Store/Queries has the queries that only
-- read, and the crons, event bindings and logs.
--
-- The engine of internal/engine is a record of its maps and counters (Engine/State), and a World is an
-- engine with its database. An operation of the engine is a function of the world between two points at
-- which other goroutines may act: Engine/Triggers (crons and event bindings of cron.go and events.go, and what
-- registering a task arms), Engine/Dag (validateDAG of dag.go), Engine/Build (buildRun), Engine/Control
-- (Cancel, PauseRun, ResumeRun, Snooze, finishRun), Engine/Enqueue (EnqueueBatch, createRuns), Engine/Completer (completer.go), Engine/Execute (execute,
-- as one function up to the end of its locked section, one from there to the task's body and one from the
-- body's end on), Engine/Execute/Race (execute's two sections interleaved with the two halves of Cancel or PauseRun,
-- its commit and its locked section), Engine/Tick (tick, idleWait). What the
-- engine sends to the event bus, and what its waiters were released with, are lists of the record.
-- Engine/Durable is SleepDurable, RunOnce and WaitFor of durable.go inside one execution of a task. Bus is
-- internal/bus/bus.go, Workflow is NewGroupWorkflow of workflow.go, and Views has the statuses that dag.go and
-- runtree.go show for groups. Engine/Retry is Backoff of internal/engine/retry.go and Engine/CronWait is nextCronWait of cron.go. The
-- lemmas stand in the children of these modules, named for what they prove.
--
-- Timestamps and counters are natural numbers with 0 for "unset", as in the rows; int64 overflow is out of
-- scope. Rows that an ORDER BY leaves equal come in table order. A database error other than the ones that
-- the code tests for aborts the transaction and is not modelled. validateDAG's loop runs on fuel, the number of steps
-- (Engine/Dag/Kahn). The loops of PurgeRuns run on fuel, the
-- size of the table that each empties plus one round to find it empty (Store/Purge/Cleared). Float
-- scaling and the random jitter of a retry delay are parameters. Statements that the source splits to
-- stay below a parameter budget are one statement here.
--
-- Not modelled: the engine's goroutines, timers and channels, Emit and cronTick, the public API's generic wrappers, hooks, metrics,
-- tracing and rendering, file locks and connection pools, the Postgres and MySQL dialects of the same
-- statements, and the website and examples.
pub mod Prelude
pub mod Table
pub mod Store
pub mod Engine
pub mod Bus
pub mod Views
pub mod Workflow
pub mod Examples
