-- ===== src/Lib.antt =====
-- Philotes captures the changes of PostgreSQL databases and brings them to Iceberg tables. These modules
-- model the parts of the Go program that carry its own logic, as functions on explicit states, and prove
-- what they do.
--
-- The parts and how they interact (paths from the repository's root):
-- - A pipeline (internal/cdc/pipeline) takes events from a source, writes each to a buffer with retries,
--   and saves the position of the last one as a checkpoint. It stands on a state machine, which the
--   backpressure controller moves as well: it pauses the pipeline while the buffer is full.
-- - The buffer (internal/cdc/buffer) is a table of PostgreSQL. The batch processor reads batches from it,
--   hands them to a handler, marks them, and sends what fails too often to the dead letters
--   (internal/cdc/deadletter).
-- - The auto-scaling (internal/scaling) evaluates the rules of policies over measured values, and scales
--   their targets through an executor, with a cooldown between two scalings.
-- - The alerting (internal/alerting) evaluates alert rules over measured series; an alert is pending until
--   its condition has lasted, fires, and is resolved. The notifier (notifier.go) sends what fires through
--   the channels of the routes that match.
-- - The health checks (internal/cdc/health) ask the components, the pipeline among them, and answer for all.
-- - Engines that answer queries are scaled by policies over the load of their queries
--   (internal/scaling/query); what is idle is scaled to zero and woken again (internal/scaling/idle,
--   internal/scaling/wake).
-- - The installer (internal/installer) runs a deployment, tracks its steps and progress, and retries it.
-- - The API keeps tenants, their members and their custom roles (internal/api): routes on a service on
--   tables of PostgreSQL, and middlewares that let a request through for a tenant and a permission.
-- - The handler of the batches writes them to Iceberg tables, whose schemas are built from the first events
--   (internal/iceberg).
--
-- The files:
-- - Common and its children: shared names, Boolean tests, lists over native numbers, Go's errors, and
--   float64 as a parameter (Floats) with the laws that are used of it (FloatLaws); Int has Go's `int` of 64
--   bits, whose sums and products wrap, and Maps has maps from texts. Actions has actions on a state that
--   return or raise an error, and rules for what they ensure.
-- - Cdc: `Event`, `Checkpoint` and the interface of the checkpoints (internal/cdc/types.go,
--   internal/cdc/checkpoint/checkpoint.go).
--   Cdc.Checkpoints has the checkpoints in PostgreSQL (checkpoint/postgres.go), Saved and Positions what is
--   loaded.
-- - DeadLetter: `FailedEvent`, the interface of the queue and the conversions (deadletter.go). JSON is a
--   parameter. DeadLetter.Postgres has the queue in PostgreSQL (deadletter/postgres.go), Recovery what is
--   read of it, and Statistics what it counts.
-- - Pipeline.State: the states, `validTransitions`, `Transition` (state.go). Graph has the diagram.
-- - Pipeline.Backpressure: the controller (backpressure.go); Hysteresis compares it with a trigger.
-- - Pipeline.Retry: `Execute`, `isRetryable`, `calculateBackoff` (retry.go). Backoff has the bounds of the
--   waits, Attempts what a result means, Keeps a rule for invariants.
-- - Pipeline.Run: the state of a pipeline (pipeline.go); Processing has `processEvent`, `saveCheckpoint`
--   and `restoreCheckpoint`; Loop has `Run`; Results, Ends and Loss have what holds of it, and Resumes is
--   about a start behind a save.
-- - Buffer: the interface `Manager` (buffer.go). Buffer.Postgres has the table and Statements the
--   operations on it (postgres.go); Rows, Queue, Order and Table have their theorems.
-- - Buffer.Batch: the processor (batch.go); Process has `processBatchWithRetry`, Lifecycle `Start`, `Stop`
--   and the cleanup. Accounts, Tries, Rounds and Accepted say how a round ends, Delivery what it takes from the
--   table.
-- - Scaling: policies, rules, states and decisions (internal/scaling/types.go); Validation has `Validate`
--   and Validity what it accepts. Scaling.Evaluator is `EvaluatePolicy` (evaluator.go); Pending and Steps
--   follow its loops, Decisions says what it decides. Scaling.Manager has the rounds of the manager and the
--   dry runs (manager.go); Cooldown and DryRun are about them. Scaling.Lifecycle is its start and stop, and
--   Scaling.Executors has the executors (executor.go). Scaling.Query is the evaluation of query policies
--   (query/policy.go), Scaling.Idle the idle detector (idle/detector.go), Scaling.Wake the wakes
--   (wake/trigger.go); Decides, ScaledToZero and Wakes are about them.
-- - Alerting: rules, instances, silences and the evaluation of a rule (internal/alerting/types.go,
--   evaluator.go). Alerting.Manager has what becomes of an evaluation (manager.go), Resolution and
--   Measured the end of a cycle, Streaks what a pending alert means. Alerting.Notifier has the notifier (notifier.go), Since
--   and Intervals the repeat intervals of its routes.
-- - Installer: the messages between its parts. Installer.Errors has the patterns of errors (errors.go) and
--   Suggestions what is suggested; Installer.Progress the steps and their shares (progress.go);
--   Installer.Tracker the tracker (tracker.go), with Steps, Plan and Methods, Keeps and Calls being about
--   it; Installer.Retry the retry (retry.go), with Renewal and Restarts on what it does; Installer.Runner what a run tells the tracker (pulumi.go).
-- - Health: the health checks and their endpoints (health.go, and `HealthChecker` of pipeline.go); Answers is
--   about what they answer.
-- - Iceberg: types and the mapping from PostgreSQL (internal/iceberg/types.go, schema/types.go).
--   Iceberg.Schema builds and merges schemas (schema/schema.go); Names, Added and Evolution are about their
--   fields.
--   Iceberg.Writer has the writer of batches (writer.go, parquet.go, batch_handler.go of
--   internal/iceberg/writer); Commits is about what it has committed, Delivery about the
--   batch processor that uses it.
-- - Tenants: tenants, members, roles and the tables (internal/api/models/tenant.go). Requests has the
--   requests and their validation, Store the statements on the tables (repositories/tenant.go, role.go),
--   Service the service (services/tenant.go), Handlers the routes (handlers/tenant.go), and Access the
--   middlewares (middleware/tenant.go). Reads, Writes, Creates, Steps, Answers and Routes follow a request
--   to what it writes. Authority says who may change what (with Outside for the rows of other tenants),
--   Readers who may read it, Governed that tenants keep their admins (with Counts, Admins and Added),
--   Permitted what the middlewares let through (with Permit and Vouched), and Ranks what the ranks of the
--   roles mean.
-- - Tests of each part run it on small inputs.
--
-- How the program is written here:
-- - A method that holds a lock is one step. A goroutine's interleavings are lists of inputs: `Run` takes
--   what each `select` receives, and the calls of `Pause` and `Resume` between them; the check of the
--   backpressure controller is given the state that it read and the machine on which it then acts.
-- - A statement of SQL is one step on the table. It fails as a list of faults in the state says, and then
--   changes nothing. Rows of one time are read in the order in which they stand, which PostgreSQL leaves
--   open. What a column of JSON gives back of columns and metadata is taken to be what was stored; for the
--   text of a dead letter it is a function of the table.
-- - The repository and the executor of the scaling are interfaces with states of their own,
--   of which nothing is relied on; those of the alerting, the idle detector and the Iceberg
--   writer are services. The answers of Prometheus are a function from rules. One reading of the clock serves an
--   evaluation.
-- - The intervals of tickers are above 0: time.NewTicker panics otherwise.
-- - Counters and times are natural numbers; the counters do not wrap. Durations are nanoseconds.
-- - The context's end is an input, or a function from the number of an attempt. A panic is a result.
-- - No fuel is used: loops of attempts recurse on the attempts that are left, and a run of a loop on the
--   list of its inputs.
-- - A request to the routes on tenants runs without another one in between; UUIDs are numbers. What cannot
--   be parsed, and a request without a user, are `none`.
-- - Logging, metrics, the text of messages (errors carry numbers) and the connections are left out.
--
-- Not modelled: the reader of PostgreSQL's replication (internal/cdc/source), which is a loop around a
-- library; the catalog and the storage of
-- Iceberg tables; the statements of SQL of the repositories of the alerting and the scaling; the nodes of the
-- clusters (internal/scaling/nodepool, kubernetes, cloudprovider); the resources that Pulumi creates, web
-- sockets and costs of the installer; the rest of the API (internal/api), and its authentication, which the
-- routes on tenants are given the user of; the other directories (internal/vault,
-- internal/oidc, internal/crypto, internal/config, deployments, cmd). Much of this calls other systems; the
-- validation of requests and of the configuration, and the manager of node pools, would be matters of their
-- own.
pub mod Common
pub mod Cdc
pub mod DeadLetter
pub mod Buffer
pub mod Pipeline
pub mod Scaling
pub mod Tenants
pub mod Alerting
pub mod Installer
pub mod Health
pub mod Iceberg
