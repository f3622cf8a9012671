-- ===== src/Lib.antt =====
-- pg_perf_bench runs pgbench over a matrix of loads on a PostgreSQL server that it resets and fills
-- itself. This library models the parts that touch the server and the order in which they do.
--
-- The parts, from the outside in:
--   * Runner (src/pg_perf_bench/benchmark.py): `run_benchmark_iterations`, the loop over the matrix
--     with its controller, its progress file and its `try` statements. State has the live controller
--     and the points so far, Loop the operations, Held and Points what they keep of these. The parts
--     that it calls and that are not its own are the record `Parts`.
--   * Reset (the same file, src/pg_perf_bench/db_operations): `reset_db_environment` with its ways by
--     schemas, managed server, Patroni and host service.
--   * Database (src/pg_perf_bench/db_operations/db.py): `DBTasks` and the names that it refuses.
--   * Settings (src/pg_perf_bench/initialization_settings.py): `InitializationSettings`, the control
--     connection with the advisory lock, the temporary `fsync` with its journal, the replicas, and
--     `initialize_database`. Session has the `loader_connection` of initialization.py.
--   * Loader (src/pg_perf_bench/initialization.py): the plan, the scheduler's steps and the phases.
--   * Measure (src/pg_perf_bench/benchmark.py): `run_benchmark_with_evidence`.
--   * Policy and Dataset (src/pg_perf_bench/init_policy.py): the cadence of initialization and the
--     check of an existing dataset; Dataset has `maximum_tps` too.
--   * Clients (src/pg_perf_bench/client_tools.py): the choice of local pgbench and psql.
--
--   * Config (src/pg_perf_bench/config.py): `build_runtime_config`. Checks has the single options and what
--     Python and the host answer, Host and Workload and Initialization the rules of these, Build the
--     whole, Connect the arguments of a host connection, Protocol the protocol of a workload command.
--   * Workloads (src/pg_perf_bench/workloads.py): the bundled profiles that the configuration loads.
--   * Contracts (src/pg_perf_bench/contracts.py): the redaction of secrets.
--   * Join (src/pg_perf_bench/join_catalog.py, src/pg_perf_bench/join.py): the tasks of the catalog and the
--     comparison of two reports.
--   * Timeout (src/pg_perf_bench/workload_timeout.py): the scripts of a command and their replacement.
--
-- Json has the values of JSON documents and of parsed arguments, and Fallible the code that returns or
-- raises without effects.
--
-- Effects is the monad in which the stateful parts are written. What leaves the program, a statement,
-- a command, a file or the clock, is a `Call`, and an `Env` answers it from all the events before, so
-- a theorem for every environment covers poolers, crashes, cancellations and competitors. Each
-- attempted call leaves an event. Effects.Rules has the rules of the invariants. Guard reads the
-- events: which calls are destructive, when the lock is confirmed, what is the run's own. Release reads
-- off them which control connection is open and which lock is held. Guard.Watch is the interface that
-- both fill, a protocol with the rules by which it passes the calls, and the walks through the operations
-- take it as a parameter. The phases of Loader.Prepare keep a list of their statements instead.
--
-- Bounds: `_reload` polls with 302 rounds of 100 ms for a deadline at most 30 s away;
-- `wait_for_replicas` with one round for each 200 ms of the timeout, and two; `validate_plan` has as
-- many rounds as tasks, each of which finishes one. A loop without fuel raises `stalled`, which no
-- handler catches. Times are milliseconds. `pgbench_protocols` has one round more than the command has
-- characters, since the text of a nested shell is shorter than the command.
--
-- Not modelled: the command line, the reports, the transports, the sampling of
-- metrics, and texts of messages. The loader's workers are two steps, `take` and `finish_batch`, in any order (Loader.Workers);
-- in a phase, the tasks are one statement. A cancellation is an answer to a call, also within a cleanup;
-- one that arrives while a cleanup goes on, and is raised after it, is modelled for `initialize_database`
-- only. What the SQL of a plan does to its tables is not read: Loader.Durable follows the statements that
-- the load itself sends. `prepare_database` has neither `validate_plan` nor the connection around it,
-- which are modelled on their own.
pub mod Prelude
pub mod Json
pub mod Contracts
pub mod Workloads
pub mod Effects
pub mod Fallible
pub mod Settings
pub mod Database
pub mod Reset
pub mod Guard
pub mod Release
pub mod Policy
pub mod Dataset
pub mod Clients
pub mod Config
pub mod Join
pub mod Timeout
pub mod Measure
pub mod Loader
pub mod Runner
pub mod Tests
