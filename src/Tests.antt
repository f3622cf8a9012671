-- ===== src/Tests.antt =====
-- Concrete runs, to which the theorems apply.
pub mod Inputs
pub mod Loading
pub mod Joining
pub mod Timeouts
use pg_perf_bench.Prelude.{
  ℕ, ℤ, ◌≤◌, Bool, true, false, not, ◌≡◌, refl, String, none, some, List, [], ◌∷◌, length, arith,
  All, ltb, str_eq, if◌then◌else◌,
}
use pg_perf_bench.Effects.{
  ok, Exc, Identity, nothing, truth, Call, Statement, returns, Env, World, err, pure, call,
}
use pg_perf_bench.Settings.{
  Settings, LoadOptions, ConnectionType, create, open_settings, close, reopen_after_restart,
  assert_held, initialize_database_alone, disable, connect_control, enter_session, acquire_lock,
  disconnect_control, leave_session, is_usable, restore, unlock, drop_session,
}
use pg_perf_bench.Effects.Rules.{Steps-pure}
use pg_perf_bench.Release.{IsReleased}
use pg_perf_bench.Release.Controller.{
  open_settings-IsReleased, close-IsReleased, initialize_database_alone-IsReleased,
}
use pg_perf_bench.Settings.Durable.{IsJournaled, disable-IsJournaled}
use pg_perf_bench.Database.{DatabaseConf}
use pg_perf_bench.Reset.{Target, WorkloadConf, reset_db_environment}
use pg_perf_bench.Guard.{Guarded, confirmed}
use pg_perf_bench.Guard.Reset.{reset_db_environment-Guarded}
use pg_perf_bench.Guard.Open.{open_settings-confirmed, reopen_after_restart-confirmed}
use pg_perf_bench.Policy.{initializes_iteration, policy_evidence}
use pg_perf_bench.Policy.Cadence.{initializes_iteration-policy_evidence}
use pg_perf_bench.Loader.{
  LoadTask, start_state, Server, Phases, create_schema, prepare_database, execute,
}
use pg_perf_bench.Loader.Batches.{IsPartition, ranges, ranges-IsPartition}
use pg_perf_bench.Loader.Durable.{is_logged, prepare_database-IsLogged}
use pg_perf_bench.Json.{Value, Fields}
use pg_perf_bench.Dataset.{Catalog, validate_existing_dataset, maximum_of, maximum_tps, winner}
use pg_perf_bench.Dataset.Usable.{IsUsable, validate_existing_dataset-IsUsable}
use pg_perf_bench.Dataset.Best.{IsAmong, IsCompletedRun, maximum_tps-IsLargest}
use pg_perf_bench.Clients.{
  ClientTool, is_older, Outside, installed_client_tools, select_latest_client_tool,
}
use pg_perf_bench.Clients.Latest.{select_latest_client_tool-IsLatest}
use pg_perf_bench.Measure.{
  pending, Evidence, samples, Tools, Plan, tool, run_benchmark_with_evidence,
}
use pg_perf_bench.Measure.Completed.{IsSound, run_benchmark_with_evidence-IsSound}
use pg_perf_bench.Runner.{Parts, RunConf, Run, lift, outside, run_benchmark_iterations}
use pg_perf_bench.Runner.Points.{IsNumbered}
use pg_perf_bench.Runner.Held.{view}
use pg_perf_bench.Runner.Release.{run_benchmark_iterations-IsReleased}
use pg_perf_bench.Runner.Results.{
  run_benchmark_iterations-IsNumbered, length-run_benchmark_iterations,
}

-- A primary on which nobody else holds the lock, and a role that is no superuser.
abbrev primary : Env
primary t (Call.control Statement.try_advisory_lock) = returns (truth true)
primary t (Call.control Statement.held_here) = returns (truth true)
primary t (Call.control Statement.replication_privilege) = returns (truth true)
primary t (Call.control _) = returns (truth false)
primary t _ = returns nothing

abbrev digest : Identity → String
digest i = i.system_identifier

abbrev options : LoadOptions
options = record {
  workers = 2;
  batch_rows = 1000;
  table_mode = "unlogged";
  fsync = "keep";
  synchronous_commit = "keep";
  timeout = 300000;
}

abbrev fresh : World Settings
fresh = record { trace = []; self = create options ConnectionType.local true "postgres" }

abbrev conf : DatabaseConf
conf = record { database = "bench"; user = "bench" }

abbrev workload : WorkloadConf
workload = record {
  allow_database_reset = true;
  schema_reset = false;
  managed = false;
  managed_pg_info = false;
  drop_os_caches = true;
  pg_custom_config = false;
}

abbrev local_target : Target
local_target = record {
  kind = ConnectionType.local;
  conf = conf;
  workload = workload;
  schema_connection = false;
  schemas = [];
}

reset_db_environment-Guarded_example :
    Guarded (some "bench") (reset_db_environment primary digest local_target fresh).1.trace
reset_db_environment-Guarded_example =
    reset_db_environment-Guarded primary digest local_target fresh tt

-- A controller that has the connection and the lock.
abbrev in_use : World Settings
unfolding open_settings connect_control enter_session acquire_lock create call
in_use = (open_settings primary digest true fresh).1

close-IsReleased_example : IsReleased (close primary digest in_use).1
unfolding open_settings connect_control enter_session acquire_lock create call
close-IsReleased_example = close-IsReleased primary digest in_use (refl, refl)

-- A standby: `open` refuses it.
abbrev standby : Env
standby t (Call.control Statement.in_recovery) = returns (truth true)
standby t c = primary t c

open_settings-IsReleased_example : IsReleased (open_settings standby digest true fresh).1
unfolding open_settings connect_control enter_session disconnect_control create call
open_settings-IsReleased_example =
    open_settings-IsReleased standby digest true fresh {e = Exc.configuration}
      (refl, refl, refl, refl, refl) refl

open_settings-confirmed_example :
    let w = (open_settings primary digest true fresh).1 in
    Guarded none w.trace × (confirmed w.trace ≡ true)
unfolding open_settings connect_control enter_session acquire_lock create call
open_settings-confirmed_example = open_settings-confirmed none primary digest fresh tt true refl

reopen_after_restart-confirmed_example :
    let w = (reopen_after_restart primary digest fresh).1 in
    Guarded none w.trace × (confirmed w.trace ≡ true)
unfolding reopen_after_restart disconnect_control open_settings connect_control enter_session
    acquire_lock create call
reopen_after_restart-confirmed_example =
    reopen_after_restart-confirmed none primary digest fresh tt refl

initialize_database_alone-IsReleased_example :
    IsReleased
      (initialize_database_alone primary digest
        (pure tt)
        options
        ConnectionType.local
        true
        []
        fresh).1
initialize_database_alone-IsReleased_example =
    initialize_database_alone-IsReleased primary digest (pure tt) (Steps-pure tt) options
      ConnectionType.local true [] fresh refl refl

abbrev orders : LoadTask
orders = record {
  name = "orders";
  is_blank = false;
  count = some 10;
  max_rows_per_key = 300;
  depends_on = "customers" ∷ [];
}

ranges-IsPartition_example :
    IsPartition 1 10 (ranges 10 1000 ("customers" ∷ []) (start_state orders))
ranges-IsPartition_example =
    ranges-IsPartition 10 1000 ("customers" ∷ []) orders 10 refl refl (omega arith)

initializes_iteration-policy_evidence_example :
    true ≡ not (policy_evidence (some "once")).existing_dataset
unfolding initializes_iteration policy_evidence
initializes_iteration-policy_evidence_example =
    initializes_iteration-policy_evidence "once" 1 true (omega arith) refl

-- A server with two tables that refuses nothing.
abbrev two_tables : Server
two_tables = record {
  refuses = λ log sql. none;
  tables = λ log. "a" ∷ "b" ∷ [];
  stored = λ log. "a" ∷ "b" ∷ [];
  relations = λ log. "a" ∷ "b" ∷ [];
  indexes = λ log. 0;
  foreign_keys = λ log. 0;
}

abbrev all_phases : Phases
all_phases = record {
  has_schema = true;
  has_prepare = true;
  has_after_data = true;
  has_finalize = true;
  table_mode = "unlogged";
  workers = 4;
}

prepare_database-IsLogged_example :
    is_logged "a" (prepare_database two_tables all_phases (record { trace = []; self = [] })).1.self
    ≡ true
unfolding prepare_database create_schema execute call
prepare_database-IsLogged_example =
    prepare_database-IsLogged two_tables all_phases (record { trace = []; self = [] })
      ("a" ∷ "b" ∷ []) refl refl "a" refl

abbrev tools : Tools ℕ ℕ ℕ
tools = record {
  initialize_database = pure tt;
  run_initialization = pure tt;
  vacuum_analyze = pure tt;
  collect_storage = pure 8192;
  start_sampler = pure tt;
  await_sampler = pure (false, samples 3);
  run_workload = pure (record { returncode = 0; reports_abort = false; stdout = "tps = 42" });
  parse_metrics = λ stdout. some 42;
}

abbrev plan : Plan ℕ ℕ ℕ
plan = record { initialize = true; fast = true; samples = true }

abbrev unmeasured : World (Evidence ℕ ℕ ℕ)
unmeasured = record {
  trace = [];
  self = record {
    initialization = none;
    before_workload = none;
    after_workload = none;
    workload = none;
    workload_finished = false;
    system_metrics = none;
    status = pending;
    metrics = none;
  };
}

run_benchmark_with_evidence-IsSound_example :
    IsSound tools plan (run_benchmark_with_evidence ℕ ℕ ℕ tools plan unmeasured).1.self
unfolding run_benchmark_with_evidence tool call
run_benchmark_with_evidence-IsSound_example =
    run_benchmark_with_evidence-IsSound tools plan unmeasured (λ q. cc) refl

abbrev parts : Parts
parts = record {
  Evidence = ℕ;
  Validation = Bool;
  measure = λ request. pure request.at.index;
  validate_dataset = pure true;
  check_session = pure tt;
  load_plan = err Exc.configuration;
  check_script = λ command. none;
}

-- Two iterations on an existing dataset.
abbrev run_conf : RunConf
run_conf = record {
  workload = workload;
  conf = conf;
  kind = ConnectionType.local;
  has_connection = true;
  init_policy = "skip";
  fast = false;
  options = options;
  command_timeout = 300000;
  statement_timeout = true;
  checkpoint_path = true;
  commands = "pgbench -c 1 bench" ∷ "pgbench -c 2 bench" ∷ [];
  values = 1 ∷ 2 ∷ [];
}

abbrev idle : World (Run ℕ Bool)
idle = record {
  trace = [];
  self = record {
    settings = create options ConnectionType.local true "postgres";
    opened = false;
    retained = false;
    results = [];
    failure = none;
  };
}

run_benchmark_iterations-IsReleased_example : IsReleased (
    view parts run_conf.init_policy (run_benchmark_iterations primary digest parts run_conf idle).1)
unfolding create pure
run_benchmark_iterations-IsReleased_example =
    run_benchmark_iterations-IsReleased primary digest parts run_conf
      (record {
        measures = λ q. Steps-pure q.at.index;
        validates = Steps-pure true;
        checks = λ w. (refl, refl);
      })
      idle (refl, refl, refl, refl, refl) refl

run_benchmark_iterations-IsNumbered_example :
    let w = (run_benchmark_iterations primary digest parts run_conf idle).1 in
    IsNumbered parts run_conf 1 w.self.results × (length w.self.results ≤ 2)
run_benchmark_iterations-IsNumbered_example =
    run_benchmark_iterations-IsNumbered primary digest parts run_conf idle refl

length-run_benchmark_iterations_example :
    length (run_benchmark_iterations primary digest parts run_conf idle).1.self.results ≡ 2
unfolding run_benchmark_iterations lift outside create assert_held is_usable open_settings close
    restore connect_control enter_session leave_session acquire_lock disconnect_control unlock
    drop_session initializes_iteration call
length-run_benchmark_iterations_example =
    length-run_benchmark_iterations primary digest parts run_conf idle refl refl

abbrev catalog : Catalog
catalog = record {
  is_accessible = λ schema. ok true;
  relations = λ schema. ok ("orders" ∷ []);
  read = λ schema relation. ok tt;
  invalid_indexes = λ schema. ok [];
}

validate_existing_dataset-IsUsable_example : All (IsUsable catalog) ("shop" ∷ [])
unfolding validate_existing_dataset
validate_existing_dataset-IsUsable_example =
    validate_existing_dataset-IsUsable catalog ("shop" ∷ []) false refl

abbrev run_at : ℕ → (status : String) → Fields
run_at tps status = Fields.field "status" (Value.text status) (
    Fields.field "iteration" (Value.integer (ℤ.pos tps)) (
      Fields.field "metrics"
        (Value.object (Fields.field "tps" (Value.integer (ℤ.pos tps)) Fields.end)) Fields.end))

abbrev matrix : List Fields
matrix = run_at 700 "completed" ∷ run_at 900 "failed" ∷ run_at 800 "completed" ∷ []

-- The order of natural numbers; others are taken to be 0.
abbrev natural : Value → ℕ
natural (Value.integer (ℤ.pos n)) = n
natural _ = 0

abbrev is_less : Value → Value → Bool
is_less a b = ltb (natural a) (natural b)

is_less-irreflexive : (a : Value) → is_less a a ≡ false
is_less-irreflexive a = grind arith

is_less-transitive : (a b c : Value) → is_less a b ≡ true → is_less b c ≡ true → is_less a c ≡ true
is_less-transitive a b c h k = grind arith

maximum_tps-IsLargest_example :
    (n : Value) × (run : Fields) × (IsAmong run matrix)
    × (IsCompletedRun run n)
    × (maximum_of (Value.integer (ℤ.pos 800), run_at 800 "completed") ≡ maximum_of (n, run))
    × ((other : Fields) (m : Value)
        → IsAmong other matrix
        → IsCompletedRun other m
        → is_less n m ≡ false)
unfolding maximum_tps
maximum_tps-IsLargest_example =
    maximum_tps-IsLargest is_less is_less-irreflexive is_less-transitive matrix
      {best = maximum_of (Value.integer (ℤ.pos 800), run_at 800 "completed")} refl

abbrev tool_at : String → ClientTool
tool_at path = record {
  path = path;
  major = if str_eq path "/usr/bin/pgbench" then 16 else 17;
  minor = 2;
}

abbrev host : Outside
host = record {
  inspect_client_tool = λ name path. ok (tool_at path);
  candidate_paths = λ name. "/usr/bin/pgbench" ∷ "/usr/lib/postgresql/17/bin/pgbench" ∷ [];
  sibling = λ path name. none;
  path_less = λ p q. false;
}

select_latest_client_tool-IsLatest_example :
    (tools : List ClientTool) × (installed_client_tools host "pgbench" ≡ ok tools)
    × All (λ x. is_older (tool_at "/opt/pgbench") x ≡ false) tools
unfolding select_latest_client_tool winner
select_latest_client_tool-IsLatest_example =
    select_latest_client_tool-IsLatest host (λ p. refl) (λ p q r h k. h) "pgbench"
      (some "/opt/pgbench") (tool_at "/opt/pgbench") refl

-- A load on `fsync=off`, whose control connection is open.
abbrev loading : World Settings
loading = record {
  trace = [];
  self = record (create (record options { fsync = "off" }) ConnectionType.local true "postgres") {
    db = true;
    session = true;
    entered = true;
    lock_acquired = true;
    state_path = some "7412.json";
    identity = some (record {
      system_identifier = "7412";
      address = "127.0.0.1";
      port = 5432;
      data_directory = "/var/lib/postgresql";
      host = none;
    });
  };
}

disable-IsJournaled_example : IsJournaled (disable primary loading).1.trace
disable-IsJournaled_example = disable-IsJournaled primary loading tt
