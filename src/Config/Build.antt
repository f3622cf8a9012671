-- ===== src/Config/Build.antt =====
-- `build_runtime_config` (src/pg_perf_bench/config.py). `raw_args` is the dictionary itself.
use pg_perf_bench.Prelude.{
  ℤ, Float, exceeds_thousandths, Bool, true, false, not, ◌&&◌, String, Option, none, some,
  if◌then◌else◌,
}
use pg_perf_bench.Effects.{Exc, Result, ok, err}
use pg_perf_bench.Fallible.{◌>>=◌, ◌>>◌, reject}
use pg_perf_bench.Clients.{select_local_clients}
use pg_perf_bench.Json.{Value, Fields, get, get_or, is_text, is_truthy, or_else}
use pg_perf_bench.Config.Checks.{
  Outside, is_missing, positive_int, positive_float, system_metrics_interval, report_name, to_text,
  reject_database_tunnel,
}
use pg_perf_bench.Config.Host.{
  DatabaseConfig, select_connection, database_of, host_of, validate_host,
}
use pg_perf_bench.Config.Workload.{
  Selection, check_policy, check_target, iterations_of, select_workload,
}
use pg_perf_bench.Config.Initialization.{
  plan_of, init_fsync, init_mode_of, check_reset, loader_profile, check_fast_if, benchmark_option,
  init_command_of, workload_command_of,
}
use pg_perf_bench.Config.Protocol.{pgbench_protocol}
pub use pg_perf_bench.Config.Records.{
  WorkMode, WorkloadConfig, RuntimeConfig, Choices, Programs, policy_of, path_option, entrypoint_if,
}
unfoldable pub use pg_perf_bench.Config.Records.{mode_of}

module _ (outside : Outside) where
  abbrev pub is_missing_file : Value → Bool
  is_missing_file path =
      is_truthy path && not (outside.is_file (outside.expanduser (to_text outside path)))

  unfoldable pub limited_timeout : Value → Result (Option Float)
  limited_timeout value = do
    seconds ← positive_float outside value
    reject (exceeds_thousandths seconds 2147483647)
    ok (some seconds)

  abbrev pub bounded_timeout : Value → Result (Option Float)
  bounded_timeout Value.null = ok none
  bounded_timeout value = limited_timeout value

  -- The option, or the profile's own default; PostgreSQL counts milliseconds in 31 bits.
  abbrev pub timeout_value : Option Value → Value → Result Value
  timeout_value profile Value.null =
      benchmark_option outside "default_statement_timeout_seconds" profile
  timeout_value profile value = ok value

  unfoldable pub statement_timeout_of : Option Value → Fields → Result (Option Float)
  statement_timeout_of profile values = do
    value ← timeout_value profile (get "statement_timeout_seconds" values)
    bounded_timeout value

  abbrev pub positive_if : Value → Result (Option Float)
  positive_if Value.null = ok none
  positive_if value = do number ← positive_float outside value; ok (some number)

  -- The checks before the clients are looked for.
  unfoldable pub choices_of : (managed : Bool) → DatabaseConfig → Fields → Result Choices
  choices_of managed database values = do
    check_policy (policy_of values) values
    check_target database.database
    iterations ← iterations_of outside values
    selection ← select_workload outside values
    reject (is_missing_file (get "pg_custom_config" values))
    loader ← loader_profile outside selection.profile selection.path
    plan ← plan_of loader
    let mode = init_mode_of plan values
    check_fast_if outside (is_text "fast" mode) selection.path plan (policy_of values) managed
        values
    let reset = get_or (Value.text "database") "reset_mode" values
    check_reset reset mode (policy_of values) values
    init_command ← init_command_of outside selection.profile values
    reject (
        is_text "legacy" mode && not (is_text "skip" (policy_of values)) && is_missing init_command)
    ok (record {
      iterations = iterations;
      selection = selection;
      plan = plan;
      init_mode = mode;
      reset_mode = reset;
      init_command = init_command;
    })

  unfoldable pub programs_of : Selection → Fields → Result Programs
  programs_of selection values = do
    clients ←
        select_local_clients outside.clients (path_option (get "pgbench_path" values))
          (path_option (get "psql_path" values))
    command ← workload_command_of outside selection.profile values
    timeout ← statement_timeout_of selection.profile values
    ok (record { clients = clients; command = command; timeout = timeout })

  unfoldable pub workload_from :
      (managed : Bool) (managed_pg_info : Value)
      → Choices
      → Programs
      → Fields
      → Result WorkloadConfig
  workload_from managed managed_pg_info choices programs values = do
    workers ← positive_int outside (get_or (Value.integer (ℤ.pos 4)) "init_workers" values)
    batch_rows ←
        positive_int outside (get_or (Value.integer (ℤ.pos 100000)) "init_batch_rows" values)
    protocol ←
        pgbench_protocol outside.lex programs.command (is_truthy (get "pgbench_prepared" values))
    scale ←
        positive_float outside
          (get_or (Value.real (Float.finite false 1 0)) "workload_scale" values)
    interval ←
        system_metrics_interval outside
          (get_or (Value.real (Float.finite false 5 0)) "system_metrics_interval" values)
    metrics_duration ← positive_if (get "system_metrics_duration" values)
    ok (record {
      benchmark_type = choices.selection.benchmark_type;
      init_command =
          if is_truthy choices.init_command then to_text outside choices.init_command else "";
      workload_command = programs.command;
      pgbench_path = (programs.clients.0).path;
      psql_path = (programs.clients.1).path;
      iteration_name =
          if is_truthy (get "pgbench_clients" values) then "pgbench_clients" else "pgbench_time";
      iterations = choices.iterations;
      workload_path = choices.selection.path;
      workload_profile =
          if is_truthy (get "workload_profile" values)
          then some (to_text outside (get "workload_profile" values))
          else none;
      workload_scale = scale;
      workload_duration_seconds = choices.selection.duration;
      pg_custom_config = get "pg_custom_config" values;
      allow_database_reset = is_truthy (get "allow_database_reset" values);
      reset_mode = choices.reset_mode;
      init_policy = policy_of values;
      managed = managed;
      drop_os_caches = is_truthy (get "drop_os_caches" values);
      system_metrics_interval = interval;
      system_metrics_duration = metrics_duration;
      managed_pg_info = managed_pg_info;
      init_mode = choices.init_mode;
      init_entrypoint = entrypoint_if (is_text "fast" choices.init_mode) choices.plan;
      init_workers = workers;
      init_batch_rows = batch_rows;
      init_table_mode = get_or (Value.text "unlogged") "init_table_mode" values;
      init_fsync = init_fsync values;
      init_synchronous_commit = get_or (Value.text "keep") "init_synchronous_commit" values;
      pgbench_protocol = protocol;
      statement_timeout_seconds = programs.timeout;
    })

  unfoldable pub workload_of :
      (managed : Bool) (managed_pg_info : Value) → DatabaseConfig → Fields → Result WorkloadConfig
  workload_of managed managed_pg_info database values = do
    choices ← choices_of managed database values
    programs ← programs_of choices.selection values
    workload_from managed managed_pg_info choices programs values

  abbrev pub managed_info : (given : Bool) → Value → Result Value
  managed_info false value = ok value
  managed_info true value = do
    path ← outside.managed_info_path (to_text outside value)
    ok (Value.text path)

  abbrev pub directory_of : Fields → String
  directory_of values =
      outside.expanduser (to_text outside (or_else (get "output_dir" values) (Value.text "report")))

  abbrev pub needs_database : WorkMode → Bool
  needs_database WorkMode.collect_sys_info = false
  needs_database _ = true

  abbrev pub is_benchmark : WorkMode → Bool
  is_benchmark WorkMode.benchmark = true
  is_benchmark _ = false

  abbrev pub database_if : Bool → Fields → Result (Option DatabaseConfig)
  database_if false values = ok none
  database_if true values = do database ← database_of outside values; ok (some database)

  -- Only a benchmark has a workload, and it always has a database.
  abbrev pub workload_if :
      WorkMode
      → (managed : Bool) (managed_pg_info : Value) → Option DatabaseConfig
      → Fields
      → Result (Option WorkloadConfig)
  workload_if WorkMode.benchmark managed info none values = err Exc.external
  workload_if WorkMode.benchmark managed info (some database) values = do
    workload ← workload_of managed info database values
    ok (some workload)
  workload_if _ managed info database values = ok none

  unfoldable pub server_config : WorkMode → Option String → Fields → Result RuntimeConfig
  server_config mode name values = do
    info ← managed_info (is_truthy (get "managed_pg_info" values)) (get "managed_pg_info" values)
    let managed = is_truthy (or_else (get "managed" values) info)
    kind ← select_connection managed values
    database ← database_if (needs_database mode) values
    reject (is_benchmark mode && not managed && is_missing (get "pg_data_path" values))
    reject (needs_database mode && not managed && is_missing (get "pg_bin_path" values))
    host ← host_of outside kind values
    validate_host outside host
    workload ← workload_if mode managed info database values
    ok (record {
      mode = mode;
      host = some host;
      database = database;
      workload = workload;
      report_name = name;
      report_dir = directory_of values;
      collect_pg_logs = is_truthy (get "collect_pg_logs" values);
    })

  abbrev pub config_for : WorkMode → Option String → Fields → Result RuntimeConfig
  config_for WorkMode.join name values = ok (record {
    mode = WorkMode.join;
    host = none;
    database = none;
    workload = none;
    report_name = name;
    report_dir = directory_of values;
    collect_pg_logs = false;
  })
  config_for mode name values = server_config mode name values

  unfoldable pub build_runtime_config : Fields → Result RuntimeConfig
  build_runtime_config values = do
    reject_database_tunnel values
    name ← report_name outside (get "report_name" values)
    mode ← mode_of (or_else (get "mode" values) (get "command" values))
    config_for mode name values
