-- ===== src/Config/Records.antt =====
-- What `build_runtime_config` makes (src/pg_perf_bench/config.py): the configurations of a run and of its
-- workload, and what its checks pass on.
use pg_perf_bench.Prelude.{ℤ, Float, Bool, true, String, Option, none, some, List, if◌then◌else◌}
use pg_perf_bench.Effects.{Exc, Result, ok, err}
use pg_perf_bench.Clients.{ClientTool}
use pg_perf_bench.Json.{Value, Fields, get, get_or, is_text}
use pg_perf_bench.Config.Host.{DatabaseConfig, HostConfig}
use pg_perf_bench.Config.Workload.{WorkloadType, Selection}

pub data WorkMode : Type 0 where
  benchmark join collect_sys_info collect_db_info collect_all_info : WorkMode

pub record WorkloadConfig : Type 0 where
  pub benchmark_type : WorkloadType
  pub init_command : String
  pub workload_command : String
  pub pgbench_path : String
  pub psql_path : String
  pub iteration_name : String
  pub iterations : List ℤ
  pub workload_path : Value
  pub workload_profile : Option String
  pub workload_scale : Float
  pub workload_duration_seconds : Option ℤ
  pub pg_custom_config : Value
  pub allow_database_reset : Bool
  pub reset_mode : Value
  pub init_policy : Value
  pub managed : Bool
  pub drop_os_caches : Bool
  pub system_metrics_interval : Float
  pub system_metrics_duration : Option Float
  pub managed_pg_info : Value
  pub init_mode : Value
  pub init_entrypoint : Value
  pub init_workers : ℤ
  pub init_batch_rows : ℤ
  pub init_table_mode : Value
  pub init_fsync : Value
  pub init_synchronous_commit : Value
  pub pgbench_protocol : String
  pub statement_timeout_seconds : Option Float

pub record RuntimeConfig : Type 0 where
  pub mode : WorkMode
  pub host : Option HostConfig
  pub database : Option DatabaseConfig
  pub workload : Option WorkloadConfig
  pub report_name : Option String
  pub report_dir : String
  pub collect_pg_logs : Bool

-- `WorkMode(value)`
unfoldable pub mode_of : Value → Result WorkMode
mode_of value =
    if is_text "benchmark" value
    then ok WorkMode.benchmark
    else (if is_text "join" value
        then ok WorkMode.join
        else (if is_text "collect-sys-info" value
            then ok WorkMode.collect_sys_info
            else (if is_text "collect-db-info" value
                then ok WorkMode.collect_db_info
                else (if is_text "collect-all-info" value
                    then ok WorkMode.collect_all_info
                    else err Exc.configuration))))

-- What the checks of a benchmark have chosen, and the programs it runs.
pub record Choices : Type 0 where
  pub iterations : List ℤ
  pub selection : Selection
  pub plan : Value
  pub init_mode : Value
  pub reset_mode : Value
  pub init_command : Value

pub record Programs : Type 0 where
  pub clients : ClientTool × ClientTool
  pub command : String
  pub timeout : Option Float

abbrev pub policy_of : Fields → Value
policy_of values = get_or (Value.text "each-iteration") "init_policy" values

-- The texts that the clients are asked for with.
abbrev pub path_option : Value → Option String
path_option (Value.text s) = some s
path_option _ = none

abbrev pub entrypoint_if : (fast : Bool) → Value → Value
entrypoint_if true (Value.object plan) = get "entrypoint" plan
entrypoint_if _ plan = Value.null
