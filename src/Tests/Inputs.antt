-- ===== src/Tests/Inputs.antt =====
-- Concrete inputs: a configuration, a workload command, a profile and a mapping with secrets.
use pg_perf_bench.Prelude.{
  ℕ, ◌+◌, ◌≤◌, suc, ◌==◌, ℤ, Float, Bool, true, false, ◌≡◌, refl, String, Option, none, some, List,
  [], ◌∷◌, All, arith, chars, split, split_parts, split_with, replace, str_eq, not, ◌&&◌,
}
use Prim.Native.Char.{Char, code}
use pg_perf_bench.Effects.{Result, ok}
use pg_perf_bench.Fallible.{◌>>=◌, ◌>>◌, reject, is_stalled, ok-injective}
use pg_perf_bench.Json.{Value, Fields, from_list, get_or}
use pg_perf_bench.Settings.{ConnectionType}
use pg_perf_bench.Clients.{select_local_clients, select_latest_client_tool}
use pg_perf_bench.Dataset.{winner}
use pg_perf_bench.Contracts.Redaction.{redact_text, redact_mapping}
use pg_perf_bench.Contracts.Secrets.{IsHidden, redact_text-IsHidden}
use pg_perf_bench.Contracts.Mapping.{HasSafe, redact_mapping-IsSafe}
use pg_perf_bench.Workloads.Profile.{flatten, load_workload_profile}
use pg_perf_bench.Workloads.Loaded.{IsProfile, load_workload_profile-IsProfile}
use pg_perf_bench.Config.Checks.{
  Outside, report_name, reject_database_tunnel, required, positive_int, positive_float,
  system_metrics_interval,
}
use pg_perf_bench.Config.ReportName.{IsFileName, report_name-IsFileName}
use pg_perf_bench.Config.Protocol.{protocols_within, pgbench_protocols, pgbench_protocol}
use pg_perf_bench.Config.Nesting.{total, pgbench_protocols-Terminates}
use pg_perf_bench.Config.Uniform.{IsKnownAs, pgbench_protocol-IsUniform}
use pg_perf_bench.Config.Connect.{
  ssh_host, connection_kwargs, IsGuarded, connection_kwargs-IsGuarded,
}
use pg_perf_bench.Config.Host.{
  HostConfig, select_connection, connection_of, database_of, host_of, validate_ssh, validate_host,
}
use pg_perf_bench.Config.Workload.{
  WorkloadType, check_policy, check_target, iterations_of, positive_ints, select_workload,
  profile_of, duration_of, default_duration, item, optional_item, workload_type_of,
}
use pg_perf_bench.Config.Initialization.{
  plan_of, init_mode_of, check_fast, check_reset, init_command_of, benchmark_option,
  workload_command_of,
}
use pg_perf_bench.Config.Build.{
  WorkMode, RuntimeConfig, build_runtime_config, mode_of, server_config, workload_of, choices_of,
  programs_of, statement_timeout_of, limited_timeout, workload_from,
}
use pg_perf_bench.Config.Accept.{IsAccepted, build_runtime_config-IsAccepted}

abbrev secrets : List (Option String)
secrets = some "abc" ∷ none ∷ some "" ∷ some "abcd" ∷ some "abc" ∷ []

redact_text-IsHidden_example : All (IsHidden (redact_text "x abcd, abc" secrets)) secrets
redact_text-IsHidden_example =
    redact_text-IsHidden secrets "x abcd, abc" (refl, (tt, (refl, (refl, (refl, tt)))))

redacts_longest_first : redact_text "x abcd, abc" secrets ≡ "x ***, ***"
unfolding redact_text
redacts_longest_first = refl

abbrev fields_of : List (String × Value) → Fields
fields_of [] = Fields.end
fields_of ((k, v) ∷ rest) = Fields.field k v (fields_of rest)

abbrev mapping : Fields
mapping = fields_of (
    ("pg_password", Value.text "abc")
    ∷ ("notes", Value.array (from_list (Value.text "abcd" ∷ Value.null ∷ [])))
    ∷ ("host", Value.object (fields_of (("dsn", Value.integer (ℤ.pos 1)) ∷ [])))
    ∷ [])

redact_mapping-IsSafe_example : HasSafe secrets (redact_mapping secrets mapping)
redact_mapping-IsSafe_example =
    redact_mapping-IsSafe secrets mapping (refl, (tt, (refl, (refl, (refl, tt)))))
      (tt, ((tt, (tt, tt)), ((tt, tt), tt)))

-- A list inside a list is returned as it is.
abbrev nested : Fields
nested =
    fields_of (
      ("rows", Value.array (from_list (Value.array (from_list (Value.text "abc" ∷ [])) ∷ []))) ∷ [])

nested_list_is_kept : redact_mapping secrets nested ≡ nested
unfolding redact_mapping
nested_list_is_kept = refl

-- A lexer that splits at spaces.
abbrev lex : String → Result (List String)
lex s = ok (split b' ' s)

total_with :
    (b : Bool) (c : Char) (parts : String × List String) (n : ℕ)
    → chars parts.0 + total parts.1 ≤ n
    → chars (split_with c b parts).0 + total (split_with c b parts).1 ≤ suc n
total_with true c (part, parts) n h = omega (arith, h)
total_with false c (part, parts) n h = omega (arith, h)

total-split : (s : String) → total (split b' ' s) ≤ chars s
total-split String.[] = omega arith
total-split (String.◌∷◌ c s) =
    total_with (code c == b' ') c (split_parts b' ' s) (chars s) (total-split s)

lex_shrinks : (s : String) (tokens : List String) → lex s ≡ ok tokens → total tokens ≤ chars s
lex_shrinks s tokens h = let same = ok-injective h in let least = total-split s in grind arith

abbrev line : String
line = "env A=1 pgbench -M ARG_PGBENCH_PROTOCOL"

pgbench_protocols-Terminates_example :
    (protocols_within lex 60 line ≡ pgbench_protocols lex line)
    × (is_stalled (pgbench_protocols lex line) ≡ false)
pgbench_protocols-Terminates_example =
    pgbench_protocols-Terminates lex lex_shrinks (λ s. refl) 60 line (omega arith)

pgbench_protocol-IsUniform_example :
    ((found : List String) × (pgbench_protocols lex (replace "ARG_PGBENCH_PROTOCOL" "prepared" line)
        ≡ ok found)
      × All (IsKnownAs "prepared") found)
    × ((true && not (str_eq "prepared" "prepared")) ≡ false)
unfolding pgbench_protocol ◌>>=◌ ◌>>◌ reject
pgbench_protocol-IsUniform_example = pgbench_protocol-IsUniform lex line "prepared" true refl

abbrev str_of : Value → String
str_of (Value.text s) = s
str_of v = "None"

abbrev profile : Value
profile = Value.object (
    fields_of (
      ("schema_version", Value.text "pg_perf_bench/workload-profile-v1")
      ∷ ("id", Value.text "imdb")
      ∷ ("title", Value.text "IMDB")
      ∷ ("description", Value.text "Joins")
      ∷ (
        "files",
        Value.object (
            fields_of (
              ("schema", Value.array (from_list (Value.text "schema.sql" ∷ [])))
              ∷ ("generators", Value.array (from_list (Value.text "generator.py" ∷ [])))
              ∷ ("queries", Value.array (from_list (Value.text "sql/q1.sql" ∷ [])))
              ∷ [])),
      )
      ∷ (
        "initialization",
        Value.object (
            fields_of (
              ("schema_version", Value.text "pg_perf_bench/load-plan-v1")
              ∷ ("entrypoint", Value.text "generator.py")
              ∷ [])),
      )
      ∷ (
        "benchmark",
        Value.object (
            fields_of (
              ("workload_command", Value.text "pgbench -f sql/q1.sql")
              ∷ ("default_duration_seconds", Value.integer (ℤ.pos 60))
              ∷ [])),
      )
      ∷ []))

load_workload_profile-IsProfile_example : IsProfile str_of "imdb" profile
unfolding load_workload_profile flatten
load_workload_profile-IsProfile_example =
    load_workload_profile-IsProfile str_of ("imdb" ∷ []) (λ id. ok profile) "imdb" profile refl

abbrev outside : Outside
outside = record {
  read_int = λ v. elim v [ Value.integer i ↦ some i | _ ↦ none ];
  read_float = λ v. elim v [ Value.real x ↦ some x | _ ↦ none ];
  str_of = str_of;
  expanduser = λ s. s;
  exists = λ s. true;
  is_file = λ s. true;
  agent_socket = none;
  is_socket = λ s. none;
  managed_info_path = λ s. ok s;
  profile_directory = λ s. s;
  bundled = "imdb" ∷ [];
  read_profile = λ id. ok profile;
  manifest_is_file = λ s. false;
  read_manifest = λ s. none;
  entrypoint_is_file = λ s t. true;
  entrypoint_is_inside = λ s t. true;
  clients = record {
    inspect_client_tool = λ name path. ok (record { path = path; major = 17; minor = 2 });
    candidate_paths = λ name. name ∷ [];
    sibling = λ path name. none;
    path_less = λ p q. false;
  };
  lex = lex;
}

report_name-IsFileName_example : IsFileName (some "nightly run")
unfolding report_name ◌>>=◌ ◌>>◌ reject
report_name-IsFileName_example =
    report_name-IsFileName outside (Value.text " nightly run ") (some "nightly run") refl

abbrev arguments : Fields
arguments = fields_of (
    ("mode", Value.text "benchmark")
    ∷ ("connection_type", Value.text "ssh")
    ∷ ("ssh_host", Value.text "db1")
    ∷ ("ssh_key", Value.text "/root/.ssh/id")
    ∷ ("pg_host", Value.text "db1")
    ∷ ("pg_port", Value.integer (ℤ.pos 5432))
    ∷ ("pg_user", Value.text "bench")
    ∷ ("pg_database", Value.text "bench")
    ∷ ("pg_data_path", Value.text "/data")
    ∷ ("pg_bin_path", Value.text "/bin")
    ∷ ("allow_database_reset", Value.flag true)
    ∷ (
      "pgbench_clients",
      Value.array (from_list (Value.integer (ℤ.pos 1) ∷ Value.integer (ℤ.pos 8) ∷ [])),
    )
    ∷ ("workload_profile", Value.text "imdb")
    ∷ ("init_fsync", Value.text "keep")
    ∷ ("reset_mode", Value.text "schema")
    ∷ [])

abbrev benchmark_host : HostConfig
benchmark_host = record {
  connection_type = ConnectionType.ssh;
  pg_data_path = Value.text "/data";
  pg_bin_path = Value.text "/bin";
  command_timeout = Float.finite false 300 0;
  container_name = Value.null;
  ssh_host = Value.text "db1";
  ssh_port = ℤ.pos 22;
  ssh_user = Value.text "postgres";
  ssh_key = some "/root/.ssh/id";
  ssh_agent = false;
  ssh_known_hosts = none;
  ssh_insecure_no_host_key_check = false;
}

abbrev config : RuntimeConfig
config = record {
  mode = WorkMode.benchmark;
  host = some benchmark_host;
  database = some (record {
    host = "db1";
    port = ℤ.pos 5432;
    user = "bench";
    database = "bench";
    password = Value.null;
    connect_timeout = Float.finite false 5 0;
  });
  workload = some (record {
    benchmark_type = WorkloadType.custom;
    init_command = "";
    workload_command = "pgbench -f sql/q1.sql";
    pgbench_path = "pgbench";
    psql_path = "psql";
    iteration_name = "pgbench_clients";
    iterations = ℤ.pos 1 ∷ ℤ.pos 8 ∷ [];
    workload_path = Value.text "imdb";
    workload_profile = some "imdb";
    workload_scale = Float.finite false 1 0;
    workload_duration_seconds = some (ℤ.pos 60);
    pg_custom_config = Value.null;
    allow_database_reset = true;
    reset_mode = Value.text "schema";
    init_policy = Value.text "each-iteration";
    managed = false;
    drop_os_caches = false;
    system_metrics_interval = Float.finite false 5 0;
    system_metrics_duration = none;
    managed_pg_info = Value.null;
    init_mode = Value.text "fast";
    init_entrypoint = Value.text "generator.py";
    init_workers = ℤ.pos 4;
    init_batch_rows = ℤ.pos 100000;
    init_table_mode = Value.text "unlogged";
    init_fsync = Value.text "keep";
    init_synchronous_commit = Value.text "keep";
    pgbench_protocol = "simple";
    statement_timeout_seconds = none;
  });
  report_name = none;
  report_dir = "report";
  collect_pg_logs = false;
}

accepts_the_arguments : build_runtime_config outside arguments ≡ ok config
unfolding build_runtime_config ◌>>=◌ ◌>>◌ reject reject_database_tunnel report_name mode_of get_or
    server_config select_connection required connection_of database_of positive_int positive_float
    host_of validate_host validate_ssh workload_of choices_of check_policy check_target
    iterations_of positive_ints select_workload profile_of load_workload_profile flatten duration_of
    default_duration item optional_item workload_type_of plan_of init_mode_of check_fast check_reset
    init_command_of benchmark_option programs_of select_local_clients workload_command_of
    statement_timeout_of limited_timeout workload_from pgbench_protocol system_metrics_interval
    select_latest_client_tool winner
accepts_the_arguments = refl

build_runtime_config-IsAccepted_example : IsAccepted outside config
build_runtime_config-IsAccepted_example =
    build_runtime_config-IsAccepted outside arguments config accepts_the_arguments

connection_kwargs-IsGuarded_example : IsGuarded outside false (
    ssh_host
      (record {
        host = Value.text "db1";
        port = ℤ.pos 22;
        username = Value.text "postgres";
        client_keys = "/root/.ssh/id" ∷ [];
        agent_path = none;
        known_hosts = some "~/.ssh/known_hosts";
      })
      (Value.text "/bin")
      (Float.finite false 300 0))
unfolding connection_kwargs ◌>>=◌
connection_kwargs-IsGuarded_example =
    connection_kwargs-IsGuarded outside arguments config benchmark_host false _
      accepts_the_arguments refl refl
