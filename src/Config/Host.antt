-- ===== src/Config/Host.antt =====
-- The configuration of the host and of the database (src/pg_perf_bench/config.py).
use pg_perf_bench.Prelude.{
  ℤ, Float, Bool, true, false, not, ◌&&◌, ◌||◌, String, Option, none, some, if◌then◌else◌,
}
use pg_perf_bench.Effects.{Exc, Result, ok, err}
use pg_perf_bench.Fallible.{◌>>=◌, ◌>>◌, reject}
use pg_perf_bench.Json.{Value, Fields, get, get_or, is_null, is_text, is_truthy, or_else}
use pg_perf_bench.Settings.{ConnectionType}
use pg_perf_bench.Config.Checks.{
  Outside, required, positive_int, positive_float, to_text, resolve_ssh_agent_socket,
}

pub record DatabaseConfig : Type 0 where
  pub host : String
  pub port : ℤ
  pub user : String
  pub database : String
  pub password : Value
  pub connect_timeout : Float

pub record HostConfig : Type 0 where
  pub connection_type : ConnectionType
  pub pg_data_path : Value
  pub pg_bin_path : Value
  pub command_timeout : Float
  pub container_name : Value
  pub ssh_host : Value
  pub ssh_port : ℤ
  pub ssh_user : Value
  pub ssh_key : Option String
  pub ssh_agent : Bool
  pub ssh_known_hosts : Option String
  pub ssh_insecure_no_host_key_check : Bool

-- `ConnectionType(value)`
unfoldable pub connection_of : Value → Result ConnectionType
connection_of value =
    if is_text "ssh" value
    then ok ConnectionType.ssh
    else (if is_text "local" value
        then ok ConnectionType.local
        else (if is_text "docker" value
            then ok ConnectionType.docker
            else (if is_text "managed" value
                then ok ConnectionType.managed
                else err Exc.configuration)))

-- What `--managed` excludes.
unfoldable pub reject_managed : Fields → Result (Unit {0})
reject_managed values = do
  reject (
      not
        (is_null (get "connection_type" values) || is_text "local" (get "connection_type" values)))
  reject (is_truthy (get "pg_custom_config" values))
  reject (is_truthy (get "drop_os_caches" values))
  reject (is_truthy (get "container_name" values))
  reject (is_truthy (get "ssh_host" values))

unfoldable pub select_connection : (managed : Bool) → Fields → Result ConnectionType
unfolding reject_managed required connection_of
select_connection true values = do reject_managed values; ok ConnectionType.managed
select_connection false values = do
  value ← required (get "connection_type" values)
  connection_of value

module _ (outside : Outside) where
  unfoldable pub database_of : Fields → Result DatabaseConfig
  unfolding required positive_int positive_float get_or
  database_of values = do
    host ← required (get "pg_host" values)
    raw_port ← required (get "pg_port" values)
    port ← positive_int outside raw_port
    user ← required (get "pg_user" values)
    database ← required (get "pg_database" values)
    timeout ←
        positive_float outside
          (get_or (Value.real (Float.finite false 5 0)) "connect_timeout" values)
    ok (record {
      host = to_text outside host;
      port = port;
      user = to_text outside user;
      database = to_text outside database;
      password = get "pg_password" values;
      connect_timeout = timeout;
    })

  -- `Path(value).expanduser() if value else None`
  abbrev pub path_if : Value → Option String
  path_if value =
      if is_truthy value then some (outside.expanduser (to_text outside value)) else none

  unfoldable pub host_of : ConnectionType → Fields → Result HostConfig
  unfolding positive_int positive_float get_or
  host_of kind values = do
    timeout ←
        positive_float outside
          (get_or (Value.real (Float.finite false 300 0)) "command_timeout" values)
    port ← positive_int outside (or_else (get "ssh_port" values) (Value.integer (ℤ.pos 22)))
    ok (record {
      connection_type = kind;
      pg_data_path = get "pg_data_path" values;
      pg_bin_path = get "pg_bin_path" values;
      command_timeout = timeout;
      container_name = get "container_name" values;
      ssh_host = get "ssh_host" values;
      ssh_port = port;
      ssh_user = or_else (get "ssh_user" values) (Value.text "postgres");
      ssh_key = path_if (get "ssh_key" values);
      ssh_agent = is_truthy (get "ssh_agent" values);
      ssh_known_hosts = path_if (get "ssh_known_hosts" values);
      ssh_insecure_no_host_key_check = is_truthy (get "ssh_insecure_no_host_key_check" values);
    })

  -- The key and the agent of an SSH connection: exactly one of them.
  abbrev pub check_authentication : Option String → (agent : Bool) → Result (Unit {0})
  check_authentication none false = err Exc.configuration
  check_authentication none true = do _ ← resolve_ssh_agent_socket outside; ok tt
  check_authentication (some key) true = err Exc.configuration
  check_authentication (some key) false = reject (not (outside.is_file key))

  abbrev pub known_hosts_path : Option String → String
  known_hosts_path none = outside.expanduser "~/.ssh/known_hosts"
  known_hosts_path (some path) = path

  unfoldable pub validate_ssh : HostConfig → Result (Unit {0})
  unfolding required resolve_ssh_agent_socket
  validate_ssh host = do
    _ ← required host.ssh_host
    _ ← required host.ssh_user
    check_authentication host.ssh_key host.ssh_agent
    reject (
        not host.ssh_insecure_no_host_key_check
        && not (outside.is_file (known_hosts_path host.ssh_known_hosts)))

  abbrev pub validate_kind : ConnectionType → HostConfig → Result (Unit {0})
  validate_kind ConnectionType.docker host = do _ ← required host.container_name; ok tt
  validate_kind ConnectionType.ssh host = validate_ssh host
  validate_kind _ host = ok tt

  -- `_validate_host`
  unfoldable pub validate_host : HostConfig → Result (Unit {0})
  unfolding validate_ssh
  validate_host host = validate_kind host.connection_type host
