-- ===== src/Config/Connect.antt =====
-- `HostConfig.connection_kwargs` (src/pg_perf_bench/config.py), for a configuration that is accepted.
use pg_perf_bench.Prelude.{
  ℤ, Float, Bool, true, false, not, ◌&&◌, ◌≡◌, refl, String, Option, none, some, List, [], ◌∷◌,
}
use mathlib.Core.Path.{subst}
use pg_perf_bench.Effects.{Result, ok}
use pg_perf_bench.Fallible.{◌>>=◌, bind-ok, ok-injective}
use pg_perf_bench.Json.{Value, Fields, or_else}
use pg_perf_bench.Settings.{ConnectionType}
use pg_perf_bench.Config.Checks.{Outside, resolve_ssh_agent_socket}
use pg_perf_bench.Config.Host.{HostConfig, known_hosts_path}
use pg_perf_bench.Config.Build.{RuntimeConfig, build_runtime_config}
use pg_perf_bench.Config.Accept.{
  IsReachable, IsAuthenticated, HasHost, build_runtime_config-IsAccepted,
}

-- `conn_params` of an SSH connection, without its constants: the public key is the only method of
-- authentication, and nothing is forwarded.
pub record SshParams : Type 0 where
  pub host : Value
  pub port : ℤ
  pub username : Value
  pub client_keys : List String
  pub agent_path : Option String
  pub known_hosts : Option String

-- The arguments of a connection, by its type; `bin_path` is `ARG_PG_BIN_PATH` of the environment.
pub data ConnectionArguments : Type 0 where
  no_host : ConnectionArguments
  local_host : (bin_path : Value) (command_timeout : Float) → ConnectionArguments
  docker_host :
      (container : Value) (bin_path : Value) (command_timeout : Float) (start_if_stopped : Bool)
      → ConnectionArguments
  ssh_host : SshParams → (bin_path : Value) (command_timeout : Float) → ConnectionArguments

abbrev pub keys_of : Option String → List String
keys_of none = []
keys_of (some key) = key ∷ []

abbrev pub bin_path_of : HostConfig → Value
bin_path_of host = or_else host.pg_bin_path (Value.text "")

module _ (outside : Outside) where
  abbrev pub agent_path_if : Bool → Result (Option String)
  agent_path_if false = ok none
  agent_path_if true = do path ← resolve_ssh_agent_socket outside; ok (some path)

  abbrev pub known_hosts_if : (waived : Bool) → Option String → Option String
  known_hosts_if true path = none
  known_hosts_if false path = some (known_hosts_path outside path)

  abbrev pub kwargs_of :
      ConnectionType → HostConfig → (start_if_stopped : Bool) → Result ConnectionArguments
  kwargs_of ConnectionType.managed host start = ok no_host
  kwargs_of ConnectionType.local host start =
      ok (local_host (bin_path_of host) host.command_timeout)
  kwargs_of ConnectionType.docker host start =
      ok (docker_host host.container_name (bin_path_of host) host.command_timeout start)
  kwargs_of ConnectionType.ssh host start = do
    agent ← agent_path_if host.ssh_agent
    ok (
        ssh_host
          (record {
            host = host.ssh_host;
            port = host.ssh_port;
            username = host.ssh_user;
            client_keys = keys_of host.ssh_key;
            agent_path = agent;
            known_hosts = known_hosts_if host.ssh_insecure_no_host_key_check host.ssh_known_hosts;
          })
          (bin_path_of host) host.command_timeout)

  unfoldable pub connection_kwargs :
      HostConfig → (start_if_stopped : Bool) → Result ConnectionArguments
  connection_kwargs host start_if_stopped = kwargs_of host.connection_type host start_if_stopped

  -- One key that is a file and no agent, or an agent and no key; the known hosts are a file unless the
  -- check of host keys is waived.
  abbrev pub HasOneMethod : List String → Option String → Type 0
  HasOneMethod [] (some path) = Unit
  HasOneMethod (key ∷ []) none = outside.is_file key ≡ true
  HasOneMethod _ _ = ⊥

  abbrev pub ChecksHost : (waived : Bool) → Option String → Type 0
  ChecksHost true none = Unit
  ChecksHost false (some path) = outside.is_file path ≡ true
  ChecksHost _ _ = ⊥

  abbrev pub IsGuarded : (waived : Bool) → ConnectionArguments → Type 0
  IsGuarded waived (ssh_host params bin_path timeout) =
      HasOneMethod params.client_keys params.agent_path × ChecksHost waived params.known_hosts
  IsGuarded waived _ = Unit

  known-ok :
      (waived : Bool) (path : Option String)
      → (not waived && not (outside.is_file (known_hosts_path outside path))) ≡ false
      → ChecksHost waived (known_hosts_if waived path)
  known-ok true path h = tt
  known-ok false path h = so (outside.is_file (known_hosts_path outside path)) h
    where
      so : (b : Bool) → not b ≡ false → b ≡ true
      so true k = refl
      so false k = cc

  method-ok :
      (key : Option String) (agent : Bool) (path : Option String)
      → IsAuthenticated outside key agent
      → agent_path_if agent ≡ ok path
      → HasOneMethod (keys_of key) path
  method-ok (some key) false path h q = subst (HasOneMethod (key ∷ [])) (ok-injective q) h
  method-ok none true path h q =
      let (found, _, last) = bind-ok _ _ q in subst (HasOneMethod []) (ok-injective last) tt
  method-ok none false path h q = elim h [ ]
  method-ok (some key) true path h q = elim h [ ]

  kwargs-IsGuarded :
      (kind : ConnectionType) (host : HostConfig) (start : Bool) (arguments : ConnectionArguments)
      → IsReachable outside kind host
      → kwargs_of kind host start ≡ ok arguments
      → IsGuarded host.ssh_insecure_no_host_key_check arguments
  kwargs-IsGuarded ConnectionType.ssh host start arguments (_, _, authenticated, known) h =
      let (agent, found, last) = bind-ok _ _ h in
      subst (IsGuarded host.ssh_insecure_no_host_key_check) (ok-injective last)
        (method-ok host.ssh_key host.ssh_agent agent authenticated found, known-ok _ _ known)
  kwargs-IsGuarded ConnectionType.managed host start arguments v h =
      subst (IsGuarded host.ssh_insecure_no_host_key_check) (ok-injective h) tt
  kwargs-IsGuarded ConnectionType.local host start arguments v h =
      subst (IsGuarded host.ssh_insecure_no_host_key_check) (ok-injective h) tt
  kwargs-IsGuarded ConnectionType.docker host start arguments v h =
      subst (IsGuarded host.ssh_insecure_no_host_key_check) (ok-injective h) tt

  -- The arguments of the connection to the host of an accepted configuration: over SSH either one
  -- key that is a file or an agent, never both, and known hosts that are a file unless the
  -- configuration waives the check of host keys.
  pub connection_kwargs-IsGuarded :
      (values : Fields) (config : RuntimeConfig) (host : HostConfig) (start_if_stopped : Bool)
      (arguments : ConnectionArguments)
      → build_runtime_config outside values ≡ ok config
      → config.host ≡ some host
      → connection_kwargs host start_if_stopped ≡ ok arguments
      → IsGuarded host.ssh_insecure_no_host_key_check arguments
  unfolding connection_kwargs
  connection_kwargs-IsGuarded values config host start_if_stopped arguments built is_host h =
      let reachable =
        subst (HasHost outside) is_host
          (build_runtime_config-IsAccepted outside values config built).0 in
      kwargs-IsGuarded host.connection_type host start_if_stopped arguments reachable h
