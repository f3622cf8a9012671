-- ===== src/Config/Accept.antt =====
-- A configuration that is accepted (src/pg_perf_bench/config.py, `build_runtime_config`).
use pg_perf_bench.Prelude.{Bool, true, false, not, ◌&&◌, ◌≡◌, refl, String, Option, none, some}
use mathlib.Core.Path.{subst}
use pg_perf_bench.Effects.{ok}
use pg_perf_bench.Fallible.{reject, bind-ok, then-ok, reject-ok, ok-injective}
use pg_perf_bench.Json.{Value, Fields}
use pg_perf_bench.Settings.{ConnectionType}
use pg_perf_bench.Config.Checks.{Outside, is_missing, required, resolve_ssh_agent_socket}
use pg_perf_bench.Config.Host.{
  HostConfig, check_authentication, known_hosts_path, validate_ssh, validate_kind, validate_host,
}
use pg_perf_bench.Config.Build.{
  WorkMode, RuntimeConfig, server_config, config_for, build_runtime_config,
}
use pg_perf_bench.Config.Safe.{IsSafeRun, workload_if-IsSafe}

required-ok : (value v : Value) → required value ≡ ok v → is_missing value ≡ false
unfolding required
required-ok value v h = let (present, _) = then-ok (reject _) _ h in reject-ok _ present

is_so : (b : Bool) → not b ≡ false → b ≡ true
is_so true h = refl
is_so false h = cc

module _ (outside : Outside) where
  -- A key that is a file, or an agent whose socket is there, and not both.
  abbrev pub IsAuthenticated : Option String → (agent : Bool) → Type 0
  IsAuthenticated none true = (path : String) × (resolve_ssh_agent_socket outside ≡ ok path)
  IsAuthenticated (some key) false = outside.is_file key ≡ true
  IsAuthenticated _ _ = ⊥

  abbrev pub IsReachable : ConnectionType → HostConfig → Type 0
  IsReachable ConnectionType.docker host = is_missing host.container_name ≡ false
  IsReachable ConnectionType.ssh host =
      (is_missing host.ssh_host ≡ false)
      × (is_missing host.ssh_user ≡ false)
      × IsAuthenticated host.ssh_key host.ssh_agent
      × ((not host.ssh_insecure_no_host_key_check
            && not (outside.is_file (known_hosts_path outside host.ssh_known_hosts)))
          ≡ false)
  IsReachable _ host = Unit

  abbrev pub HasHost : Option HostConfig → Type 0
  HasHost none = Unit
  HasHost (some host) = IsReachable host.connection_type host

  authentication-ok :
      (key : Option String) (agent : Bool)
      → check_authentication outside key agent ≡ ok tt
      → IsAuthenticated key agent
  authentication-ok none true h =
      let (path, found, _) = bind-ok (resolve_ssh_agent_socket outside) _ h in (path, found)
  authentication-ok none false h = cc
  authentication-ok (some key) true h = cc
  authentication-ok (some key) false h = is_so _ (reject-ok _ h)

  kind-ok :
      (kind : ConnectionType) (host : HostConfig)
      → validate_kind outside kind host ≡ ok tt
      → IsReachable kind host
  unfolding validate_ssh
  kind-ok ConnectionType.docker host h =
      let (_, present, _) = bind-ok _ _ h in required-ok host.container_name _ present
  kind-ok ConnectionType.ssh host h =
      let (_, named, h1) = bind-ok _ _ h in
      let (_, user, h2) = bind-ok _ _ h1 in
      let (authenticated, known) = then-ok _ _ h2 in
      (
        required-ok host.ssh_host _ named,
        required-ok host.ssh_user _ user,
        authentication-ok host.ssh_key host.ssh_agent authenticated,
        reject-ok _ known,
      )
  kind-ok ConnectionType.local host h = tt
  kind-ok ConnectionType.managed host h = tt

  validate_host-ok :
      (host : HostConfig)
      → validate_host outside host ≡ ok tt
      → IsReachable host.connection_type host
  unfolding validate_host
  validate_host-ok host h = kind-ok host.connection_type host h

  abbrev pub IsAccepted : RuntimeConfig → Type 0
  IsAccepted config = HasHost config.host × IsSafeRun config.database config.workload

  server_config-IsAccepted :
      (mode : WorkMode) (name : Option String) (values : Fields) (config : RuntimeConfig)
      → server_config outside mode name values ≡ ok config
      → IsAccepted config
  unfolding server_config
  server_config-IsAccepted mode name values config h =
      let (info, _, h1) = bind-ok _ _ h in
      let (_, _, h2) = bind-ok _ _ h1 in
      let (database, _, h3) = bind-ok _ _ h2 in
      let (_, h4) = then-ok _ _ h3 in
      let (_, h5) = then-ok _ _ h4 in
      let (host, _, h6) = bind-ok _ _ h5 in
      let (valid, h7) = then-ok _ _ h6 in
      let (workload, built, last) = bind-ok _ _ h7 in
      subst IsAccepted (ok-injective last) (
        validate_host-ok host valid,
        workload_if-IsSafe outside mode _ _ database values workload built,
      )

  config_for-IsAccepted :
      (mode : WorkMode) (name : Option String) (values : Fields) (config : RuntimeConfig)
      → config_for outside mode name values ≡ ok config
      → IsAccepted config
  config_for-IsAccepted WorkMode.join name values config h =
      subst IsAccepted (ok-injective h) (tt, tt)
  config_for-IsAccepted mode name values config h =
      server_config-IsAccepted mode name values config h

  -- When a configuration is accepted, an SSH host has a name, a user, exactly one of a key file and an
  -- agent socket, and known hosts unless they are waived, a Docker host has a container, and a benchmark
  -- has a database that is not protected and may be reset unless nothing is initialized, drops
  -- caches only where every iteration initializes, resets schemas and loads a managed server only with
  -- fsync kept, and has positive load values and a bounded timeout.
  pub build_runtime_config-IsAccepted :
      (values : Fields) (config : RuntimeConfig)
      → build_runtime_config outside values ≡ ok config
      → IsAccepted config
  unfolding build_runtime_config
  build_runtime_config-IsAccepted values config h =
      let (_, h1) = then-ok _ _ h in
      let (name, _, h2) = bind-ok _ _ h1 in
      let (mode, _, h3) = bind-ok _ _ h2 in config_for-IsAccepted mode name values config h3
