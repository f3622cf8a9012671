-- ===== src/Reset/Environment.antt =====
-- `reset_db_environment` (src/pg_perf_bench/benchmark.py), with its four ways: schemas, a managed
-- server, Patroni, and the service of the host.
use pg_perf_bench.Prelude.{ℕ, Bool, not, ◌||◌, String, List, none, some, if◌then◌else◌}
use pg_perf_bench.Effects.{Exc, Identity, Env, M, pure, raise, raise_if, when, ◌>>=◌, ◌>>◌, except}
use pg_perf_bench.Settings.{ConnectionType, is_managed, Settings, assert_held, reopen_after_restart}
use pg_perf_bench.Database.{
  DatabaseConf, init_db, drop_db, check_db_access, check_user_db_access, reset_schemas,
}
use pg_perf_bench.Reset.Host.{
  start_db, stop_db, sync, drop_caches, detect, verify_database, restart,
}

-- The part of `workload_conf` that decides how a run resets and initializes. The Booleans of
-- optional values say that one is given.
pub record WorkloadConf : Type 0 where
  pub allow_database_reset : Bool
  pub schema_reset : Bool
  pub managed : Bool
  pub managed_pg_info : Bool
  pub drop_os_caches : Bool
  pub pg_custom_config : Bool

-- What one reset works with: the two configurations, the transport, whether the caller hands its
-- open control connection over for the schemas, and these.
pub record Target : Type 0 where
  pub kind : ConnectionType
  pub conf : DatabaseConf
  pub workload : WorkloadConf
  pub schema_connection : Bool
  pub schemas : List String

module _ (env : Env) (digest : Identity → String) (t : Target) where
  unfoldable pub reset_by_schema : M Settings (Unit {0})
  reset_by_schema = do
    raise_if (not t.schema_connection) Exc.configuration
    reset_schemas env t.conf t.schemas

  unfoldable pub reset_managed : M Settings (Unit {0})
  reset_managed = do
    check_db_access env t.conf
    assert_held env
    drop_db env t.conf
    assert_held env
    init_db env t.conf
    check_user_db_access env t.conf

  -- `PatroniController.validate_options`
  unfoldable pub validate_options : M Settings (Unit {0})
  validate_options = do
    raise_if t.workload.pg_custom_config Exc.configuration
    raise_if t.workload.drop_os_caches Exc.configuration

  unfoldable pub reset_patroni : ℕ → M Settings (Unit {0})
  unfolding validate_options
  reset_patroni member = do
    validate_options
    verify_database env t.conf member
    assert_held env
    drop_db env t.conf
    sync env t.kind
    assert_held env
    restart env t.conf member
    reopen_after_restart env digest
    init_db env t.conf
    check_user_db_access env t.conf

  unfoldable pub reset_service : M Settings (Unit {0})
  reset_service = do
    except (start_db env t.kind) (λ _. pure tt)
    check_db_access env t.conf
    assert_held env
    drop_db env t.conf
    assert_held env
    stop_db env t.kind
    sync env t.kind
    when t.workload.drop_os_caches (drop_caches env t.kind)
    start_db env t.kind
    check_db_access env t.conf
    reopen_after_restart env digest
    init_db env t.conf
    check_user_db_access env t.conf

  unfoldable pub reset_host : M Settings (Unit {0})
  unfolding reset_patroni reset_service
  reset_host = do
    found ← detect env
    elim found [ none ↦ reset_service | some member ↦ reset_patroni member ]

  unfoldable pub reset_by_mode : M Settings (Unit {0})
  unfolding reset_by_schema reset_managed reset_host
  reset_by_mode =
      if t.workload.schema_reset
      then reset_by_schema
      else if t.workload.managed || t.workload.managed_pg_info || is_managed t.kind
      then reset_managed
      else reset_host

  -- Every ordinary exception becomes a `RuntimeError`; a refusal is not wrapped.
  unfoldable pub reset_db_environment : M Settings (Unit {0})
  unfolding reset_by_mode
  reset_db_environment = do
    raise_if (not t.workload.allow_database_reset) Exc.collection
    except (assert_held env >> reset_by_mode) (λ _. raise Exc.runtime)
