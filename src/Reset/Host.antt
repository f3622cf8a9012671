-- ===== src/Reset/Host.antt =====
-- Starting and stopping the server: through `pg_ctl`, the container, or Patroni.
use pg_perf_bench.Prelude.{ℕ, leb, ◌==◌, Bool, not, ◌||◌, Option, none, some}
use pg_perf_bench.Effects.{
  Exc, Value, nothing, Call, Command, Env, M, pure, raise, raise_if, or_raise, ◌>>=◌, ◌>>◌, call,
}
use pg_perf_bench.Settings.{ConnectionType, Settings, is_true, number_of}
use pg_perf_bench.Database.{DatabaseConf, with_connection, check_db_access}

module _ (env : Env) where
  abbrev pub on_host : Command → M Settings (Unit {0})
  on_host c = call env (Call.host_command c) >> pure tt

  abbrev pub locally : Command → M Settings (Unit {0})
  locally c = call env (Call.local_command c) >> pure tt

  -- The three classes of `conn_tasks`; a managed server has none (`get_conn_type_tasks`).
  unfoldable pub start_db : ConnectionType → M Settings (Unit {0})
  start_db ConnectionType.docker = call env Call.container_start >> pure tt
  start_db ConnectionType.managed = raise Exc.external
  start_db _ = on_host (Command.pg_ctl "start")

  unfoldable pub stop_db : ConnectionType → M Settings (Unit {0})
  stop_db ConnectionType.docker = call env Call.container_stop >> pure tt
  stop_db ConnectionType.managed = raise Exc.external
  stop_db _ = on_host (Command.pg_ctl "stop")

  unfoldable pub sync : ConnectionType → M Settings (Unit {0})
  sync ConnectionType.ssh = on_host Command.sync
  sync ConnectionType.managed = raise Exc.external
  sync _ = locally Command.sync

  unfoldable pub drop_caches : ConnectionType → M Settings (Unit {0})
  drop_caches ConnectionType.ssh = on_host Command.drop_caches
  drop_caches ConnectionType.managed = raise Exc.external
  drop_caches _ = locally Command.drop_caches

  unfoldable pub member_of : Value → M Settings (Option ℕ)
  member_of (Value.number started) = pure (some started)
  member_of nothing = pure none
  member_of _ = raise Exc.runtime

  -- `PatroniController.detect`: the start time of the member's postmaster, if there is a member.
  unfoldable pub detect : M Settings (Option ℕ)
  unfolding member_of
  detect = do response ← call env (Call.patroni_command "detect"); member_of response

  module _ (conf : DatabaseConf) where
    -- `verify_database`: the SQL connection reaches this member, and it is a primary.
    unfoldable pub verify_database : ℕ → M Settings ℕ
    verify_database member = do
      (started, standby) ← with_connection env conf "postgres" (do
        started ← call env Call.postmaster_start_time
        standby ← call env Call.recovery_state
        pure {A = ℕ × Bool} (number_of started, is_true standby))
      raise_if (standby || not (started == member)) Exc.configuration
      pure started

    -- `restart`: the server is the same member, and has started later than before.
    unfoldable pub restart : ℕ → M Settings (Unit {0})
    unfolding detect verify_database
    restart member = do
      previous ← verify_database member
      call env (Call.patroni_command "restart")
      check_db_access env conf
      found ← detect
      later ← or_raise found Exc.runtime
      current ← verify_database later
      raise_if (leb current previous) Exc.runtime
