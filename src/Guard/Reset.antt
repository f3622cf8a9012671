-- ===== src/Guard/Reset.antt =====
-- A reset touches the server only under the lock.
use pg_perf_bench.Prelude.{ℕ, refl, String, Option, none, some}
use pg_perf_bench.Effects.{Identity, Value, nothing, Env, World}
use pg_perf_bench.Effects.Rules.{
  Steps, Steps-pure, Steps-raise, Steps-raise_if, Steps-or_raise, ◌▸◌, ◌⨟◌, Steps-forget,
  Steps-from, Steps-except, Steps-if, Steps-when, Steps-invariant,
}
use pg_perf_bench.Settings.{ConnectionType, Settings}
use pg_perf_bench.Guard.{Knowledge, unknown, held, Guarded, Known}
use pg_perf_bench.Guard.Watch.{Watch, watched, assert_held-Steps}
use pg_perf_bench.Guard.Lock.{guard_watch}
use pg_perf_bench.Guard.Fsync.{reopen_after_restart-Steps}
use pg_perf_bench.Database.{DatabaseConf}
use pg_perf_bench.Reset.{
  start_db, stop_db, sync, drop_caches, member_of, detect, verify_database, restart,
}
use pg_perf_bench.Reset.{
  Target, reset_by_schema, reset_managed, reset_patroni, reset_service, reset_host,
  reset_db_environment,
}
use pg_perf_bench.Guard.Tasks.{
  with_connection-Steps, init_db-Steps, drop_db-Steps, check_db_access-Steps,
  check_user_db_access-Steps, reset_schemas-Steps,
}

module _ (own : Option String) (env : Env) (W : Watch own env) where
  pub start_db-Steps : {k : Knowledge} (c : ConnectionType) → Steps (watched W) k (start_db env c) k
  unfolding start_db
  start_db-Steps ConnectionType.docker = W.neutral _ refl refl refl refl ⨟ Steps-pure tt
  start_db-Steps ConnectionType.managed = Steps-raise _
  start_db-Steps ConnectionType.ssh = W.neutral _ refl refl refl refl ⨟ Steps-pure tt
  start_db-Steps ConnectionType.local = W.neutral _ refl refl refl refl ⨟ Steps-pure tt

  sync-Steps : {k : Knowledge} (c : ConnectionType) → Steps (watched W) k (sync env c) k
  unfolding sync
  sync-Steps ConnectionType.docker = W.neutral _ refl refl refl refl ⨟ Steps-pure tt
  sync-Steps ConnectionType.managed = Steps-raise _
  sync-Steps ConnectionType.ssh = W.neutral _ refl refl refl refl ⨟ Steps-pure tt
  sync-Steps ConnectionType.local = W.neutral _ refl refl refl refl ⨟ Steps-pure tt

  drop_caches-Steps :
      {k : Knowledge} (c : ConnectionType) → Steps (watched W) k (drop_caches env c) k
  unfolding drop_caches
  drop_caches-Steps ConnectionType.docker = W.neutral _ refl refl refl refl ⨟ Steps-pure tt
  drop_caches-Steps ConnectionType.managed = Steps-raise _
  drop_caches-Steps ConnectionType.ssh = W.neutral _ refl refl refl refl ⨟ Steps-pure tt
  drop_caches-Steps ConnectionType.local = W.neutral _ refl refl refl refl ⨟ Steps-pure tt

  member_of-Steps : {k : Knowledge} (v : Value) → Steps (watched W) k (member_of env v) k
  unfolding member_of
  member_of-Steps (Value.number started) = Steps-pure _
  member_of-Steps nothing = Steps-pure _
  member_of-Steps _ = Steps-raise _

  pub detect-Steps : {k : Knowledge} → Steps (watched W) k (detect env) k
  unfolding detect
  detect-Steps = W.neutral _ refl refl refl refl ▸ member_of-Steps

module _ (own : String) (env : Env) (W : Watch (some own) env) where
  stop_db-Steps : (c : ConnectionType) → Steps (watched W) held (stop_db env c) unknown
  unfolding stop_db
  stop_db-Steps ConnectionType.docker = W.stops _ refl refl ⨟ Steps-pure tt
  stop_db-Steps ConnectionType.managed = Steps-raise _
  stop_db-Steps ConnectionType.ssh = W.stops _ refl refl ⨟ Steps-pure tt
  stop_db-Steps ConnectionType.local = W.stops _ refl refl ⨟ Steps-pure tt

module _ (env : Env) (conf : DatabaseConf) (W : Watch (some conf.database) env) where
  verify_database-Steps :
      {k : Knowledge} (member : ℕ) → Steps (watched W) k (verify_database env conf member) k
  unfolding verify_database
  verify_database-Steps member =
      with_connection-Steps env conf W _ _
        (W.neutral _ refl refl refl refl ▸ λ a. W.neutral _ refl refl refl refl ▸ λ b. Steps-pure _)
      ▸ λ seen. Steps-raise_if _ _ ⨟ Steps-pure _

  restart-Steps : (member : ℕ) → Steps (watched W) held (restart env conf member) unknown
  unfolding restart
  restart-Steps member = verify_database-Steps member ▸ λ previous.
      W.stops _ refl refl
      ⨟ check_db_access-Steps env conf W
      ⨟ detect-Steps (some conf.database) env W
      ▸ λ found.
          Steps-or_raise _ _ ▸ λ later. verify_database-Steps later ▸ λ current. Steps-raise_if _ _

module _ (env : Env) (digest : Identity → String) (t : Target)
    (W : Watch (some t.conf.database) env) where
  reset_by_schema-Steps : Steps (watched W) held (reset_by_schema env digest t) unknown
  unfolding reset_by_schema
  reset_by_schema-Steps = Steps-forget (Steps-raise_if _ _ ⨟ reset_schemas-Steps env t.conf W _)

  reset_managed-Steps : Steps (watched W) held (reset_managed env digest t) unknown
  unfolding reset_managed
  reset_managed-Steps =
      check_db_access-Steps env t.conf W
      ⨟ assert_held-Steps (some t.conf.database) env W
      ⨟ drop_db-Steps env t.conf W
      ⨟ assert_held-Steps (some t.conf.database) env W
      ⨟ init_db-Steps env t.conf W
      ⨟ check_user_db_access-Steps env t.conf W

  reset_patroni-Steps :
      (member : ℕ) → Steps (watched W) held (reset_patroni env digest t member) unknown
  unfolding reset_patroni
  reset_patroni-Steps member =
      (Steps-raise_if _ _ ⨟ Steps-raise_if _ _)
      ⨟ verify_database-Steps env t.conf W member
      ⨟ assert_held-Steps (some t.conf.database) env W
      ⨟ drop_db-Steps env t.conf W
      ⨟ sync-Steps (some t.conf.database) env W t.kind
      ⨟ assert_held-Steps (some t.conf.database) env W
      ⨟ restart-Steps env t.conf W member
      ⨟ reopen_after_restart-Steps (some t.conf.database) env W digest
      ⨟ init_db-Steps env t.conf W
      ⨟ check_user_db_access-Steps env t.conf W

  reset_service-Steps : Steps (watched W) held (reset_service env digest t) unknown
  unfolding reset_service
  reset_service-Steps =
      Steps-except (Steps-from (start_db-Steps (some t.conf.database) env W t.kind))
        (λ e. Steps-pure tt)
      ⨟ check_db_access-Steps env t.conf W
      ⨟ assert_held-Steps (some t.conf.database) env W
      ⨟ drop_db-Steps env t.conf W
      ⨟ assert_held-Steps (some t.conf.database) env W
      ⨟ stop_db-Steps t.conf.database env W t.kind
      ⨟ sync-Steps (some t.conf.database) env W t.kind
      ⨟ Steps-when _ (drop_caches-Steps (some t.conf.database) env W t.kind)
      ⨟ start_db-Steps (some t.conf.database) env W t.kind
      ⨟ check_db_access-Steps env t.conf W
      ⨟ reopen_after_restart-Steps (some t.conf.database) env W digest
      ⨟ init_db-Steps env t.conf W
      ⨟ check_user_db_access-Steps env t.conf W

  reset_host-Steps : Steps (watched W) held (reset_host env digest t) unknown
  unfolding reset_host
  reset_host-Steps = detect-Steps (some t.conf.database) env W ▸ way
    where
      way :
          (found : Option ℕ)
          → Steps
              (watched W)
              held
              (elim found [
                | none ↦ reset_service env digest t
                | some member ↦ reset_patroni env digest t member
              ])
              unknown
      way none = reset_service-Steps
      way (some member) = reset_patroni-Steps member

  pub reset_db_environment-Steps :
      Steps (watched W) unknown (reset_db_environment env digest t) unknown
  unfolding reset_db_environment
  reset_db_environment-Steps =
      Steps-raise_if _ _
      ⨟ Steps-except
          (assert_held-Steps (some t.conf.database) env W
            ⨟ Steps-if _ reset_by_schema-Steps (Steps-if _ reset_managed-Steps reset_host-Steps))
          (λ e. Steps-raise _)

module _ (env : Env) (digest : Identity → String) (t : Target) where
  -- From any history in which the lock was respected, a reset respects it too, whatever the server,
  -- the host and the clock answer, and however the reset ends: it ends sessions, drops or creates a
  -- database, drops schemas, changes `fsync` or stops the server only while the lock is confirmed,
  -- and the database is the configured one, which is not protected, and the schemas are resettable.
  pub reset_db_environment-Guarded :
      (w : World Settings)
      → Guarded (some t.conf.database) w.trace
      → Guarded (some t.conf.database) (reset_db_environment env digest t w).1.trace
  reset_db_environment-Guarded w g =
      Steps-invariant (Guarded (some t.conf.database)) Known unknown (λ s. tt)
        (reset_db_environment-Steps env digest t (guard_watch (some t.conf.database) env)) w g tt
