-- ===== src/Database/Tasks.antt =====
-- The operations of `DBTasks` (src/pg_perf_bench/db_operations/db.py).
use pg_perf_bench.Prelude.{
  ℕ, zero, suc, ◌==◌, Bool, true, false, not, String, List, str_eq, if◌then◌else◌,
}
use pg_perf_bench.Effects.{
  Exc, Call, Statement, Env, M, pure, raise, raise_if, when, ◌>>=◌, ◌>>◌, try_finally, on_error,
  except, call,
}
use pg_perf_bench.Settings.{Settings, is_true, is_text, control}
use pg_perf_bench.Database.Names.{is_protected, is_resettable}

-- The part of `db_conf` that these operations read.
pub record DatabaseConf : Type 0 where
  pub database : String
  pub user : String

-- `PostgresError`, `OSError` and `TimeoutError`: what `_wait_for_database` retries after.
abbrev pub is_transient : Exc → Bool
is_transient Exc.external = true
is_transient Exc.privilege = true
is_transient Exc.connection = true
is_transient Exc.permission = true
is_transient _ = false

abbrev pub is_authorization : Exc → Bool
is_authorization Exc.authorization = true
is_authorization _ = false

abbrev pub attempts : ℕ
attempts = 10

module _ (env : Env) (conf : DatabaseConf) where
  -- `_connect`, a context
  unfoldable pub with_connection : {A : Type 0} → String → M Settings A → M Settings A
  with_connection database body = do
    call env (Call.connect database)
    try_finally body (call env Call.disconnect >> pure tt)

  -- `_validate_disposable_database`
  unfoldable pub validate_disposable : M Settings (Unit {0})
  validate_disposable = raise_if (is_protected conf.database) Exc.configuration

  unfoldable pub init_db : M Settings (Unit {0})
  unfolding with_connection validate_disposable
  init_db = do
    validate_disposable
    except
        (with_connection "postgres"
          (call env (Call.create_database conf.database conf.user) >> pure tt))
        (λ _. raise Exc.runtime)

  unfoldable pub drop_db : M Settings (Unit {0})
  unfolding with_connection validate_disposable
  drop_db = do
    validate_disposable
    except
        (with_connection "postgres" (do
          call env (Call.terminate_backends conf.database)
          call env (Call.drop_database conf.database)
          pure tt))
        (λ _. raise Exc.runtime)

  unfoldable pub not_yet : Exc → M Settings Bool
  not_yet e =
      if is_authorization e
      then raise Exc.permission
      else if is_transient e
      then pure false
      else raise e

  -- One round of the loop: is the database available?
  unfoldable pub attempt : String → M Settings Bool
  unfolding not_yet
  attempt database = do
    connected ← except (call env (Call.connect database) >> pure true) not_yet
    if connected
        then try_finally (except (call env Call.select_one >> pure true) not_yet)
            (call env Call.disconnect >> pure tt)
        else pure false

  unfoldable pub wait_rounds : ℕ → String → M Settings (Unit {0})
  unfolding attempt
  wait_rounds zero database = raise Exc.connection
  wait_rounds (suc left) database =
      let again = wait_rounds left database in
      do
        available ← attempt database
        if available
            then pure tt
            else (when (not (left == 0)) (call env (Call.sleep 1000) >> pure tt) >> again)

  unfoldable pub wait_for_database : String → M Settings (Unit {0})
  unfolding wait_rounds
  wait_for_database = wait_rounds attempts

  unfoldable pub check_db_access : M Settings (Unit {0})
  unfolding wait_for_database
  check_db_access = wait_for_database "postgres"

  unfoldable pub check_user_db_access : M Settings (Unit {0})
  unfolding wait_for_database
  check_user_db_access = wait_for_database conf.database

  -- `connection.transaction()`, a context on the control connection
  unfoldable pub with_transaction : M Settings (Unit {0}) → M Settings (Unit {0})
  with_transaction body = do
    call env Call.transaction_start
    on_error body (call env Call.transaction_rollback >> pure tt)
    call env Call.transaction_commit
    pure tt

  unfoldable pub validate_reset_schemas : List String → M Settings (Unit {0})
  validate_reset_schemas schemas = raise_if (not (is_resettable schemas)) Exc.configuration

  unfoldable pub reset_schemas : List String → M Settings (Unit {0})
  unfolding validate_disposable with_transaction validate_reset_schemas
  reset_schemas schemas = do
    validate_disposable
    validate_reset_schemas schemas
    with_transaction (do
      control env Statement.set_lock_timeout
      control env (Statement.drop_schemas schemas)
      pure tt)

  -- The probe of DDL permissions, always rolled back.
  unfoldable pub probe : String → M Settings (Unit {0})
  probe table_mode = do
    call env Call.transaction_start
    try_finally
        (do
          control env Statement.probe_create
          when (str_eq table_mode "unlogged") (do
            control env Statement.probe_unlogged
            control env Statement.probe_logged
            pure tt))
        (call env Call.transaction_rollback >> pure tt)

  unfoldable pub check_schema_reset : List String → String → M Settings (Unit {0})
  unfolding validate_disposable validate_reset_schemas probe
  check_schema_reset schemas table_mode = do
    validate_disposable
    validate_reset_schemas schemas
    read_only ← control env Statement.transaction_read_only
    raise_if (not (is_text read_only "off")) Exc.configuration
    may_create ← control env Statement.create_privilege
    raise_if (not (is_true may_create)) Exc.configuration
    unowned ← control env (Statement.unowned_schemas schemas)
    raise_if (is_true unowned) Exc.configuration
    probe table_mode
