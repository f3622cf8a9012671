-- ===== src/Guard/Tasks.antt =====
-- The operations of `DBTasks`, seen by the guard of the server lock.
use text.Mathlib.TextPositions.{eq_refl}
use pg_perf_bench.Prelude.{
  ℕ, zero, suc, ◌≡◌, refl, some, true, false, not, ◌&&◌, String, str_eq, List, arith,
}
use pg_perf_bench.Effects.{Exc, Env, M}
use pg_perf_bench.Effects.Rules.{
  Steps, Steps-pure, Steps-raise, Steps-unless, Steps-raise_if, ◌▸◌, ◌⨟◌, Steps-from,
  Steps-try_finally, Steps-on_error, Steps-except, Steps-if, Steps-when,
}
use pg_perf_bench.Settings.{Settings}
use pg_perf_bench.Database.Names.{is_protected}
use pg_perf_bench.Guard.{Knowledge, unknown, held}
use pg_perf_bench.Guard.Watch.{Watch, watched}
use pg_perf_bench.Database.{
  DatabaseConf, with_connection, init_db, drop_db, not_yet, attempt, attempts, wait_rounds,
  check_db_access, check_user_db_access, reset_schemas, probe, check_schema_reset,
}

module _ (env : Env) (conf : DatabaseConf) (W : Watch (some conf.database) env) where
  own :
      is_protected conf.database ≡ false
      → (str_eq conf.database conf.database && not (is_protected conf.database)) ≡ true
  own disposable = rw (disposable, eq_refl)

  pub with_connection-Steps :
      {A : Type 0} {k : Knowledge} (database : String) (body : M Settings A)
      → Steps (watched W) k body k
      → Steps (watched W) k (with_connection env conf database body) k
  unfolding with_connection
  with_connection-Steps database body s =
      W.neutral _ refl refl refl refl
      ⨟ Steps-try_finally s (W.neutral _ refl refl refl refl ⨟ Steps-pure tt)
          (W.neutral _ refl refl refl refl ⨟ Steps-pure tt)

  pub init_db-Steps : Steps (watched W) held (init_db env conf) held
  unfolding init_db
  init_db-Steps = Steps-unless _ _ λ disposable.
      Steps-except
        (with_connection-Steps _ _ (W.protected _ refl refl (own disposable) ⨟ Steps-pure tt))
        (λ e. Steps-raise _)

  pub drop_db-Steps : Steps (watched W) held (drop_db env conf) held
  unfolding drop_db
  drop_db-Steps = Steps-unless _ _ λ disposable.
      Steps-except
        (with_connection-Steps _ _ (
          W.protected _ refl refl (own disposable)
          ⨟ W.protected _ refl refl (own disposable)
          ⨟ Steps-pure tt))
        (λ e. Steps-raise _)

  not_yet-Steps : {k : Knowledge} (e : Exc) → Steps (watched W) k (not_yet env conf e) k
  unfolding not_yet
  not_yet-Steps e = Steps-if _ (Steps-raise _) (Steps-if _ (Steps-pure _) (Steps-raise _))

  attempt-Steps :
      {k : Knowledge} (database : String) → Steps (watched W) k (attempt env conf database) unknown
  unfolding attempt
  attempt-Steps database =
      Steps-except (Steps-from (W.neutral _ refl refl refl refl ⨟ Steps-pure _)) not_yet-Steps
      ▸ λ connected.
          Steps-if _
            (Steps-try_finally
              (Steps-except (W.neutral _ refl refl refl refl ⨟ Steps-pure _) not_yet-Steps)
              (W.neutral _ refl refl refl refl ⨟ Steps-pure tt)
              (W.neutral _ refl refl refl refl ⨟ Steps-pure tt))
            (Steps-pure _)

  wait_rounds-Steps :
      {k : Knowledge} (left : ℕ) (database : String)
      → Steps (watched W) k (wait_rounds env conf left database) unknown
  unfolding wait_rounds
  wait_rounds-Steps zero database = Steps-raise _
  wait_rounds-Steps (suc left) database = attempt-Steps database ▸ λ available.
      Steps-if _ (Steps-pure tt) (
        Steps-when _ (W.neutral _ refl refl refl refl ⨟ Steps-pure tt)
        ⨟ wait_rounds-Steps left database)

  pub check_db_access-Steps :
      {k : Knowledge} → Steps (watched W) k (check_db_access env conf) unknown
  unfolding check_db_access
  check_db_access-Steps = wait_rounds-Steps attempts _

  pub check_user_db_access-Steps :
      {k : Knowledge} → Steps (watched W) k (check_user_db_access env conf) unknown
  unfolding check_user_db_access
  check_user_db_access-Steps = wait_rounds-Steps attempts _

  pub reset_schemas-Steps :
      (schemas : List String) → Steps (watched W) held (reset_schemas env conf schemas) held
  unfolding reset_schemas
  reset_schemas-Steps schemas = Steps-unless _ _ λ disposable. Steps-unless _ _ λ resettable.
      W.neutral _ refl refl refl refl
      ⨟ Steps-on_error
          (W.neutral _ refl refl refl refl ⨟ W.protected _ refl refl (ground arith) ⨟ Steps-pure tt)
          (W.neutral _ refl refl refl refl ⨟ Steps-pure tt)
      ⨟ W.neutral _ refl refl refl refl
      ⨟ Steps-pure tt

  probe-Steps :
      {k : Knowledge} (table_mode : String) → Steps (watched W) k (probe env conf table_mode) k
  unfolding probe
  probe-Steps table_mode =
      W.neutral _ refl refl refl refl
      ⨟ Steps-try_finally
          (W.neutral _ refl refl refl refl
            ⨟ Steps-when _
                (W.neutral _ refl refl refl refl ⨟ W.neutral _ refl refl refl refl ⨟ Steps-pure tt))
          (W.neutral _ refl refl refl refl ⨟ Steps-pure tt)
          (W.neutral _ refl refl refl refl ⨟ Steps-pure tt)

  pub check_schema_reset-Steps :
      {k : Knowledge} (schemas : List String) (table_mode : String)
      → Steps (watched W) k (check_schema_reset env conf schemas table_mode) k
  unfolding check_schema_reset
  check_schema_reset-Steps schemas table_mode =
      Steps-raise_if _ _ ⨟ Steps-raise_if _ _ ⨟ W.neutral _ refl refl refl refl ▸ λ read_only.
      Steps-raise_if _ _ ⨟ W.neutral _ refl refl refl refl ▸ λ may_create.
      Steps-raise_if _ _ ⨟ W.neutral _ refl refl refl refl ▸ λ unowned.
      Steps-raise_if _ _ ⨟ probe-Steps table_mode
