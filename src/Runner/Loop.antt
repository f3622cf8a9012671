-- ===== src/Runner/Loop.antt =====
-- The loop over the load matrix, with its `try` statements (src/pg_perf_bench/benchmark.py).
use pg_perf_bench.Prelude.{
  ℕ, ◌+◌, ◌==◌, Bool, true, false, not, ◌&&◌, ◌||◌, String, Option, none, some, List, [], ◌∷◌, ◌++◌,
  str_eq, length, if◌then◌else◌,
}
use pg_perf_bench.Effects.{
  Exc, Identity, Result, ok, err, Call, Env, M, pure, raise, gets, modify, raise_if, or_raise, when,
  ◌>>=◌, ◌>>◌, call,
}
use pg_perf_bench.Settings.{
  Settings, LoadOptions, create, is_managed, is_true, open_settings, assert_held, close,
}
use pg_perf_bench.Database.{check_schema_reset, is_resettable}
use pg_perf_bench.Reset.{Target, detect, reset_db_environment}
use pg_perf_bench.Policy.{initializes_iteration, each_iteration}
use pg_perf_bench.Runner.State.{
  Iteration, Phase, Failure, Point, Parts, RunConf, Run, lift, outside, value_at, is_last,
}

abbrev pub is_cancelled : Exc → Bool
is_cancelled Exc.cancelled = true
is_cancelled _ = false

-- The options of a controller that only keeps the lock.
abbrev pub lock_options : LoadOptions → ℕ → LoadOptions
lock_options o timeout = record {
  workers = 4;
  batch_rows = 100000;
  table_mode = "unlogged";
  fsync = "keep";
  synchronous_commit = "keep";
  timeout = timeout;
}

module _ (env : Env) (digest : Identity → String) (parts : Parts) (c : RunConf) where
  abbrev pub Runs : Type 0 → Type 0
  Runs = M (Run parts.Evidence parts.Validation)

  abbrev pub managed_run : Bool
  managed_run = c.workload.managed || c.workload.managed_pg_info || is_managed c.kind

  -- `write_checkpoint`: a temporary file, moved over the last one.
  unfoldable pub write_checkpoint : String → Runs (Unit {0})
  write_checkpoint status = when c.checkpoint_path (do
    results ← gets (λ s. s.results)
    call env Call.make_directory
    call env (Call.checkpoint_write status (length results))
    call env Call.checkpoint_replace
    pure tt)

  -- A controller of its own for the iteration, unless one is retained.
  unfoldable pub open_preflight :
      (plan : Option (List String)) (initialize : Bool) → Runs (Unit {0})
  open_preflight plan initialize = do
    retained ← gets (λ s. s.retained)
    modify (λ s. record s { opened = retained })
    when (not retained) (do
      modify (λ s. record s {
        settings =
            create
              (if initialize && c.fast then c.options else lock_options c.options c.command_timeout)
              c.kind c.has_connection
              (if c.workload.schema_reset || not initialize then c.conf.database else "postgres");
      })
      lift (
          open_settings env digest (not initialize || (elim plan [ none ↦ true | some _ ↦ false ])))
      modify (λ s. record s { opened = true }))

  -- `--pg-custom-config`, before the first reset.
  unfoldable pub send_config : ℕ → M Settings (Unit {0})
  send_config index = when (index == 1 && c.workload.pg_custom_config && not managed_run) (do
    found ← detect env
    when (elim found [ none ↦ false | some _ ↦ true ])
        (do
          raise_if c.workload.pg_custom_config Exc.configuration
          raise_if c.workload.drop_os_caches Exc.configuration)
    assert_held env
    call env Call.send_config
    pure tt)

  abbrev pub schemas_of : Option (List String) → List String
  schemas_of none = []
  schemas_of (some schemas) = schemas

  abbrev pub target : Option (List String) → Target
  target plan = record {
    kind = c.kind;
    conf = c.conf;
    workload = c.workload;
    schema_connection = c.workload.schema_reset;
    schemas = schemas_of plan;
  }

  -- The preparation of an iteration that initializes.
  unfoldable pub prepare_dataset : Option (List String) → ℕ → M Settings (Unit {0})
  unfolding send_config
  prepare_dataset plan index = do
    when c.workload.schema_reset
        (check_schema_reset env c.conf (schemas_of plan) c.options.table_mode)
    send_config index
    reset_db_environment env digest (target plan)

  unfoldable pub validation : Bool → M Settings (Option parts.Validation)
  validation false = pure none
  validation true = do v ← parts.validate_dataset; pure (some v)

  -- The body of the outer `try`.
  unfoldable pub iterate :
      Option (List String)
      → Iteration
      → String
      → Bool
      → Runs (Point parts.Evidence parts.Validation)
  unfolding open_preflight prepare_dataset validation
  iterate plan at command initialize = do
    open_preflight plan initialize
    lift (assert_held env)
    replicas ← gets (λ s. s.settings.replicas)
    lift (when initialize (prepare_dataset plan at.index))
    when (not (str_eq c.init_policy each_iteration)) (modify (λ s. record s { retained = true }))
    lift (assert_held env)
    checked ← lift (validation (str_eq c.init_policy "skip" && at.index == 1))
    evidence ← lift (
        parts.measure (record {
          at = at;
          command = command;
          initialize = initialize;
          required_replicas = if initialize then some replicas else none;
        }))
    pure (record { at = at; evidence = evidence; validation = checked })

  abbrev pub add_point :
      Point parts.Evidence parts.Validation
      → Run parts.Evidence parts.Validation
      → Run parts.Evidence parts.Validation
  add_point p s = record s { results = s.results ++ p ∷ [] }

  abbrev pub failed : Iteration → Phase → Exc → Option Exc → Failure
  failed at phase e cleanup_error = record {
    at = at;
    phase = phase;
    cancelled = is_cancelled e;
    cleanup_error = cleanup_error;
  }

  -- The cleanup after a measured point. If it fails, the point is kept, and the exception is its own.
  unfoldable pub after_close :
      Iteration
      → Point parts.Evidence parts.Validation
      → Result (Unit {0})
      → Runs (Point parts.Evidence parts.Validation)
  after_close at p (ok _) = do modify (λ s. record s { retained = false }); pure p
  after_close at p (err x) = do
    modify (λ s. add_point p (record s { failure = some (failed at Phase.cleanup x (some x)) }))
    raise x

  -- The cleanup after a failure. If it fails too, the failure notes it, and its exception stays.
  unfoldable pub after_failed_close :
      Iteration → Exc → Result (Unit {0}) → Runs (Point parts.Evidence parts.Validation)
  after_failed_close at e (ok _) = do modify (λ s. record s { retained = false }); raise e
  after_failed_close at e (err x) = do
    modify (λ s. record s { failure = some (failed at Phase.iteration e (some x)) })
    raise e

  -- The `except` and the `finally` of an iteration.
  unfoldable pub finish :
      Iteration
      → (last : Bool) → Result (Point parts.Evidence parts.Validation)
      → Runs (Point parts.Evidence parts.Validation)
  unfolding after_close after_failed_close
  finish at last (ok p) w =
      if w.self.opened && (str_eq c.init_policy each_iteration || last)
      then (let (r, w') = lift (close env digest) w in after_close at p r w')
      else (ok p, w)
  finish at last (err e) w =
      let noted = record w {
        self = record w.self { failure = some (failed at Phase.iteration e none) };
      } in
      if w.self.opened
      then (let (r, w') = lift (close env digest) noted in after_failed_close at e r w')
      else (err e, noted)

  unfoldable pub run_iteration :
      Option (List String)
      → Iteration
      → String
      → (initialize last : Bool) → Runs (Point parts.Evidence parts.Validation)
  unfolding iterate finish
  run_iteration plan at command initialize last w =
      let (r, w') = iterate plan at command initialize w in finish at last r w'

  -- A checkpoint that fails releases a retained controller; if that fails too, the failure notes it.
  unfoldable pub after_retained_close : Iteration → Exc → Result (Unit {0}) → Runs (Unit {0})
  after_retained_close at e (ok _) w = (err e, w)
  after_retained_close at e (err x) w = (
    err e,
    record w { self = record w.self { failure = some (failed at Phase.checkpoint e (some x)) } },
  )

  unfoldable pub after_checkpoint : Iteration → Result (Unit {0}) → Runs (Unit {0})
  unfolding after_retained_close
  after_checkpoint at (ok _) w = (ok tt, w)
  after_checkpoint at (err e) w =
      if w.self.retained
      then (let (r, w') = lift (close env digest) w in after_retained_close at e r w')
      else (err e, w)

  unfoldable pub record_point : Point parts.Evidence parts.Validation → Runs (Unit {0})
  unfolding write_checkpoint after_checkpoint
  record_point p = do
    modify (add_point p)
    λ w. let (r, w') = write_checkpoint "running" w in after_checkpoint p.at r w'

  unfoldable pub run_rows : Option (List String) → ℕ → List String → Runs (Unit {0})
  unfolding run_iteration record_point
  run_rows plan index [] = pure tt
  run_rows plan index (command ∷ rest) = do
    initialize ← or_raise (initializes_iteration c.init_policy index) Exc.configuration
    let at : Iteration = record { index = index; value = value_at c.values index }
    p ← run_iteration plan at command initialize (is_last rest)
    record_point p
    run_rows plan (index + 1) rest

  unfoldable pub refused : Option Exc → Runs (Unit {0})
  refused none = pure tt
  refused (some e) = raise e

  unfoldable pub check_scripts : List String → Runs (Unit {0})
  unfolding refused
  check_scripts [] = pure tt
  check_scripts (command ∷ rest) = do refused (parts.check_script command); check_scripts rest

  unfoldable pub planned : Result (List String) → Runs (Option (List String))
  planned (ok schemas) = pure (some schemas)
  planned (err e) = raise e

  -- The tests before the loop.
  unfoldable pub check_run : Runs (Option (List String))
  unfolding check_scripts planned
  check_run = do
    when c.statement_timeout (check_scripts c.commands)
    plan ← (if c.fast then planned parts.load_plan else pure none)
    or_raise (initializes_iteration c.init_policy 1) Exc.configuration
    when (str_eq c.init_policy "skip")
        (do pending ← call env Call.journal_list; raise_if (is_true pending) Exc.configuration)
    when (c.workload.schema_reset && not (str_eq c.init_policy "skip")) (do
      raise_if (not (c.fast && str_eq c.options.fsync "keep")) Exc.configuration
      raise_if (not (is_resettable (schemas_of plan))) Exc.configuration)
    when (c.fast && (c.workload.schema_reset || str_eq c.init_policy "skip"))
        (outside parts.check_session)
    pure plan

  -- `_run_benchmark_iterations`
  unfoldable pub run_matrix : Runs (Unit {0})
  unfolding check_run run_rows
  run_matrix = do plan ← check_run; run_rows plan 1 c.commands

  unfoldable pub conclude : Result (Unit {0}) → Runs (Unit {0})
  conclude (ok _) = write_checkpoint "complete"
  conclude (err e) = do write_checkpoint (if is_cancelled e then "cancelled" else "failed"); raise e

  -- `run_benchmark_iterations`; its result is `results` in the final state.
  unfoldable pub run_benchmark_iterations : Runs (Unit {0})
  unfolding run_matrix conclude
  run_benchmark_iterations = do
    write_checkpoint "running"
    λ w. let (r, w') = run_matrix w in conclude r w'
