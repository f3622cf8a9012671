-- ===== src/Measure/Run.antt =====
-- `run_benchmark_with_evidence` (src/pg_perf_bench/benchmark.py). What it calls is given: the loader,
-- the commands, the snapshots of the storage, the sampler and the parser of pgbench's output.
use pg_perf_bench.Prelude.{
  ℕ, ◌==◌, Bool, true, not, ◌||◌, Option, none, some, String, if◌then◌else◌,
}
use pg_perf_bench.Effects.{
  Exc, Result, ok, err, M, pure, raise, modify, raise_if, or_raise, when, ◌>>=◌, ◌>>◌, try_finally,
}

-- A process that has ended: a signal's negative code is any but 0, and `reports_abort` is the test of
-- its `stderr` for an error of pgbench or a client that aborted.
pub record Process : Type 0 where
  pub returncode : ℕ
  pub reports_abort : Bool
  pub stdout : String

pub data Status : Type 0 where
  pending completed failed cancelled : Status

-- How the initialization went.
pub data Initialization : Type 0 where
  skipped loaded commanded : Initialization

-- The dictionary `result`, whose keys are absent at first.
pub record Evidence (Metrics Storage Samples : Type 0) : Type 0 where
  pub initialization : Option Initialization
  pub before_workload : Option Storage
  pub after_workload : Option Storage
  pub workload : Option Process
  pub workload_finished : Bool
  pub system_metrics : Option (Option Samples)
  pub status : Status
  pub metrics : Option Metrics

-- How the sampler's task ends, and whether the wait for it was cancelled meanwhile.
pub data Sampled (Samples : Type 0) : Type 0 where
  samples : Samples → Sampled Samples
  broken stopped : Sampled Samples

module _ (Metrics Storage Samples : Type 0) where
  abbrev pub Self : Type 0
  Self = Evidence Metrics Storage Samples

  pub record Tools : Type 0 where
    pub initialize_database : M (Unit {0}) (Unit {0})
    pub run_initialization : M (Unit {0}) (Unit {0})
    pub vacuum_analyze : M (Unit {0}) (Unit {0})
    pub collect_storage : M (Unit {0}) Storage
    pub start_sampler : M (Unit {0}) (Unit {0})
    pub await_sampler : M (Unit {0}) (Bool × Sampled Samples)
    pub run_workload : M (Unit {0}) Process
    -- `parse_pgbench_metrics`; no metrics where there is no TPS
    pub parse_metrics : String → Option Metrics

  -- What is called has no access to `result`.
  unfoldable pub tool : {A : Type 0} → M (Unit {0}) A → M Self A
  tool m w =
      let (r, w') = m (record { trace = w.trace; self = tt }) in (r, record w { trace = w'.trace })

  -- `samples` says that there is a transport to a host that is not managed.
  pub record Plan : Type 0 where
    pub initialize : Bool
    pub fast : Bool
    pub samples : Bool

  module _ (tools : Tools) (plan : Plan) where
    unfoldable pub initialize : M Self (Unit {0})
    initialize =
        if not plan.initialize
        then modify (λ s. record s { initialization = some skipped })
        else if plan.fast
        then (do
          tool tools.initialize_database
          modify (λ s. record s { initialization = some loaded }))
        else (do
          tool tools.run_initialization
          tool tools.vacuum_analyze
          modify (λ s. record s { initialization = some commanded }))

    unfoldable pub note_samples : Sampled Samples → M Self (Unit {0})
    note_samples (samples found) = modify (λ s. record s { system_metrics = some (some found) })
    note_samples broken = modify (λ s. record s { system_metrics = some none })
    note_samples stopped = raise Exc.cancelled

    -- `finish_sampling`; a cancellation is raised again once the last window is kept.
    unfoldable pub finish_sampling : M Self (Unit {0})
    unfolding note_samples
    finish_sampling = when plan.samples (do
      ended ← tool tools.await_sampler
      note_samples (ended.1)
      raise_if (ended.0) Exc.cancelled)

    unfoldable pub run_sampled : M Self Process
    unfolding finish_sampling
    run_sampled =
        try_finally
          (do p ← tool tools.run_workload; modify (λ s. record s { workload = some p }); pure p)
          (do modify (λ s. record s { workload_finished = true }); finish_sampling)

    unfoldable pub measure_workload : M Self (Unit {0})
    unfolding run_sampled
    measure_workload = do
      before ← tool tools.collect_storage
      modify (λ s. record s { before_workload = some before })
      when plan.samples (tool tools.start_sampler)
      p ← run_sampled
      raise_if (not (p.returncode == 0) || p.reports_abort) Exc.external
      metrics ← or_raise (tools.parse_metrics p.stdout) Exc.collection
      after ← tool tools.collect_storage
      modify (λ s. record s { after_workload = some after })
      modify (λ s. record s { status = completed; metrics = some metrics })

    abbrev pub status_of : Exc → Status
    status_of Exc.cancelled = cancelled
    status_of _ = failed

    -- `except BaseException`
    unfoldable pub noted : Result (Unit {0}) → M Self (Unit {0})
    noted (ok _) = pure tt
    noted (err e) = do modify (λ s. record s { status = status_of e }); raise e

    -- `run_benchmark_with_evidence`; its result is the final state.
    unfoldable pub run_benchmark_with_evidence : M Self (Unit {0})
    unfolding initialize measure_workload noted
    run_benchmark_with_evidence = do initialize; λ w. let (r, w') = measure_workload w in noted r w'
