-- ===== src/Measure/Completed.antt =====
-- What a completed point rests on (src/pg_perf_bench/benchmark.py).
use pg_perf_bench.Prelude.{
  ◌==◌, Bool, true, false, not, ◌||◌, ◌≡◌, ◌≢◌, refl, sym, Option, none, some,
}
use pg_perf_bench.Effects.{
  Exc, Result, ok, err, World, M, continue, settle, modify, try_finally, or_raise, pure, raise,
  ◌>>=◌, ◌>>◌,
}
use pg_perf_bench.Effects.Rules.{
  Protocol, After, Steps, Steps-raise, Steps-raise_if, Steps-always, Steps-if, Steps-when,
  Steps-unless, ◌▸◌, ◌⨟◌,
}
use pg_perf_bench.Measure.Run.{
  Process, completed, Sampled, samples, broken, stopped, Tools, Plan, tool, initialize,
  note_samples, finish_sampling, run_sampled, measure_workload, noted, status_of,
  run_benchmark_with_evidence, Self,
}

module _ {Metrics Storage Samples : Type 0} (tools : Tools Metrics Storage Samples)
    (plan : Plan Metrics Storage Samples) where
  abbrev State : Type 0
  State = Self Metrics Storage Samples

  -- A workload that ended with code 0 and no abort, whose output had the metrics that are kept.
  abbrev pub IsSound : State → Type 0
  IsSound s =
      (p : Process) × (s.workload ≡ some p)
      × ((not (p.returncode == 0) || p.reports_abort) ≡ false)
      × (s.metrics ≢ none)
      × (s.metrics ≡ tools.parse_metrics p.stdout)

  data Stage : Type 0 where
    any running : Stage
    ended : Process → Stage

  abbrev AtStage : Stage → State → Type 0
  AtStage any s = s.status ≡ completed → IsSound s
  AtStage running s = s.status ≢ completed
  AtStage (ended p) s = (s.status ≢ completed) × (s.workload ≡ some p)

  AtStage-any : (k : Stage) (s : State) → AtStage k s → AtStage any s
  AtStage-any any s h = h
  AtStage-any running s h = λ q. absurd (h q)
  AtStage-any (ended p) s h = λ q. absurd (h.0 q)

  abbrev staged : Protocol State
  staged = record {
    Degree = Stage;
    Holds = λ k w. AtStage k w.self;
    least = any;
    weaken = λ k w h. AtStage-any k w.self h;
  }

  uses :
      {A : Type 0} {k : Stage} (m : M (Unit {0}) A)
      → Steps staged k (tool Metrics Storage Samples m) k
  unfolding tool
  uses m = Steps-always (λ w h. h)

  -- A change that leaves the status, the workload and the metrics.
  sets :
      {k : Stage} (f : State → State)
      → ((s : State) → AtStage k s → AtStage k (f s))
      → Steps staged k (modify f) k
  unfolding modify
  sets {k} f same = Steps-always (λ w h. same w.self h)

  with_samples :
      (k : Stage) (x : Option (Option Samples)) (s : State)
      → AtStage k s
      → AtStage k (record s { system_metrics = x })
  with_samples any x s h = h
  with_samples running x s h = h
  with_samples (ended p) x s h = h

  with_finished :
      (k : Stage) (b : Bool) (s : State)
      → AtStage k s
      → AtStage k (record s { workload_finished = b })
  with_finished any b s h = h
  with_finished running b s h = h
  with_finished (ended p) b s h = h

  note_samples-Steps :
      {k : Stage} (x : Sampled Samples)
      → Steps staged k (note_samples Metrics Storage Samples tools plan x) k
  unfolding note_samples
  note_samples-Steps {k} (samples found) = sets _ (with_samples k _)
  note_samples-Steps {k} broken = sets _ (with_samples k _)
  note_samples-Steps stopped = Steps-raise _

  finish-Steps :
      {k : Stage}
      → Steps staged k
          (modify (λ (s : State). record s { workload_finished = true })
            >> finish_sampling Metrics Storage Samples tools plan)
          k
  unfolding finish_sampling
  finish-Steps {k} =
      sets _ (with_finished k true)
      ⨟ Steps-when _ (uses _ ▸ λ final. note_samples-Steps (final.1) ⨟ Steps-raise_if _ _)

  -- The workload that a step returns is the one that it notes.
  abbrev Ended : Result Process × World State → Type 0
  Ended (ok p, w) = AtStage (ended p) w.self
  Ended (err e, w) = AtStage any w.self

  noted-Ended :
      (r : Result Process) (w : World State)
      → AtStage running w.self
      → Ended (continue r w (λ p. modify (λ s. record s { workload = some p }) >> pure p))
  unfolding modify pure ◌>>=◌ ◌>>◌
  noted-Ended (ok p) w h = (h, refl)
  noted-Ended (err e) w h = AtStage-any running w.self h

  settled-Ended :
      (r : Result Process) (w : World State) (f : M State (Unit {0}))
      → Ended (r, w)
      → ((k : Stage) → Steps staged k f k)
      → let (s, w') = f w in Ended (settle r s, w')
  settled-Ended (ok p) w f h steps = finally_ok p _ _ ((steps (ended p)).at w h)
    where
      finally_ok :
          (p : Process) (s : Result (Unit {0})) (w : World State)
          → After staged (ended p) s w
          → Ended (settle (ok p) s, w)
      finally_ok p (ok _) w h = h
      finally_ok p (err e) w h = h
  settled-Ended (err e) w f h steps = finally_err e _ _ ((steps any).at w h)
    where
      finally_err :
          (e : Exc) (s : Result (Unit {0})) (w : World State)
          → After staged any s w
          → Ended (settle (err e) s, w)
      finally_err e (ok _) w h = h
      finally_err e (err x) w h = h

  run_sampled-Ended :
      (w : World State)
      → AtStage running w.self
      → Ended (run_sampled Metrics Storage Samples tools plan w)
  unfolding run_sampled try_finally tool ◌>>=◌
  run_sampled-Ended w h = settled-Ended _ _ _ (noted-Ended _ _ h) (λ k. finish-Steps)

  after_run :
      (f : Process → M State (Unit {0}))
      → ((p : Process) → Steps staged (ended p) (f p) any)
      → Steps staged running (run_sampled Metrics Storage Samples tools plan >>= f) any
  unfolding ◌>>=◌
  after_run f steps = record { at = λ w h. go _ _ (run_sampled-Ended w h) }
    where
      go :
          (r : Result Process) (w : World State)
          → Ended (r, w)
          → let (r', w') = continue r w f in After staged any r' w'
      go (ok p) w h = (steps p).at w h
      go (err e) w h = h

  parsed :
      {A : Type 0} {k k' : Stage} (o : Option A) (e : Exc) (f : A → M State (Unit {0}))
      → ((a : A) → o ≡ some a → Steps staged k (f a) k')
      → Steps staged k (or_raise o e >>= f) k'
  unfolding or_raise ◌>>=◌ raise pure
  parsed {k} none e f steps = record { at = λ w h. AtStage-any k w.self h }
  parsed (some a) e f steps = record { at = λ w h. (steps a refl).at w h }

  completes-Steps :
      (p : Process) (metrics : Metrics)
      → (not (p.returncode == 0) || p.reports_abort) ≡ false
      → tools.parse_metrics p.stdout ≡ some metrics
      → Steps staged
          (ended p)
          (modify (λ (s : State). record s { status = completed; metrics = some metrics }))
          any
  unfolding modify
  completes-Steps p metrics exit parse =
      Steps-always (λ w h _. (p, h.1, exit, (λ q. cc), sym parse))

  measure_workload-Steps :
      Steps staged running (measure_workload Metrics Storage Samples tools plan) any
  unfolding measure_workload
  measure_workload-Steps = uses _ ▸ λ before.
      sets _ (λ s h. h)
      ⨟ Steps-when _ (uses _)
      ⨟ after_run _ (λ p. Steps-unless _ _ λ exit. parsed _ _ _ (λ metrics parse.
        uses _ ▸ λ after. sets _ (λ s h. h) ⨟ completes-Steps p metrics exit parse))

  initialize-Steps : Steps staged running (initialize Metrics Storage Samples tools plan) running
  unfolding initialize
  initialize-Steps =
      Steps-if _ (sets _ (λ s h. h))
        (Steps-if _ (uses _ ⨟ sets _ (λ s h. h)) (uses _ ⨟ uses _ ⨟ sets _ (λ s h. h)))

  never : (e : Exc) → status_of Metrics Storage Samples tools plan e ≢ completed
  never Exc.configuration q = cc
  never Exc.collection q = cc
  never Exc.permission q = cc
  never Exc.interface q = cc
  never Exc.connection q = cc
  never Exc.runtime q = cc
  never Exc.authorization q = cc
  never Exc.privilege q = cc
  never Exc.external q = cc
  never Exc.cancelled q = cc
  never Exc.stalled q = cc

  noted-Sound :
      (r : Result (Unit {0})) (w : World State)
      → AtStage any w.self
      → After staged any
          (noted Metrics Storage Samples tools plan r w).0
          (noted Metrics Storage Samples tools plan r w).1
  unfolding noted pure modify raise ◌>>◌ ◌>>=◌
  noted-Sound (ok _) w h = h
  noted-Sound (err e) w h = λ q. absurd (never e q)

  either : (r : Result (Unit {0})) (w : World State) → After staged any r w → AtStage any w.self
  either (ok _) w h = h
  either (err e) w h = h

  run-Steps :
      Steps staged running (run_benchmark_with_evidence Metrics Storage Samples tools plan) any
  unfolding run_benchmark_with_evidence
  run-Steps =
      initialize-Steps
      ⨟ record { at = λ w h. noted-Sound _ _ (either _ _ (measure_workload-Steps.at w h)) }

  -- However the measurement of a point ends, it is marked completed only with a workload that ended
  -- with code 0, without a client that aborted, whose output has the metrics of the point, if it is
  -- not marked so at the start.
  pub run_benchmark_with_evidence-IsSound :
      (w : World State)
      → w.self.status ≢ completed
      → (run_benchmark_with_evidence Metrics Storage Samples tools plan w).1.self.status ≡ completed
      → IsSound (run_benchmark_with_evidence Metrics Storage Samples tools plan w).1.self
  run_benchmark_with_evidence-IsSound w start done = either _ _ (run-Steps.at w start) done
