-- ===== src/Runner/Results.antt =====
-- The results of a run: `perf_results`, as `run_benchmark_iterations` fills it
-- (src/pg_perf_bench/benchmark.py).
use pg_perf_bench.Prelude.{
  ℕ, ◌+◌, ◌≤◌, ◌<◌, Bool, ◌≡◌, refl, String, Option, none, some, List, [], ◌∷◌, length, Bool-cases,
  inl, inr, arith,
}
use pg_perf_bench.Effects.{
  Exc, Identity, Result, ok, err, Env, M, call, continue, ◌>>=◌, ◌>>◌, pure,
}
use pg_perf_bench.Effects.Rules.{
  Protocol, After, After-continue, Steps, Steps-pure, Steps-raise, Steps-gets, Steps-when, Steps-if,
  Steps-or_raise, Steps-raise_if, ◌▸◌, ◌⨟◌,
}
use pg_perf_bench.Runner.State.{Iteration, Point, Parts, RunConf, lift, is_last}
use pg_perf_bench.Runner.Loop.{
  run_iteration, after_retained_close, after_checkpoint, record_point, write_checkpoint, run_rows,
  check_run, run_matrix, conclude, run_benchmark_iterations, refused, check_scripts, planned,
}
use pg_perf_bench.Runner.Points.{
  iteration_of, State, IsNumbered, total, Counted, Counted-add, Finished, asks, outside-counts,
  run_iteration-counts, P, W,
}

module _ (env : Env) (digest : Identity → String) (parts : Parts) (c : RunConf) where
  abbrev Q : Protocol (State parts c)
  Q = P env digest parts c

  abbrev C : Type 0
  C = W env digest parts c

  write_checkpoint-counts :
      {k : Option ℕ} (status : String) → Steps Q k (write_checkpoint env digest parts c status) k
  unfolding write_checkpoint
  write_checkpoint-counts status = Steps-when _ (
      Steps-gets _ ▸ λ results.
      asks env digest parts c _
      ⨟ asks env digest parts c _
      ⨟ asks env digest parts c _
      ⨟ Steps-pure tt)

  after_retained_close-counts :
      (k : Option ℕ) (at : Iteration) (e : Exc) (r : Result (Unit {0})) (w : C)
      → Counted parts c none w.self.results
      → let (r', w') = after_retained_close env digest parts c at e r w in After Q k r' w'
  unfolding after_retained_close
  after_retained_close-counts k at e (ok _) w h = h
  after_retained_close-counts k at e (err x) w h = h

  after_checkpoint-counts :
      (k : Option ℕ) (at : Iteration) (r : Result (Unit {0})) (w : C)
      → After Q k r w
      → let (r', w') = after_checkpoint env digest parts c at r w in After Q k r' w'
  unfolding after_checkpoint lift
  after_checkpoint-counts k at (ok _) w h = h
  after_checkpoint-counts k at (err e) w h = elim (Bool-cases w.self.retained) [
    | inl held ↦ rw held (after_retained_close-counts k at e _ _ h)
    | inr free ↦ rw free h
  ]

  record_point-counts :
      (n : ℕ) (p : Point parts.Evidence parts.Validation) (w : C)
      → n < total parts c
      → Finished env digest parts c n (ok p) w
      → let (r, w') = record_point env digest parts c p w in After Q (some (n + 1)) r w'
  unfolding record_point call
  record_point-counts n p w room (q, h) = after_checkpoint-counts (some (n + 1)) p.at _ _ (
      (write_checkpoint-counts {k = some (n + 1)} "running").at _
        (Counted-add parts c n p _ room q h))

  -- A loop body after its iteration.
  Finished-continue :
      (k' : Option ℕ) (n : ℕ) (r : Result (Point parts.Evidence parts.Validation)) (w : C)
      (f : Point parts.Evidence parts.Validation → M (State parts c) (Unit {0}))
      → Finished env digest parts c n r w
      → ((p : Point parts.Evidence parts.Validation)
          → Finished env digest parts c n (ok p) w
          → let (r', w') = f p w in After Q k' r' w')
      → let (r', w') = continue r w f in After Q k' r' w'
  Finished-continue k' n (ok p) w f h next = next p h
  Finished-continue k' n (err e) w f h next = h

  row-counts :
      (plan : Option (List String)) (n : ℕ) (command : String) (rows : List String)
      (initialize : Bool) (rest : M (State parts c) (Unit {0}))
      → n < total parts c
      → Steps Q (some (n + 1)) rest (some (total parts c))
      → Steps Q
          (some n)
          (run_iteration env digest parts c plan
              (iteration_of c (n + 1))
              command
              initialize
              (is_last rows)
            >>= λ p. record_point env digest parts c p >> rest)
          (some (total parts c))
  unfolding ◌>>=◌ ◌>>◌
  row-counts plan n command rows initialize rest room next = record {
    at = λ w h.
        Finished-continue (some (total parts c)) n _ _ _
          (run_iteration-counts env digest parts c n room plan command initialize (is_last rows) w
            h)
          (λ p done.
            After-continue Q (some (n + 1)) (some (total parts c)) _ _ _
              (record_point-counts n p _ room done) (λ _. next));
  }

  run_rows-counts :
      (plan : Option (List String)) (n : ℕ) (rows : List String)
      → n + length rows ≡ total parts c
      → Steps Q (some n) (run_rows env digest parts c plan (n + 1) rows) (some (total parts c))
  unfolding run_rows pure
  run_rows-counts plan n [] rest = record {
    at = λ w (h, count, bound). (h, omega (arith, rest, count), omega arith);
  }
  run_rows-counts plan n (command ∷ rows) rest = Steps-or_raise _ _ ▸ λ initialize.
      row-counts plan n command rows initialize _ (omega (arith, rest))
        (run_rows-counts plan (n + 1) rows (omega (arith, rest)))

  refused-counts : {k : Option ℕ} (o : Option Exc) → Steps Q k (refused env digest parts c o) k
  unfolding refused
  refused-counts none = Steps-pure tt
  refused-counts (some e) = Steps-raise e

  check_scripts-counts :
      {k : Option ℕ} (commands : List String)
      → Steps Q k (check_scripts env digest parts c commands) k
  unfolding check_scripts
  check_scripts-counts [] = Steps-pure tt
  check_scripts-counts (command ∷ rest) = refused-counts _ ⨟ check_scripts-counts rest

  planned-counts :
      {k : Option ℕ} (r : Result (List String)) → Steps Q k (planned env digest parts c r) k
  unfolding planned
  planned-counts (ok schemas) = Steps-pure _
  planned-counts (err e) = Steps-raise e

  check_run-counts : {k : Option ℕ} → Steps Q k (check_run env digest parts c) k
  unfolding check_run
  check_run-counts =
      Steps-when _ (check_scripts-counts _)
      ⨟ Steps-if _ (planned-counts _) (Steps-pure none)
      ▸ λ plan.
          Steps-or_raise _ _
          ⨟ Steps-when _ (asks env digest parts c _ ▸ λ pending. Steps-raise_if _ _)
          ⨟ Steps-when _ (Steps-raise_if _ _ ⨟ Steps-raise_if _ _)
          ⨟ Steps-when _ (outside-counts env digest parts c _)
          ⨟ Steps-pure plan

  run_matrix-counts : Steps Q (some 0) (run_matrix env digest parts c) (some (total parts c))
  unfolding run_matrix
  run_matrix-counts = check_run-counts ▸ λ plan. run_rows-counts plan 0 c.commands (omega arith)

  conclude-counts :
      (r : Result (Unit {0})) (w : C)
      → After Q (some (total parts c)) r w
      → let (r', w') = conclude env digest parts c r w in After Q (some (total parts c)) r' w'
  unfolding conclude
  conclude-counts (ok _) w h =
      (write_checkpoint-counts {k = some (total parts c)} "complete").at w h
  conclude-counts (err e) w h =
      (write_checkpoint-counts {k = none} _ ⨟ Steps-raise {k' = some (total parts c)} e).at w h

  run-counts : Steps Q (some 0) (run_benchmark_iterations env digest parts c) (some (total parts c))
  unfolding run_benchmark_iterations
  run-counts =
      write_checkpoint-counts "running"
      ⨟ record { at = λ w h. conclude-counts _ _ (run_matrix-counts.at w h) }

  ends :
      (r : Result (Unit {0})) (w : C)
      → After Q (some (total parts c)) r w
      → IsNumbered parts c 1 w.self.results
        × (length w.self.results ≤ total parts c)
        × (r ≡ ok tt → length w.self.results ≡ total parts c)
  ends (ok _) w (h, count, bound) = (h, omega (arith, count), λ _. count)
  ends (err e) w (h, bound) = (h, bound, λ q. cc)

  -- However a run ends, its results are the points of iterations 1, 2, … in order, each with its load
  -- value, and no more than the matrix has, if it begins with none.
  pub run_benchmark_iterations-IsNumbered :
      (w : C)
      → w.self.results ≡ []
      → let (_, w') = run_benchmark_iterations env digest parts c w in
        IsNumbered parts c 1 w'.self.results × (length w'.self.results ≤ length c.commands)
  run_benchmark_iterations-IsNumbered w empty =
      let (h, bound, _) = ends _ _ (run-counts.at w (rw empty (tt, refl, omega arith))) in
      (h, bound)

  -- A run that returns has a point for every iteration of the matrix.
  pub length-run_benchmark_iterations :
      (w : C)
      → w.self.results ≡ []
      → (run_benchmark_iterations env digest parts c w).0 ≡ ok tt
      → length (run_benchmark_iterations env digest parts c w).1.self.results ≡ length c.commands
  length-run_benchmark_iterations w empty returned =
      let (_, _, every) = ends _ _ (run-counts.at w (rw empty (tt, refl, omega arith))) in
      every returned
