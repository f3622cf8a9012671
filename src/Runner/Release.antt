-- ===== src/Runner/Release.antt =====
-- The controller over a whole run (src/pg_perf_bench/benchmark.py).
use pg_perf_bench.Prelude.{
  ℕ, ◌+◌, Bool, true, false, not, ◌≡◌, ◌≢◌, ◌∙◌, refl, String, Option, none, some, List, [], ◌∷◌,
  elem, if◌then◌else◌, inl, inr, Option-cases,
}
use pg_perf_bench.Effects.{
  Call, Exc, Identity, Result, ok, err, Env, World, M, call, continue, pure, ◌>>=◌, ◌>>◌, raise,
  or_raise,
}
use pg_perf_bench.Effects.Rules.{
  Protocol, After, Steps, Steps-pure, Steps-raise, Steps-always, Steps-when, Steps-if,
  Steps-raise_if, ◌▸◌, ◌⨟◌, keeping, Steps-kept,
}
use pg_perf_bench.Policy.{initializes_iteration, each_iteration}
use pg_perf_bench.Settings.{Settings}
use pg_perf_bench.Guard.{absent, unknown, is_opening}
use pg_perf_bench.Release.{IsReleased}
use pg_perf_bench.Release.Connection.{released-IsTidy}
use pg_perf_bench.Runner.State.{Point, Parts, RunConf, outside, is_last}
use pg_perf_bench.Runner.Loop.{
  write_checkpoint, record_point, run_rows, check_run, run_matrix, conclude,
  run_benchmark_iterations, refused, check_scripts, planned,
}
use pg_perf_bench.Runner.Held.{
  State, view, LeavesControl, IsIdle, IsDone, Done, W, passing, write_checkpoint-keeps,
  after_checkpoint-IsDone, run_iteration-IsDone,
}

-- A policy that is known at one iteration is known at each.
known :
    (b x y : Bool)
    → (if not b then none else some x) ≢ none
    → (if not b then none else some y) ≢ none
known true x y h = λ q. cc
known false x y h = h

known_policy :
    (policy : String) (i j : ℕ)
    → initializes_iteration policy i ≢ none
    → initializes_iteration policy j ≢ none
unfolding initializes_iteration
known_policy policy i j = known (elem policy (each_iteration ∷ "once" ∷ "skip" ∷ [])) _ _

module _ (env : Env) (digest : Identity → String) (parts : Parts) (c : RunConf)
    (leaves : LeavesControl parts) where
  abbrev C : Type 0
  C = W env digest parts c leaves

  abbrev V : C → World Settings
  V = view parts c.init_policy

  IsDone-next :
      {A : Type 0} (r : Result A) (w : C) (last : Bool)
      → IsDone parts c.init_policy last r w
      → (f : A → M (State parts c.init_policy) (Unit {0}))
      → ((a : A)
          → (last ≡ true → IsReleased (V w))
          → IsIdle parts c.init_policy w
          → IsReleased (V (f a w).1))
      → IsReleased (V (continue r w f).1)
  IsDone-next (ok a) w last h f next = next a h.0 h.1
  IsDone-next (err e) w last h f next = h

  record_point-IsDone :
      (p : Point parts.Evidence parts.Validation) (last : Bool) (w : C)
      → (last ≡ true → IsReleased (V w))
      → IsIdle parts c.init_policy w
      → Done env digest parts c leaves last (record_point env digest parts c p w)
  unfolding record_point call
  record_point-IsDone p last w final idle =
      let (final', idle') =
        Steps-kept (λ x. (last ≡ true → IsReleased (V x)) × IsIdle parts c.init_policy x)
          (write_checkpoint-keeps env digest parts c leaves _
            (λ q r x quiet (final'', (idle'', tidy)). (
              λ p. passing env digest parts c leaves absent q r x quiet (final'' p),
              (
                λ p. passing env digest parts c leaves absent q r x quiet (idle'' p),
                passing env digest parts c leaves unknown q r x quiet tidy,
              ),
            ))
            "running")
          _ (final, idle) in
      after_checkpoint-IsDone env digest parts c leaves p.at last _ _ final' idle'

  run_rows-IsReleased :
      (plan : Option (List String)) (index : ℕ) (rows : List String) (w : C)
      → initializes_iteration c.init_policy 1 ≢ none
      → (is_last rows ≡ true → IsReleased (V w))
      → IsIdle parts c.init_policy w
      → IsReleased (V (run_rows env digest parts c plan index rows w).1)
  unfolding run_rows call
  run_rows-IsReleased plan index [] w policy final idle = final refl
  run_rows-IsReleased plan index (command ∷ rest) w policy final idle =
      elim (Option-cases (initializes_iteration c.init_policy index)) [
        | inl missing ↦ absurd (known_policy c.init_policy 1 index policy missing)
        | inr (initialize, q) ↦ rw q (
            IsDone-next _ _ (is_last rest)
              (run_iteration-IsDone env digest parts c leaves plan _ command initialize
                (is_last rest) w idle)
              _
              (λ p final' idle'.
                IsDone-next _ _ (is_last rest) (record_point-IsDone p (is_last rest) _ final' idle')
                  _
                  (λ _ final'' idle''.
                    run_rows-IsReleased plan (index + 1) rest _ policy final'' idle'')))
      ]

  -- The tests before the loop leave the controller as it is, and they know the policy if they return.
  abbrev tested : Protocol (State parts c.init_policy)
  tested = record {
    Degree = Bool;
    Holds = λ k w.
        IsReleased (V w)
        × (w.self.retained ≡ false)
        × (k ≡ true → initializes_iteration c.init_policy 1 ≢ none);
    least = false;
    weaken = λ k w (free, alone, before). (free, alone, λ q. cc);
  }

  asked : {k : Bool} (q : Call) → is_opening q ≡ false → Steps tested k (call env q) k
  unfolding call
  asked q quiet = Steps-always (λ w (free, alone, before).
      (passing env digest parts c leaves absent q (env w.trace q) w quiet free, alone, before))

  session-tested : {k : Bool} → Steps tested k (outside parts.check_session) k
  unfolding outside
  session-tested = Steps-always (λ w ((o, l, d, e, a), alone, before).
      let (open_as, locked_as) = leaves.checks (record { trace = w.trace; self = tt }) in
      ((open_as ∙ o, locked_as ∙ l, d, e, a), alone, before))

  policy-tested :
      (o : Option Bool)
      → initializes_iteration c.init_policy 1 ≡ o
      → Steps tested false (or_raise o Exc.configuration) true
  unfolding or_raise pure raise
  policy-tested none q = record { at = λ w h. h }
  policy-tested (some b) q = record { at = λ w (free, alone, before). (free, alone, λ _ p. cc) }

  refused-tested : (o : Option Exc) → Steps tested false (refused env digest parts c o) false
  unfolding refused
  refused-tested none = Steps-pure tt
  refused-tested (some e) = Steps-raise e

  scripts-tested :
      (commands : List String)
      → Steps tested false (check_scripts env digest parts c commands) false
  unfolding check_scripts
  scripts-tested [] = Steps-pure tt
  scripts-tested (command ∷ rest) =
      refused-tested (parts.check_script command) ⨟ scripts-tested rest

  planned-tested :
      (r : Result (List String)) → Steps tested false (planned env digest parts c r) false
  unfolding planned
  planned-tested (ok schemas) = Steps-pure _
  planned-tested (err e) = Steps-raise e

  check_run-tested : Steps tested false (check_run env digest parts c) true
  unfolding check_run
  check_run-tested =
      Steps-when _ (scripts-tested _) ⨟ Steps-if _ (planned-tested _) (Steps-pure none) ▸ λ plan.
      policy-tested _ refl
      ⨟ Steps-when _ (asked _ refl ▸ λ pending. Steps-raise_if _ _)
      ⨟ Steps-when _ (Steps-raise_if _ _ ⨟ Steps-raise_if _ _)
      ⨟ Steps-when _ session-tested
      ⨟ Steps-pure plan

  matrix :
      (r : Result (Option (List String))) (w : C)
      → After tested true r w
      → IsReleased (V (continue r w (λ plan. run_rows env digest parts c plan 1 c.commands)).1)
  matrix (ok plan) w (free, alone, policy) =
      run_rows-IsReleased plan 1 c.commands w (policy refl) (λ _. free)
        (λ _. free, released-IsTidy (V w) free)
  matrix (err e) w (free, alone, policy) = free

  concludes :
      (status : String)
      → Steps (keeping (λ x. IsReleased (V x))) tt (write_checkpoint env digest parts c status) tt
  concludes status =
      write_checkpoint-keeps env digest parts c leaves _ (passing env digest parts c leaves absent)
        status

  conclude-IsReleased :
      (r : Result (Unit {0})) (w : C)
      → IsReleased (V w)
      → IsReleased (V (conclude env digest parts c r w).1)
  unfolding conclude
  conclude-IsReleased (ok _) w h = Steps-kept (λ x. IsReleased (V x)) (concludes "complete") w h
  conclude-IsReleased (err e) w h =
      Steps-kept (λ x. IsReleased (V x)) (concludes _ ⨟ Steps-raise e) w h

  -- However a run ends, by return, error or cancellation, no control connection that it has opened is
  -- left open, and no server lock that it has taken is left held, if none was before and the parts that
  -- it takes leave the control connection to the attributes that account for it.
  pub run_benchmark_iterations-IsReleased :
      (w : C)
      → IsReleased (V w)
      → w.self.retained ≡ false
      → IsReleased (V (run_benchmark_iterations env digest parts c w).1)
  unfolding run_benchmark_iterations run_matrix ◌>>◌ ◌>>=◌
  run_benchmark_iterations-IsReleased w free alone = started _ _ (
      (write_checkpoint-keeps env digest parts c leaves
          (λ y. IsReleased (V y) × (y.self.retained ≡ false))
          (λ q r x quiet (free', alone').
            (passing env digest parts c leaves absent q r x quiet free', alone'))
          "running").at
        w (free, alone))
    where
      started :
          (r : Result (Unit {0})) (x : C)
          → After
              (keeping {S = State parts c.init_policy}
                (λ y. IsReleased (V y) × (y.self.retained ≡ false)))
              tt
              r
              x
          → IsReleased (
              V
                (continue r x (λ _ y.
                  let (s, z) = run_matrix env digest parts c y in
                  conclude env digest parts c s z)).1)
      started (ok _) x (free', alone') =
          conclude-IsReleased _ _ (matrix _ _ (check_run-tested.at x (free', alone', λ q. cc)))
      started (err e) x (free', alone') = free'
