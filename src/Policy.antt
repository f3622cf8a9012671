-- ===== src/Policy.antt =====
-- The cadence of initialization (src/pg_perf_bench/init_policy.py).
pub mod Cadence
use pg_perf_bench.Prelude.{
  ℕ, ◌==◌, Bool, true, false, not, ◌&&◌, ◌||◌, String, Option, none, some, [], ◌∷◌, str_eq, elem,
  if◌then◌else◌,
}

abbrev pub each_iteration : String
each_iteration = "each-iteration"

-- `initializes_iteration`; `none` is the `ConfigurationError`.
unfoldable pub initializes_iteration : String → ℕ → Option Bool
initializes_iteration policy index =
    if not (elem policy (each_iteration ∷ "once" ∷ "skip" ∷ []))
    then none
    else some (str_eq policy each_iteration || str_eq policy "once" && index == 1)

-- `policy_evidence`, on the policy that the configuration gives or the default.
pub record PolicyEvidence : Type 0 where
  pub init_policy : String
  pub dataset_reused_between_iterations : Bool
  pub existing_dataset : Bool
  pub workload_scale_verified : Option Bool
  pub vacuum_analyze_before_each_workload : Bool

unfoldable pub policy_evidence : Option String → PolicyEvidence
policy_evidence config =
    let policy : String = elim config [ none ↦ each_iteration | some p ↦ p ] in
    record {
      init_policy = policy;
      dataset_reused_between_iterations = not (str_eq policy each_iteration);
      existing_dataset = str_eq policy "skip";
      workload_scale_verified = if str_eq policy "skip" then some false else none;
      vacuum_analyze_before_each_workload = str_eq policy each_iteration;
    }
