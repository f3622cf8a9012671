-- ===== src/Policy/Cadence.antt =====
-- What the policy says of the data and what the iterations do (src/pg_perf_bench/init_policy.py).
use pg_perf_bench.Prelude.{
  ℕ, ◌<◌, ◌==◌, Bool, true, false, not, ◌&&◌, ◌||◌, ◌≡◌, refl, String, none, some, str_eq,
  str_eq_iff, if◌then◌else◌,
}
use pg_perf_bench.Policy.{each_iteration, initializes_iteration, policy_evidence}

differs : (s t u : String) → str_eq t u ≡ false → str_eq s t ≡ true → str_eq s u ≡ false
differs s t u apart q = rw ((str_eq_iff s t).0 q) apart

cadence :
    (each once skip first b : Bool)
    → (each ≡ true → skip ≡ false)
    → (once ≡ true → skip ≡ false)
    → (if not (each || (once || (skip || false))) then none else some (each || once && first))
      ≡ some b
    → b ≡ not (if first then skip else not each)
cadence true once skip true b he ho q = let s = he refl in cc
cadence true once skip false b he ho q = cc
cadence false true skip true b he ho q = let s = ho refl in cc
cadence false true skip false b he ho q = cc
cadence false false true true b he ho q = cc
cadence false false true false b he ho q = cc
cadence false false false first b he ho q = cc

-- The evidence agrees with the iterations: the first one reuses the data of an existing dataset, and a
-- later one reuses what is there, exactly when the evidence says so. An iteration of a known policy
-- initializes where it reuses nothing.
pub initializes_iteration-policy_evidence :
    (policy : String) (index : ℕ) (b : Bool)
    → 0 < index
    → initializes_iteration policy index ≡ some b
    → let e = policy_evidence (some policy) in
      b ≡ not (if index == 1 then e.existing_dataset else e.dataset_reused_between_iterations)
unfolding initializes_iteration policy_evidence
initializes_iteration-policy_evidence policy index b positive h =
    cadence (str_eq policy each_iteration) (str_eq policy "once") (str_eq policy "skip")
      (index == 1) b (differs policy each_iteration "skip" refl) (differs policy "once" "skip" refl)
      h
