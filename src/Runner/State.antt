-- ===== src/Runner/State.antt =====
-- The state of a run, and what it takes from the other components.
use pg_perf_bench.Prelude.{
  ℕ, Bool, true, false, String, Option, none, some, List, [], ◌∷◌, suc, zero,
}
use pg_perf_bench.Effects.{Exc, Result, M}
use pg_perf_bench.Settings.{Settings, LoadOptions, ConnectionType}
use pg_perf_bench.Database.{DatabaseConf}
use pg_perf_bench.Reset.{WorkloadConf}

-- `iteration`: its index from 1, and the load value of the matrix, if it has one there.
pub record Iteration : Type 0 where
  pub index : ℕ
  pub value : Option ℕ

-- The phase in which a run failed, and the exception of a cleanup that failed as well.
pub data Phase : Type 0 where
  iteration cleanup checkpoint : Phase

-- `exc.benchmark_run`
pub record Failure : Type 0 where
  pub at : Iteration
  pub phase : Phase
  pub cancelled : Bool
  pub cleanup_error : Option Exc

-- A point of `perf_results`. `E` is the evidence that a measurement returns, and `V` that of the
-- check of an existing dataset.
pub record Point (E V : Type 0) : Type 0 where
  pub at : Iteration
  pub evidence : E
  pub validation : Option V

-- What one iteration hands to `run_benchmark_with_evidence`.
pub record Request : Type 0 where
  pub at : Iteration
  pub command : String
  pub initialize : Bool
  pub required_replicas : Option (List (List String))

-- The other parts of the program that a run calls: the measurement itself, the check of an existing
-- dataset, the preflight of the client sessions, the loader's plan and the check of a command whose
-- scripts get a timeout.
pub record Parts : Type 1 where
  pub Evidence : Type 0
  pub Validation : Type 0
  pub measure : Request → M Settings Evidence
  pub validate_dataset : M Settings Validation
  pub check_session : M (Unit {0}) (Unit {0})
  pub load_plan : Result (List String)
  pub check_script : String → Option Exc

-- The configuration of a run: `workload_conf`, `db_conf` and the pairs of commands, of which only the
-- workload command is read here.
pub record RunConf : Type 0 where
  pub workload : WorkloadConf
  pub conf : DatabaseConf
  pub kind : ConnectionType
  pub has_connection : Bool
  pub init_policy : String
  pub fast : Bool
  pub options : LoadOptions
  pub command_timeout : ℕ
  pub statement_timeout : Bool
  pub checkpoint_path : Bool
  pub commands : List String
  pub values : List ℕ

-- The live `InitializationSettings`, whether the iteration has it open (`preflight_opened`), whether it
-- is retained between iterations, the points so far and the failure that an exception carries.
pub record Run (E V : Type 0) : Type 0 where
  pub settings : Settings
  pub opened : Bool
  pub retained : Bool
  pub results : List (Point E V)
  pub failure : Option Failure

module _ {E V : Type 0} where
  -- An operation on the settings, within a run.
  unfoldable pub lift : {A : Type 0} → M Settings A → M (Run E V) A
  lift m w =
      let (r, w') = m (record { trace = w.trace; self = w.self.settings }) in
      (r, record { trace = w'.trace; self = record w.self { settings = w'.self } })

  -- An operation that has no settings.
  unfoldable pub outside : {A : Type 0} → M (Unit {0}) A → M (Run E V) A
  outside m w =
      let (r, w') = m (record { trace = w.trace; self = tt }) in (r, record w { trace = w'.trace })

-- `values[index - 1] if index - 1 < len(values) else None`, for an index from 1.
abbrev pub value_at : List ℕ → ℕ → Option ℕ
value_at [] index = none
value_at (v ∷ vs) zero = none
value_at (v ∷ vs) (suc zero) = some v
value_at (v ∷ vs) (suc (suc n)) = value_at vs (suc n)

-- `idx == len(load_iterations)`, on the iterations that remain.
abbrev pub is_last : List String → Bool
is_last [] = true
is_last (_ ∷ _) = false
