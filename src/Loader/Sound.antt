-- ===== src/Loader/Sound.antt =====
-- The state of one task while its jobs run (src/pg_perf_bench/initialization.py, `run_tasks`).
use pg_perf_bench.Prelude.{
  ℕ, suc, ◌==◌, Bool, true, false, not, ◌&&◌, ◌||◌, ◌≡◌, String, Option, none, some, List, [], ◌∷◌,
  ltb, arith, if◌then◌else◌,
}
use pg_perf_bench.Loader.Plan.{is_subset}
use pg_perf_bench.Loader.Schedule.{TaskState, Look, look, is_exhausted, commit, last_key}

-- How many running jobs are of the task at an index.
abbrev pub jobs_of : ℕ → List ℕ → ℕ
jobs_of i [] = 0
jobs_of i (j ∷ js) = if i == j then suc (jobs_of i js) else jobs_of i js

-- Every batch of the task has been handed out.
abbrev pub is_used_up : TaskState → Bool
is_used_up s = elim s.task.count [ none ↦ s.submitted | some count ↦ ltb count s.next_key ]

abbrev pub is_started : TaskState → Bool
is_started s = elim s.task.count [ none ↦ s.submitted | some count ↦ true ]

-- A task state counts its running jobs, and is completed only when it has none and no more to come.
pub record IsSound (jobs : ℕ) (s : TaskState) : Type 0 where
  pub counted : s.outstanding ≡ jobs
  pub settled : (not s.completed || s.outstanding == 0 && is_used_up s) ≡ true
  pub started : (s.outstanding == 0 || is_started s) ≡ true

pub look-complete :
    (b jobs : ℕ) (finished : List String) (s s' : TaskState)
    → look b finished s ≡ Look.complete s'
    → IsSound jobs s
    → IsSound jobs s' × (s'.completed ≡ true) × (s'.task.name ≡ s.task.name)
unfolding look
look-complete b jobs finished s s' h v = ground arith

pub look-job :
    (b jobs : ℕ) (finished : List String) (s s' : TaskState) (params : Option (ℕ × ℕ))
    → look b finished s ≡ Look.job s' params
    → IsSound jobs s
    → IsSound (suc jobs) s'
      × (s'.completed ≡ false)
      × (s.completed ≡ false)
      × (is_subset s.task.depends_on finished ≡ true)
      × (s'.task ≡ s.task)
unfolding look last_key
look-job b jobs finished s s' params h v = ground arith

pub commit-IsSound :
    (affected jobs : ℕ) (s : TaskState)
    → IsSound (suc jobs) s
    → IsSound jobs (commit affected s) × (s.completed ≡ false) × ((commit affected s).task ≡ s.task)
unfolding commit is_exhausted
commit-IsSound affected jobs s v = ground arith
