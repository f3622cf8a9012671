-- ===== src/Loader/Workers.antt =====
-- The workers of `run_tasks` as an interleaving of their steps (src/pg_perf_bench/initialization.py): a
-- worker that takes a job, or looks in vain, and a worker whose batch is committed.
use pg_perf_bench.Prelude.{
  ℕ, zero, suc, ◌==◌, Bool, true, false, ◌≡◌, refl, sym, ap, String, Option, none, some, List, [],
  ◌∷◌, map, elem, arith, All, if◌then◌else◌, inl, inr, ◌⊎◌,
}
use mathlib.Core.Path.{subst}
use pg_perf_bench.Loader.Plan.{LoadTask, is_subset}
use pg_perf_bench.Loader.Schedule.{
  TaskState, start_state, Pool, commit, set_at, get_at, add_name, finish_batch, Taken, take,
}
use pg_perf_bench.Loader.Sound.{jobs_of, is_used_up, IsSound, commit-IsSound}
use pg_perf_bench.Loader.Orderly.{
  some-injective, IsOrderly, replaced-IsOrderly, cons-known, and_both, contradicted, push-other,
  push-same,
}
use pg_perf_bench.Loader.Scanning.{TakeOutcome, take-Outcome}

-- One job of the task at `i` is taken out of the running ones.
pub data Removed (i : ℕ) : List ℕ → List ℕ → Type 0 where
  this_job : {js : List ℕ} → Removed i (i ∷ js) js
  other_job : (j : ℕ) {js ks : List ℕ} → Removed i js ks → Removed i (j ∷ js) (j ∷ ks)

suc_if : (b : Bool) {m n : ℕ} → m ≡ suc n → (if b then suc m else m) ≡ suc (if b then suc n else n)
suc_if true h = ap suc h
suc_if false h = h

pub Removed-same : {i : ℕ} {js ks : List ℕ} → Removed i js ks → jobs_of i js ≡ suc (jobs_of i ks)
Removed-same {i = i} {js = _ ∷ js} this_job = push-same i js
Removed-same {i = i} (other_job j r) = suc_if (i == j) (Removed-same r)

same_if : (b : Bool) {m n : ℕ} → m ≡ n → (if b then suc m else m) ≡ (if b then suc n else n)
same_if true h = ap suc h
same_if false h = h

Removed-other :
    {i : ℕ} {js ks : List ℕ} (k : ℕ)
    → Removed i js ks
    → (k == i) ≡ false
    → jobs_of k ks ≡ jobs_of k js
Removed-other {i = i} {ks = ks} k this_job h = sym (push-other i ks k h)
Removed-other k (other_job j r) h = same_if (k == j) (Removed-other k r h)

add_if :
    (b : Bool) (name first : String) (names : List String)
    → elem name (if b then names else first ∷ names) ≡ true
    → (elem name names ≡ true) ⊎ (first ≡ name)
add_if true name first names h = inl h
add_if false name first names h = cons-known name first names h

done_if :
    (b : Bool) (name first : String) (names : List String)
    → elem name (if b then add_name first names else names) ≡ true
    → (elem name names ≡ true) ⊎ ((first ≡ name) × (b ≡ true))
done_if true name first names h = elim (add_if (elem first names) name first names h) [
  | inl known ↦ inl known
  | inr new ↦ inr (new, refl)
]
done_if false name first names h = inl h

finished-IsOrderly :
    (i affected : ℕ) (running running' : List ℕ) (p : Pool) (s : TaskState)
    → Removed i running running'
    → IsOrderly running p
    → get_at p.states i ≡ some s
    → IsOrderly running' (record p {
      states = set_at p.states i (commit affected s);
      finished =
          if (commit affected s).completed then add_name s.task.name p.finished else p.finished;
    })
finished-IsOrderly i affected running running' p s r v q =
    let (sound', open_yet, same) =
      commit-IsSound affected (jobs_of i running') s
        (subst (λ n. IsSound n s) (Removed-same r) (v.sound i s q)) in
    replaced-IsOrderly running running' p _ i s (commit affected s) v q refl sound'
      (λ j e. Removed-other j r e) (λ c. contradicted c open_yet) (ap (λ t. t.name) same)
      (λ name found. done_if (commit affected s).completed name s.task.name p.finished found)

-- A commit of a running job keeps the invariant.
finish_batch-IsOrderly :
    (i affected : ℕ) (running running' : List ℕ) (p : Pool) (s : TaskState)
    → Removed i running running'
    → IsOrderly running p
    → get_at p.states i ≡ some s
    → IsOrderly running' (finish_batch i affected p)
unfolding finish_batch
finish_batch-IsOrderly i affected running running' p s r v q =
    rw (q, finish_batch) (finished-IsOrderly i affected running running' p s r v q)

-- What the workers of a phase do, in any order: `running` are the indexes of the jobs that are handed
-- out and not committed. The fuel of a look for a job is any.
pub data Reaches (batch_rows : ℕ) (tasks : List LoadTask) : List ℕ → Pool → Type 0 where
  begin :
      Reaches batch_rows tasks []
        (record { states = map start_state tasks; finished = []; cursor = 0 })
  took :
      {running : List ℕ} {p p' : Pool} {s : TaskState} (fuel i : ℕ) (params : Option (ℕ × ℕ))
      → Reaches batch_rows tasks running p
      → take fuel batch_rows p ≡ (some (Taken.batch i s params), p')
      → Reaches batch_rows tasks (i ∷ running) p'
  waited :
      {running : List ℕ} {p p' : Pool} (fuel : ℕ)
      → Reaches batch_rows tasks running p
      → take fuel batch_rows p ≡ (some Taken.waiting, p')
      → Reaches batch_rows tasks running p'
  ended :
      {running : List ℕ} {p p' : Pool} (fuel : ℕ)
      → Reaches batch_rows tasks running p
      → take fuel batch_rows p ≡ (none, p')
      → Reaches batch_rows tasks running p'
  committed :
      {running running' : List ℕ} {p : Pool} {s : TaskState} (i affected : ℕ)
      → Reaches batch_rows tasks running p
      → get_at p.states i ≡ some s
      → Removed i running running'
      → Reaches batch_rows tasks running' (finish_batch i affected p)

start-IsSound :
    (tasks : List LoadTask) (i : ℕ) (s : TaskState)
    → get_at (map start_state tasks) i ≡ some s
    → IsSound 0 s
start-IsSound [] i s h = cc
start-IsSound (t ∷ ts) zero s h =
    subst (IsSound 0) (some-injective h) (record { counted = refl; settled = refl; started = refl })
start-IsSound (t ∷ ts) (suc i) s h = start-IsSound ts i s h

pub Reaches-IsOrderly :
    {b : ℕ} {tasks : List LoadTask} {running : List ℕ} {p : Pool}
    → Reaches b tasks running p
    → IsOrderly running p
Reaches-IsOrderly {tasks = tasks} begin = record {
  sound = λ i s h. start-IsSound tasks i s h;
  done = λ name h. contradicted h refl;
}
Reaches-IsOrderly {b = b} (took {running = running} fuel i params r h) =
    (subst (TakeOutcome running) h (take-Outcome fuel b running _ (Reaches-IsOrderly r))).0
Reaches-IsOrderly {b = b} {running = running} (waited fuel r h) =
    subst (TakeOutcome running) h (take-Outcome fuel b running _ (Reaches-IsOrderly r))
Reaches-IsOrderly {b = b} {running = running} (ended fuel r h) =
    subst (TakeOutcome running) h (take-Outcome fuel b running _ (Reaches-IsOrderly r))
Reaches-IsOrderly {running = running'}
      (committed {running = running} {p = p} {s = s} i affected r h removed) =
    finish_batch-IsOrderly i affected running running' p s removed (Reaches-IsOrderly r) h

-- A task of that name is completed: it has no running job, and all its batches were handed out.
abbrev pub IsLoaded : List ℕ → List TaskState → String → Type 0
IsLoaded running states name =
    (i : ℕ) × (s : TaskState) × (get_at states i ≡ some s)
    × (s.task.name ≡ name)
    × (jobs_of i running ≡ 0)
    × (is_used_up s ≡ true)

pub settled-Loaded :
    (jobs : ℕ) (s : TaskState)
    → IsSound jobs s
    → s.completed ≡ true
    → (jobs ≡ 0) × (is_used_up s ≡ true)
settled-Loaded jobs s v h = ground arith

All-IsLoaded :
    (names : List String) (running : List ℕ) (p : Pool)
    → IsOrderly running p
    → is_subset names p.finished ≡ true
    → All (IsLoaded running p.states) names
All-IsLoaded [] running p v h = tt
All-IsLoaded (name ∷ names) running p v h =
    let (here, rest) = and_both (elem name p.finished) (is_subset names p.finished) h in
    let (i, s, at, completed, named) = v.done name here in
    let (idle, used) = settled-Loaded (jobs_of i running) s (v.sound i s at) completed in
    ((i, s, at, named, idle, used), All-IsLoaded names running p v rest)

-- However the workers' steps interleave, a job is handed out only when each task that its task depends
-- on has handed out all its batches and none of them is running.
pub take-IsLoaded :
    (batch_rows fuel i : ℕ) (tasks : List LoadTask) (running : List ℕ) (p p' : Pool) (s : TaskState)
    (params : Option (ℕ × ℕ))
    → Reaches batch_rows tasks running p
    → take fuel batch_rows p ≡ (some (Taken.batch i s params), p')
    → All (IsLoaded (i ∷ running) p'.states) s.task.depends_on
take-IsLoaded batch_rows fuel i tasks running p p' s params r h =
    let (orderly, deps) =
      subst (TakeOutcome running) h
        (take-Outcome fuel batch_rows running p (Reaches-IsOrderly r)) in
    All-IsLoaded s.task.depends_on (i ∷ running) p' orderly deps
