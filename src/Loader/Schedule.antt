-- ===== src/Loader/Schedule.antt =====
-- `run_tasks` (src/pg_perf_bench/initialization.py): what `take` hands to a worker and what a worker
-- notes when its batch is committed. Both run under the condition's lock, so each is one step.
use pg_perf_bench.Prelude.{
  ℕ, zero, suc, ◌+◌, ◌-◌, ◌/◌, ◌%◌, ◌==◌, min, max, Bool, true, false, not, ◌&&◌, ◌||◌, String,
  Option, none, some, List, [], ◌∷◌, length, ltb, leb, elem, if◌then◌else◌,
}
use pg_perf_bench.Loader.Plan.{LoadTask, is_subset}

-- `_TaskState`, without the times.
pub record TaskState : Type 0 where
  pub task : LoadTask
  pub next_key : ℕ
  pub outstanding : ℕ
  pub submitted : Bool
  pub completed : Bool
  pub rows : ℕ
  pub batches : ℕ

abbrev pub start_state : LoadTask → TaskState
start_state t = record {
  task = t;
  next_key = 1;
  outstanding = 0;
  submitted = false;
  completed = false;
  rows = 0;
  batches = 0;
}

-- The variables that the workers share.
pub record Pool : Type 0 where
  pub states : List TaskState
  pub finished : List String
  pub cursor : ℕ

-- The last key of the batch that begins at `first`.
unfoldable pub last_key : (batch_rows : ℕ) → LoadTask → (count first : ℕ) → ℕ
last_key batch_rows t count first = min count (first + max 1 (batch_rows / t.max_rows_per_key) - 1)

-- What one look at a task gives: nothing to do, the task found complete, or a job.
pub data Look : Type 0 where
  skipped : Look
  complete : TaskState → Look
  job : TaskState → (params : Option (ℕ × ℕ)) → Look

unfoldable pub look : (batch_rows : ℕ) → (finished : List String) → TaskState → Look
unfolding last_key
look batch_rows finished s =
    if s.completed || not (is_subset s.task.depends_on finished)
    then skipped
    else elim s.task.count [
      | none ↦
          if s.submitted
          then skipped
          else job (record s { submitted = true; outstanding = s.outstanding + 1 }) none
      | some count ↦
          if leb s.next_key count
          then (let last = last_key batch_rows s.task count s.next_key in
              job (record s { next_key = last + 1; outstanding = s.outstanding + 1 })
                (some (s.next_key, last)))
          else if s.outstanding == 0
          then complete (record s { completed = true })
          else skipped
    ]

-- A worker's bookkeeping after its batch is committed, with the rows that the server reports.
unfoldable pub is_exhausted : TaskState → Bool
is_exhausted s = elim s.task.count [ none ↦ true | some count ↦ ltb count s.next_key ]

unfoldable pub commit : (affected : ℕ) → TaskState → TaskState
unfolding is_exhausted
commit affected s =
    let outstanding = s.outstanding - 1 in
    record s {
      outstanding = outstanding;
      batches = s.batches + 1;
      rows = s.rows + affected;
      completed = s.completed || outstanding == 0 && is_exhausted s;
    }

abbrev pub set_at : List TaskState → ℕ → TaskState → List TaskState
set_at [] index s = []
set_at (x ∷ xs) zero s = s ∷ xs
set_at (x ∷ xs) (suc index) s = x ∷ set_at xs index s

abbrev pub get_at : List TaskState → ℕ → Option TaskState
get_at [] index = none
get_at (x ∷ xs) zero = some x
get_at (x ∷ xs) (suc index) = get_at xs index

-- `done.add`
abbrev pub add_name : String → List String → List String
add_name name names = if elem name names then names else name ∷ names

-- The same on the shared variables, for the task at an index.
unfoldable pub finish_batch : (index affected : ℕ) → Pool → Pool
unfolding commit
finish_batch index affected p = elim (get_at p.states index) [
  | none ↦ p
  | some s ↦
      let s' = commit affected s in
      record p {
        states = set_at p.states index s';
        finished = if s'.completed then add_name s.task.name p.finished else p.finished;
      }
]

-- What `take` comes to: a job at an index, the end, or to wait for a change.
pub data Taken : Type 0 where
  batch : (index : ℕ) → TaskState → (params : Option (ℕ × ℕ)) → Taken
  waiting : Taken

-- What the loop does with one look; `rest` are the further offsets.
abbrev pub looked :
    (index : ℕ) → Pool → TaskState → Look → (rest : Pool → Taken × Pool) → Taken × Pool
looked index p s skipped rest = rest p
looked index p s (complete s') rest =
    rest (record p { states = set_at p.states index s'; finished = s.task.name ∷ p.finished })
looked index p s (job s' params) rest = (
  batch index s' params,
  record p { states = set_at p.states index s'; cursor = (index + 1) % length p.states },
)

unfoldable pub at_index :
    (batch_rows index : ℕ) → Pool → Option TaskState → (rest : Pool → Taken × Pool) → Taken × Pool
unfolding look
at_index batch_rows index p none rest = (waiting, p)
at_index batch_rows index p (some s) rest = looked index p s (look batch_rows p.finished s) rest

-- The `for` loop over the offsets, of which `left` remain.
unfoldable pub scan : (batch_rows left : ℕ) → (offset : ℕ) → Pool → Taken × Pool
unfolding at_index
scan batch_rows zero offset p = (waiting, p)
scan batch_rows (suc left) offset p =
    let index = (p.cursor + offset) % length p.states in
    at_index batch_rows index p (get_at p.states index) (scan batch_rows left (offset + 1))

-- What a pass that began with `p` leads to: its job, the wait for a change, or another pass.
abbrev pub after_scan :
    Pool → Taken × Pool → (again : Pool → Option Taken × Pool) → Option Taken × Pool
after_scan p (batch index s params, p') again = (some (batch index s params), p')
after_scan p (waiting, p') again =
    let next = again p' in
    if length p'.finished == length p.finished then (some waiting, p') else next

-- `take`: a pass that has finished a task is followed by another. `fuel` bounds the passes; each that
-- is followed finishes a task, so the number of tasks and one are enough. `none` is the end.
unfoldable pub take : (fuel batch_rows : ℕ) → Pool → Option Taken × Pool
unfolding scan
take zero batch_rows p = (none, p)
take (suc fuel) batch_rows p =
    let next = after_scan p (scan batch_rows (length p.states) 0 p) (take fuel batch_rows) in
    if leb (length p.states) (length p.finished) then (none, p) else next
