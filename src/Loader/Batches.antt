-- ===== src/Loader/Batches.antt =====
-- The batches of a task that loads by key ranges (src/pg_perf_bench/initialization.py).
use pg_perf_bench.Prelude.{
  ℕ, zero, suc, ◌+◌, ◌≤◌, true, false, not, ◌||◌, ◌≡◌, refl, String, some, List, [], ◌∷◌, leb, ◌==◌,
  arith, Bool-cases, inl, inr,
}
use pg_perf_bench.Loader.Plan.{LoadTask, is_subset}
use pg_perf_bench.Loader.Schedule.{TaskState, start_state, last_key, Look, job, look}

abbrev pub after_look : Look → (TaskState → List (ℕ × ℕ)) → List (ℕ × ℕ)
after_look (job s (some range)) rest = range ∷ rest s
after_look _ rest = []

-- The key ranges that successive looks at a task hand out, until one hands out none.
unfoldable pub ranges : (fuel batch_rows : ℕ) → (finished : List String) → TaskState → List (ℕ × ℕ)
ranges zero batch_rows finished s = []
ranges (suc fuel) batch_rows finished s =
    after_look (look batch_rows finished s) (ranges fuel batch_rows finished)

-- The ranges follow each other from `first` to `count`, and none is empty.
abbrev pub IsPartition : (first count : ℕ) → List (ℕ × ℕ) → Type 0
IsPartition first count [] = first ≡ count + 1
IsPartition first count ((a, b) ∷ rest) =
    (a ≡ first) × (a ≤ b) × (b ≤ count) × IsPartition (b + 1) count rest

last_key-bounds :
    (batch_rows : ℕ) (t : LoadTask) (count first : ℕ)
    → first ≤ count
    → (first ≤ last_key batch_rows t count first) × (last_key batch_rows t count first ≤ count)
unfolding last_key
last_key-bounds batch_rows t count first h = (grind arith, grind arith)

look-job :
    (batch_rows : ℕ) (finished : List String) (s : TaskState) (count : ℕ)
    → s.task.count ≡ some count
    → (s.completed || not (is_subset s.task.depends_on finished)) ≡ false
    → leb s.next_key count ≡ true
    → let last = last_key batch_rows s.task count s.next_key in
      look batch_rows finished s
      ≡ job
          (record s { next_key = last + 1; outstanding = s.outstanding + 1 })
          (some (s.next_key, last))
unfolding look
look-job batch_rows finished s count q free more = simp (free, q, more)

look-over :
    (batch_rows : ℕ) (finished : List String) (s : TaskState) (count : ℕ)
    (rest : TaskState → List (ℕ × ℕ))
    → s.task.count ≡ some count
    → (s.completed || not (is_subset s.task.depends_on finished)) ≡ false
    → leb s.next_key count ≡ false
    → after_look (look batch_rows finished s) rest ≡ []
unfolding look
look-over batch_rows finished s count rest q free over = elim (Bool-cases (s.outstanding == 0)) [
  | inl idle ↦ simp (free, q, over, idle)
  | inr busy ↦ simp (free, q, over, busy)
]

ranges-from :
    (fuel batch_rows : ℕ) (finished : List String) (s : TaskState) (count : ℕ)
    → s.task.count ≡ some count
    → (s.completed || not (is_subset s.task.depends_on finished)) ≡ false
    → s.next_key ≤ count + 1
    → count + 1 ≤ s.next_key + fuel
    → IsPartition s.next_key count (ranges fuel batch_rows finished s)
unfolding ranges
ranges-from zero batch_rows finished s count q free low enough = omega (arith, low, enough)
ranges-from (suc fuel) batch_rows finished s count q free low enough =
    elim (Bool-cases (leb s.next_key count)) [
      | inl more ↦
          let bounds = last_key-bounds batch_rows s.task count s.next_key (grind arith) in
          rw (look-job batch_rows finished s count q free more) (
            refl,
            bounds.0,
            bounds.1,
            ranges-from fuel batch_rows finished _ count q free (omega (arith, bounds.1))
                (omega (arith, bounds.0, enough)),
          )
      | inr over ↦ rw (look-over batch_rows finished s count _ q free over) (grind arith)
    ]

-- However the tasks take turns, the ranges of a task that is not complete and whose dependencies are
-- done cover its keys from 1 to its count, each once, in order, and none is empty, if its count is at
-- most the fuel.
pub ranges-IsPartition :
    (fuel batch_rows : ℕ) (finished : List String) (t : LoadTask) (count : ℕ)
    → t.count ≡ some count
    → is_subset t.depends_on finished ≡ true
    → count ≤ fuel
    → IsPartition 1 count (ranges fuel batch_rows finished (start_state t))
ranges-IsPartition fuel batch_rows finished t count q done enough =
    ranges-from fuel batch_rows finished (start_state t) count q (rw done refl) (omega arith)
      (omega (arith, enough))
