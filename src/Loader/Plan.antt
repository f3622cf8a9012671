-- ===== src/Loader/Plan.antt =====
-- `LoadTask`, `LoadPlan` and `validate_plan` (src/pg_perf_bench/initialization.py).
use pg_perf_bench.Prelude.{
  ℕ, zero, suc, Bool, true, false, not, ◌&&◌, ◌||◌, String, Option, none, some, List, [], ◌∷◌, ◌++◌,
  str_eq, elem, any, all, length, leb, map, codes, if◌then◌else◌,
}
use pg_perf_bench.Database.Names.{starts_pg, has_duplicate}

-- `is_blank` stands for `not task.sql.strip()`.
pub record LoadTask : Type 0 where
  pub name : String
  pub is_blank : Bool
  pub count : Option ℕ
  pub max_rows_per_key : ℕ
  pub depends_on : List String

pub record LoadPlan : Type 0 where
  pub schemas : List String
  pub schema_sql : String
  pub data_tasks : List LoadTask
  pub indexes : List LoadTask
  pub constraints : List LoadTask

abbrev pub is_empty {ℓ} : {A : Type ℓ} → List A → Bool
is_empty [] = true
is_empty (x ∷ xs) = false

-- `not schema or schema.startswith('pg_') or schema == 'information_schema'`
unfoldable pub is_reserved : String → Bool
is_reserved schema =
    is_empty (codes schema) || starts_pg (codes schema) || str_eq schema "information_schema"

-- `set(xs) <= set(ys)`
abbrev pub is_subset : List String → List String → Bool
is_subset xs ys = all (λ x. elem x ys) xs

abbrev pub names : List LoadTask → List String
names tasks = map (λ t. t.name) tasks

-- The largest `count`, 2 ** 63 - 1.
abbrev pub max_count : ℕ
max_count = 9223372036854775807

abbrev pub has_valid_count : Option ℕ → Bool
has_valid_count none = true
has_valid_count (some n) = leb n max_count

unfoldable pub is_valid_task : List String → LoadTask → Bool
is_valid_task known t =
    not (is_empty (codes t.name))
    && not t.is_blank
    && leb 1 t.max_rows_per_key
    && has_valid_count t.count
    && is_subset t.depends_on known

-- The tasks outside `done` whose dependencies are done.
unfoldable pub ready : List LoadTask → List String → List String
ready [] finished = []
ready (t ∷ ts) finished =
    let rest = ready ts finished in
    if is_subset t.depends_on finished && not (elem t.name finished) then t.name ∷ rest else rest

-- The `while` loop on the dependencies; each round finishes at least one task.
unfoldable pub completes : ℕ → List LoadTask → List String → Bool
unfolding ready
completes zero tasks finished = leb (length tasks) (length finished)
completes (suc fuel) tasks finished =
    let rest = completes fuel tasks (finished ++ ready tasks finished) in
    if leb (length tasks) (length finished)
    then true
    else if is_empty (ready tasks finished)
    then false
    else rest

unfoldable pub is_valid_phase : List LoadTask → Bool
unfolding is_valid_task completes
is_valid_phase tasks =
    not (has_duplicate (names tasks))
    && all (is_valid_task (names tasks)) tasks
    && completes (length tasks) tasks []

-- Whether `validate_plan` accepts the plan.
unfoldable pub is_valid_plan : LoadPlan → Bool
unfolding is_valid_phase is_reserved
is_valid_plan p =
    not (is_empty p.schemas)
    && not (is_empty (codes p.schema_sql))
    && not (any is_reserved p.schemas)
    && is_valid_phase p.data_tasks
    && is_valid_phase p.indexes
    && is_valid_phase p.constraints
