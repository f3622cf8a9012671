-- ===== src/Join/Catalog.antt =====
-- `normalize_join_task_id`, `validate_join_task` and `load_join_task`
-- (src/pg_perf_bench/join_catalog.py). The parsed file of a task is a parameter.
use Prim.Native.Char.{code}
use pg_perf_bench.Prelude.{
  ℕ, zero, suc, ◌-◌, leb, ◌==◌, Bool, true, false, not, ◌&&◌, ◌||◌, String, Option, none, some,
  List, [], ◌∷◌, ◌++◌, all, str_eq, chars, ends_with, if◌then◌else◌,
}
use pg_perf_bench.Effects.{Exc, Result, ok, err}
use pg_perf_bench.Fallible.{◌>>=◌}
use pg_perf_bench.Json.{Value, Items, get, is_text, to_list}
use pg_perf_bench.Workloads.Profile.{is_blank_text, has_duplicates}

abbrev pub is_digit_or_small : ℕ → Bool
is_digit_or_small c = leb b'0' c && leb c b'9' || leb b'a' c && leb c b'z'

-- `[a-z0-9]+(?:-[a-z0-9]+)*`; `inside` is whether the last character was none of the dashes.
abbrev pub is_kebab : (inside : Bool) → String → Bool
is_kebab inside String.[] = inside
is_kebab inside (String.◌∷◌ c s) =
    let word = is_kebab true s in
    let next = is_kebab false s in
    if is_digit_or_small (code c) then word else (code c == b'-' && (inside && next))

abbrev pub is_word : ℕ → Bool
is_word c = is_digit_or_small c || (leb b'A' c && leb c b'Z' || (c == b'_' || c == b'-'))

-- `[A-Za-z0-9_-]+(?:\.[A-Za-z0-9_-]+)*`
abbrev pub is_dotted : (inside : Bool) → String → Bool
is_dotted inside String.[] = inside
is_dotted inside (String.◌∷◌ c s) =
    let word = is_dotted true s in
    let next = is_dotted false s in
    if is_word (code c) then word else (code c == b'.' && (inside && next))

-- `s[:n]`
abbrev pub take_chars : ℕ → String → String
take_chars zero s = String.[]
take_chars (suc n) String.[] = String.[]
take_chars (suc n) (String.◌∷◌ c s) = String.◌∷◌ c (take_chars n s)

abbrev pub without_suffix : String → String
without_suffix s = if ends_with s ".json" then take_chars (chars s - 5) s else s

-- `LEGACY_JOIN_TASK_ALIASES.get(identifier, identifier)`
abbrev pub canonical : String → String
canonical identifier =
    if str_eq identifier "task_compare_dbs_on_single_host.json"
    then "optimize-db-config"
    else identifier

abbrev pub id_if : Bool → String → Result String
id_if true s = ok s
id_if false s = err Exc.external

-- `ValueError` is an `external` exception.
unfoldable pub normalize_join_task_id : String → Result String
normalize_join_task_id identifier =
    let value = without_suffix (canonical identifier) in id_if (is_kebab false value) value

-- The errors of a task.
pub data TaskFlaw : Type 0 where
  no_task schema_version bad_id other_id : TaskFlaw
  blank dimensions : (field : String) → TaskFlaw
  bad_items repeated_items : TaskFlaw

abbrev pub task_flaw_if : Bool → TaskFlaw → List TaskFlaw
task_flaw_if true f = f ∷ []
task_flaw_if false f = []

abbrev pub task_id_flaws : Option String → Value → List TaskFlaw
task_id_flaws expected (Value.text s) =
    if is_kebab false s
    then (elim expected [ none ↦ [] | some e ↦ task_flaw_if (not (str_eq s e)) TaskFlaw.other_id ])
    else TaskFlaw.bad_id ∷ []
task_id_flaws expected _ = TaskFlaw.bad_id ∷ []

-- A list that is not empty, of texts that are not blank.
abbrev pub is_dimensions : Value → Bool
is_dimensions (Value.array Items.empty) = false
is_dimensions (Value.array (Items.entry x xs)) = all (λ v. not (is_blank_text v)) (x ∷ to_list xs)
is_dimensions _ = false

abbrev pub is_dotted_text : Value → Bool
is_dotted_text (Value.text s) = is_dotted false s
is_dotted_text _ = false

abbrev pub listed_flaws : (dotted repeated : Bool) → List TaskFlaw
listed_flaws false repeated = TaskFlaw.bad_items ∷ []
listed_flaws true repeated = task_flaw_if repeated TaskFlaw.repeated_items

unfoldable pub item_flaws : Value → List TaskFlaw
item_flaws (Value.array Items.empty) = TaskFlaw.bad_items ∷ []
item_flaws (Value.array (Items.entry x xs)) =
    listed_flaws (all is_dotted_text (x ∷ to_list xs)) (has_duplicates (x ∷ to_list xs))
item_flaws _ = TaskFlaw.bad_items ∷ []

unfoldable pub joined_flaws : List (List TaskFlaw) → List TaskFlaw
joined_flaws [] = []
joined_flaws (fs ∷ rest) = fs ++ joined_flaws rest

unfoldable pub validate_join_task : Option String → Value → List TaskFlaw
validate_join_task expected (Value.object task) = joined_flaws (
    task_flaw_if (not (is_text "pg_perf_bench/join-task-v1" (get "schema_version" task)))
      TaskFlaw.schema_version
    ∷ task_id_flaws expected (get "id" task)
    ∷ task_flaw_if (is_blank_text (get "title" task)) (TaskFlaw.blank "title")
    ∷ task_flaw_if (is_blank_text (get "purpose" task)) (TaskFlaw.blank "purpose")
    ∷ task_flaw_if (not (is_dimensions (get "controlled_dimensions" task)))
        (TaskFlaw.dimensions "controlled_dimensions")
    ∷ task_flaw_if (not (is_dimensions (get "variable_dimensions" task)))
        (TaskFlaw.dimensions "variable_dimensions")
    ∷ item_flaws (get "items" task)
    ∷ [])
validate_join_task expected _ = TaskFlaw.no_task ∷ []

abbrev pub accept_task : Value → List TaskFlaw → Result Value
accept_task task [] = ok task
accept_task task (_ ∷ _) = err Exc.external

-- `read` is the parsed `task.json` of an id, with an exception where there is none.
unfoldable pub load_join_task : (read : String → Result Value) → String → Result Value
load_join_task read identifier = do
  id ← normalize_join_task_id identifier
  task ← read id
  accept_task task (validate_join_task (some id) task)
