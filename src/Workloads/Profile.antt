-- ===== src/Workloads/Profile.antt =====
-- `_safe_relative_path`, `validate_workload_profile` and `load_workload_profile`
-- (src/pg_perf_bench/workloads.py). A message of the errors is a `Flaw`; `str` of a value that is no text,
-- the bundled names and the parsed file are parameters.
use pg_perf_bench.Prelude.{
  is_positive, Bool, true, false, not, ◌&&◌, ◌||◌, String, Option, none, some, List, [], ◌∷◌, ◌++◌,
  str_eq, elem, any, all, contains, is_absolute, path_parts, is_blank, if◌then◌else◌,
}
use pg_perf_bench.Effects.{Exc, Result, ok, err}
use pg_perf_bench.Dataset.{after}
use pg_perf_bench.Json.{Value, Items, Fields, get, has, is_text, is_truthy, to_list}
use pg_perf_bench.Json.Equality.{entry_eq}

pub data Flaw : Type 0 where
  no_profile schema_version bad_id other_id : Flaw
  blank : (field : String) → Flaw
  no_files : Flaw
  role : String → Flaw
  duplicated unsafe : Flaw
  no_object other_plan unlisted : Flaw
  no_benchmark : Flaw
  benchmark_field : String → Flaw
  duration : Flaw

abbrev pub flaw_if : Bool → Flaw → List Flaw
flaw_if true f = f ∷ []
flaw_if false f = []

-- The messages of the tests, in their order.
unfoldable pub flatten : List (List Flaw) → List Flaw
flatten [] = []
flatten (fs ∷ rest) = fs ++ flatten rest

-- `not isinstance(value, str) or not value.strip()`
abbrev pub is_blank_text : Value → Bool
is_blank_text (Value.text s) = is_blank s
is_blank_text _ = true

-- `isinstance(item, str) and item`
abbrev pub is_named : Value → Bool
is_named (Value.text s) = not (str_eq s "")
is_named _ = false

-- The test of one role, `none` where the entry passes.
abbrev pub is_role : Value → Bool
is_role (Value.array Items.empty) = false
is_role (Value.array (Items.entry x xs)) = all is_named (x ∷ to_list xs)
is_role _ = false

-- The members of the lists that `files` holds.
abbrev pub listed : Value → List Value
listed (Value.array items) = to_list items
listed _ = []

abbrev pub all_paths : Fields → List Value
all_paths Fields.end = []
all_paths (Fields.field k v rest) = listed v ++ all_paths rest

-- A list or a `dict` in a `set` raises `TypeError`.
abbrev pub is_hashable : Value → Bool
is_hashable (Value.array items) = false
is_hashable (Value.object fields) = false
is_hashable _ = true

unfoldable pub has_duplicates : List Value → Bool
unfolding entry_eq
has_duplicates [] = false
has_duplicates (v ∷ vs) = any (entry_eq v) vs || has_duplicates vs

-- `_safe_relative_path` returns.
abbrev pub is_safe_path : String → Bool
is_safe_path s =
    let parts = path_parts s in
    not (is_absolute s || elem ".." parts) && (elim parts [ [] ↦ false | p ∷ ps ↦ true ])

-- `value in container`, `none` for a `TypeError`.
unfoldable pub is_in : Value → Value → Option Bool
unfolding entry_eq has
is_in v (Value.array items) = some (any (entry_eq v) (to_list items))
is_in (Value.text s) (Value.text t) = some (contains t s)
is_in (Value.text s) (Value.object fields) = some (has s fields)
is_in (Value.array items) (Value.object fields) = none
is_in (Value.object items) (Value.object fields) = none
is_in v (Value.object fields) = some false
is_in v _ = none

abbrev pub id_flaws : Option String → Value → List Flaw
id_flaws expected (Value.text s) =
    if str_eq s ""
    then Flaw.bad_id ∷ []
    else (elim expected [ none ↦ [] | some e ↦ flaw_if (not (str_eq s e)) Flaw.other_id ])
id_flaws expected _ = Flaw.bad_id ∷ []

-- `isinstance(duration, bool) or not isinstance(duration, int) or duration <= 0` fails.
abbrev pub is_duration : Value → Bool
is_duration (Value.integer i) = is_positive i
is_duration _ = false

unfoldable pub benchmark_flaws : (initialization benchmark : Value) → List Flaw
benchmark_flaws initialization (Value.object benchmark) = flatten (
    (if is_truthy initialization
      then []
      else flaw_if (is_blank_text (get "init_command" benchmark))
          (Flaw.benchmark_field "init_command"))
    ∷ flaw_if (is_blank_text (get "workload_command" benchmark))
        (Flaw.benchmark_field "workload_command")
    ∷ flaw_if (not (is_duration (get "default_duration_seconds" benchmark))) Flaw.duration
    ∷ [])
benchmark_flaws initialization _ = Flaw.no_benchmark ∷ []

module _ (str_of : Value → String) where
  unfoldable pub unsafe_paths : List Value → List Flaw
  unsafe_paths [] = []
  unsafe_paths (v ∷ vs) = flaw_if (not (is_safe_path (str_of v))) Flaw.unsafe ++ unsafe_paths vs

  unfoldable pub files_flaws : Value → Result (List Flaw)
  unfolding unsafe_paths has_duplicates
  files_flaws (Value.object files) =
      let paths = all_paths files in
      if all is_hashable paths
      then ok (
          flatten (
            flaw_if (not (is_role (get "schema" files))) (Flaw.role "schema")
            ∷ flaw_if (not (is_role (get "generators" files))) (Flaw.role "generators")
            ∷ flaw_if (not (is_role (get "queries" files))) (Flaw.role "queries")
            ∷ flaw_if (has_duplicates paths) Flaw.duplicated
            ∷ unsafe_paths paths
            ∷ []))
      else err Exc.external
  files_flaws _ = ok (Flaw.no_files ∷ [])

  -- `files.get('generators', [])`, where `files` is an object.
  unfoldable pub entrypoint_flaws : Value → Value → List Flaw
  unfolding is_in
  entrypoint_flaws entrypoint (Value.object files) =
      let generators =
        if has "generators" files then get "generators" files else Value.array Items.empty in
      elim (is_in entrypoint generators) [
        | none ↦ Flaw.unlisted ∷ []
        | some found ↦ flaw_if (not found) Flaw.unlisted
      ]
  entrypoint_flaws entrypoint _ = []

  unfoldable pub initialization_flaws : Value → Value → List Flaw
  unfolding entrypoint_flaws
  initialization_flaws files Value.null = []
  initialization_flaws files (Value.object initialization) =
      if is_text "pg_perf_bench/load-plan-v1" (get "schema_version" initialization)
      then (if is_safe_path (str_of (get "entrypoint" initialization))
          then entrypoint_flaws (get "entrypoint" initialization) files
          else Flaw.unsafe ∷ [])
      else Flaw.other_plan ∷ []
  initialization_flaws files _ = Flaw.no_object ∷ []

  unfoldable pub profile_flaws : Option String → Fields → Result (List Flaw)
  unfolding files_flaws initialization_flaws benchmark_flaws
  profile_flaws expected profile = after (files_flaws (get "files" profile)) (λ of_files. ok (
      flatten (
        flaw_if (not (is_text "pg_perf_bench/workload-profile-v1" (get "schema_version" profile)))
          Flaw.schema_version
        ∷ id_flaws expected (get "id" profile)
        ∷ flaw_if (is_blank_text (get "title" profile)) (Flaw.blank "title")
        ∷ flaw_if (is_blank_text (get "description" profile)) (Flaw.blank "description")
        ∷ of_files
        ∷ initialization_flaws (get "files" profile) (get "initialization" profile)
        ∷ benchmark_flaws (get "initialization" profile) (get "benchmark" profile)
        ∷ [])))

  unfoldable pub validate_workload_profile : Option String → Value → Result (List Flaw)
  unfolding profile_flaws
  validate_workload_profile expected (Value.object profile) = profile_flaws expected profile
  validate_workload_profile expected _ = ok (Flaw.no_profile ∷ [])

  -- `ValueError` is an `external` exception here. `read` is the parsed `profile.json` of a name.
  unfoldable pub accept_profile : Value → List Flaw → Result Value
  accept_profile profile [] = ok profile
  accept_profile profile (_ ∷ _) = err Exc.external

  unfoldable pub load_workload_profile :
      (bundled : List String) (read : String → Result Value) → String → Result Value
  unfolding accept_profile validate_workload_profile
  load_workload_profile bundled read profile_id =
      if elem profile_id bundled
      then after (read profile_id) (λ profile.
        after (validate_workload_profile (some profile_id) profile) (accept_profile profile))
      else err Exc.external
