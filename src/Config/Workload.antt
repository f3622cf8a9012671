-- ===== src/Config/Workload.antt =====
-- What a benchmark runs: the load values, the profile, the type and the path of the workload
-- (src/pg_perf_bench/config.py, `build_runtime_config`).
use pg_perf_bench.Prelude.{
  ℤ, Bool, true, false, not, ◌&&◌, ◌||◌, String, Option, none, some, List, [], ◌∷◌, if◌then◌else◌,
  lower_in,
}
use pg_perf_bench.Effects.{Exc, Result, ok, err}
use pg_perf_bench.Database.{protected_databases}
use pg_perf_bench.Fallible.{◌>>=◌, ◌>>◌, reject}
use pg_perf_bench.Json.{Value, Fields, find, get, get_or, is_text, is_truthy, or_else, to_list}
use pg_perf_bench.Workloads.Profile.{load_workload_profile}
use pg_perf_bench.Config.Checks.{Outside, required, positive_int, to_text}

-- `init_policy not in ('each-iteration', 'once', 'skip')`
abbrev pub is_policy : Value → Bool
is_policy policy = is_text "each-iteration" policy || is_text "once" policy || is_text "skip" policy

-- The options that each policy of initialization excludes, and the permission to reset.
unfoldable pub check_policy : Value → Fields → Result (Unit {0})
check_policy policy values = do
  reject (not (is_policy policy))
  reject (is_text "skip" policy && is_truthy (get "pg_custom_config" values))
  reject (is_text "skip" policy && is_truthy (get "drop_os_caches" values))
  reject (is_text "skip" policy && is_truthy (get "init_command" values))
  reject (not (is_text "each-iteration" policy) && is_truthy (get "drop_os_caches" values))
  reject (not (is_text "skip" policy) && not (is_truthy (get "allow_database_reset" values)))

unfoldable pub check_target : (database : String) → Result (Unit {0})
check_target database = reject (lower_in database protected_databases)

abbrev pub letters : String → List Value
letters String.[] = []
letters (String.◌∷◌ c s) = Value.text (String.◌∷◌ c String.[]) ∷ letters s

abbrev pub keys : Fields → List Value
keys Fields.end = []
keys (Fields.field k v rest) = Value.text k ∷ keys rest

-- `for item in value`
abbrev pub elements : Value → Result (List Value)
elements (Value.array items) = ok (to_list items)
elements (Value.text s) = ok (letters s)
elements (Value.object fields) = ok (keys fields)
elements _ = err Exc.external

-- `value[name]`, with `KeyError` and `TypeError` as `external`.
unfoldable pub item : String → Value → Result Value
unfolding find
item name (Value.object fields) = elim (find name fields) [
  | none ↦ err Exc.external
  | some v ↦ ok v
]
item name _ = err Exc.external

-- `value.get(name)`, with `AttributeError` as `external`.
unfoldable pub optional_item : String → Value → Result Value
unfolding get_or
optional_item name (Value.object fields) = ok (get name fields)
optional_item name _ = err Exc.external

pub data WorkloadType : Type 0 where
  custom default : WorkloadType

abbrev pub is_custom : WorkloadType → Bool
is_custom WorkloadType.custom = true
is_custom WorkloadType.default = false

-- `WorkloadTypes(value)`
unfoldable pub workload_type_of : Value → Result WorkloadType
workload_type_of value =
    if is_text "custom" value
    then ok WorkloadType.custom
    else (if is_text "default" value then ok WorkloadType.default else err Exc.configuration)

-- The text of a path; `Path` of anything else raises `TypeError`.
abbrev pub path_text : Value → Result String
path_text (Value.text s) = ok s
path_text _ = err Exc.external

pub record Selection : Type 0 where
  pub profile : Option Value
  pub duration : Option ℤ
  pub benchmark_type : WorkloadType
  pub path : Value

abbrev pub is_given : {A : Type 0} → Option A → Bool
is_given none = false
is_given (some a) = true

module _ (outside : Outside) where
  unfoldable pub positive_ints : List Value → Result (List ℤ)
  unfolding positive_int
  positive_ints [] = ok []
  positive_ints (v ∷ vs) = do
    number ← positive_int outside v
    rest ← positive_ints vs
    ok (number ∷ rest)

  abbrev pub same_truth : Bool → Bool → Bool
  same_truth true b = b
  same_truth false b = not b

  -- Exactly one of the clients and the durations is given.
  unfoldable pub iterations_of : Fields → Result (List ℤ)
  unfolding positive_ints
  iterations_of values = do
    reject (
        same_truth (is_truthy (get "pgbench_clients" values))
          (is_truthy (get "pgbench_time" values)))
    raw ← elements (or_else (get "pgbench_clients" values) (get "pgbench_time" values))
    positive_ints raw

  -- `load_workload_profile(str(profile_id)) if profile_id else None`
  abbrev pub profile_if : (given : Bool) → String → Result (Option Value)
  profile_if false id = ok none
  profile_if true id = do
    profile ← load_workload_profile outside.str_of outside.bundled outside.read_profile id
    ok (some profile)

  unfoldable pub profile_of : Value → Result (Option Value)
  unfolding load_workload_profile
  profile_of id = profile_if (is_truthy id) (to_text outside id)

  -- `int(…)` of the profile's own number: its errors are not caught.
  abbrev pub uncaught : {A : Type 0} → Option A → Result A
  uncaught none = err Exc.external
  uncaught (some a) = ok a

  unfoldable pub default_duration : Option Value → Result (Option ℤ)
  unfolding item
  default_duration none = ok none
  default_duration (some profile) = do
    benchmark ← item "benchmark" profile
    raw ← item "default_duration_seconds" benchmark
    number ← uncaught (outside.read_int raw)
    ok (some number)

  unfoldable pub duration_of : Option Value → Value → Result (Option ℤ)
  unfolding default_duration positive_int
  duration_of profile Value.null = default_duration profile
  duration_of profile value = do number ← positive_int outside value; ok (some number)

  abbrev pub default_type : Option Value → Value
  default_type none = Value.null
  default_type (some profile) = Value.text "custom"

  abbrev pub path_of : Option Value → Fields → Value
  path_of none values = get "workload_path" values
  path_of (some profile) values =
      Value.text (outside.profile_directory (to_text outside (get "workload_profile" values)))

  -- A custom workload has a path that exists.
  abbrev pub check_path : WorkloadType → Value → Result (Unit {0})
  check_path WorkloadType.default path = ok tt
  check_path WorkloadType.custom path = do
    _ ← required path
    reject (not (outside.exists (outside.expanduser (to_text outside path))))

  unfoldable pub select_workload : Fields → Result Selection
  unfolding profile_of duration_of workload_type_of required
  select_workload values = do
    profile ← profile_of (get "workload_profile" values)
    reject (is_given profile && is_truthy (get "pgbench_time" values))
    reject (is_given profile && is_truthy (get "workload_path" values))
    duration ← duration_of profile (get "workload_duration_seconds" values)
    selected ← required (or_else (get "benchmark_type" values) (default_type profile))
    kind ← workload_type_of selected
    reject (is_given profile && not (is_custom kind))
    check_path kind (path_of profile values)
    ok (record {
      profile = profile;
      duration = duration;
      benchmark_type = kind;
      path = path_of profile values;
    })
