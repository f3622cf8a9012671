-- ===== src/Config/Initialization.antt =====
-- How a benchmark initializes its database: the profile's plan, the mode and the reset
-- (src/pg_perf_bench/config.py, `build_runtime_config`).
use pg_perf_bench.Prelude.{
  Bool, true, false, not, ◌&&◌, ◌||◌, String, Option, none, some, if◌then◌else◌,
}
use pg_perf_bench.Effects.{Exc, Result, ok, err}
use pg_perf_bench.Fallible.{◌>>=◌, ◌>>◌, reject}
use pg_perf_bench.Json.{Value, Fields, get, get_or, is_text, is_truthy, or_else}
use pg_perf_bench.Config.Checks.{Outside, required, to_text}
use pg_perf_bench.Config.Workload.{item, optional_item, path_text}

-- `isinstance(value, str)`
abbrev pub is_string : Value → Bool
is_string (Value.text s) = true
is_string _ = false

-- An `initialization` that is not empty has to be an object of the known version with an entrypoint.
abbrev pub is_plan : Value → Bool
is_plan (Value.object plan) =
    is_text "pg_perf_bench/load-plan-v1" (get "schema_version" plan)
    && is_string (get "entrypoint" plan)
is_plan _ = false

-- `(loader_profile or {}).get('initialization') or {}`, after the test that the profile is an object.
unfoldable pub plan_of : Value → Result Value
unfolding get_or
plan_of Value.null = ok (Value.object Fields.end)
plan_of (Value.object profile) = do
  let plan = or_else (get "initialization" profile) (Value.object Fields.end)
  reject (is_truthy plan && not (is_plan plan))
  ok plan
plan_of _ = err Exc.configuration

abbrev pub init_fsync : Fields → Value
init_fsync values = get_or (Value.text "off") "init_fsync" values

-- `init_mode`, after `auto` is resolved.
unfoldable pub init_mode_of : (plan : Value) → Fields → Value
unfolding get_or
init_mode_of plan values =
    let mode = get_or (Value.text "auto") "init_mode" values in
    if is_text "auto" mode
    then Value.text
        (if is_truthy plan && not (is_truthy (get "init_command" values)) then "fast" else "legacy")
    else mode

-- A reset of schemas needs a fast load that keeps fsync, unless nothing is initialized.
unfoldable pub check_reset : (reset mode policy : Value) → Fields → Result (Unit {0})
unfolding get_or
check_reset reset mode policy values = do
  reject (not (is_text "database" reset || is_text "schema" reset))
  let applies = is_text "schema" reset && not (is_text "skip" policy)
  reject (applies && not (is_text "fast" mode))
  reject (applies && not (is_text "keep" (init_fsync values)))
  reject (applies && is_truthy (get "pg_custom_config" values))
  reject (applies && is_truthy (get "drop_os_caches" values))

module _ (outside : Outside) where
  abbrev pub manifest_in : (directory : String) (there : Bool) → Result Value
  manifest_in directory false = ok Value.null
  manifest_in directory true = elim (outside.read_manifest directory) [
    | none ↦ err Exc.configuration
    | some v ↦ ok v
  ]

  -- The manifest beside a workload that is no bundled profile.
  abbrev pub manifest_of : Value → (given : Bool) → Result Value
  manifest_of path false = ok Value.null
  manifest_of path true = do
    text ← path_text path
    manifest_in (outside.expanduser text) (outside.manifest_is_file (outside.expanduser text))

  abbrev pub loader_profile : Option Value → Value → Result Value
  loader_profile (some profile) path = ok profile
  loader_profile none path = manifest_of path (is_truthy path)

  -- What `fast` needs: a plan, no command, an entrypoint inside the profile, and `keep` where the
  -- server is managed.
  unfoldable pub check_fast :
      (path plan policy : Value) (managed : Bool) → Fields → Result (Unit {0})
  unfolding item get_or
  check_fast path plan policy managed values = do
    reject (not (is_truthy plan))
    reject (is_truthy (get "init_command" values))
    directory ← path_text path
    raw ← item "entrypoint" plan
    entrypoint ← path_text raw
    reject (
        not (outside.entrypoint_is_file (outside.expanduser directory) entrypoint)
        || not (outside.entrypoint_is_inside (outside.expanduser directory) entrypoint))
    reject (not (is_text "skip" policy) && managed && is_text "off" (init_fsync values))

  abbrev pub check_fast_if :
      Bool → (path plan policy : Value) (managed : Bool) → Fields → Result (Unit {0})
  check_fast_if false path plan policy managed values = ok tt
  check_fast_if true path plan policy managed values = check_fast path plan policy managed values

  -- `profile['benchmark'].get(name)`
  unfoldable pub benchmark_option : String → Option Value → Result Value
  unfolding item optional_item
  benchmark_option name none = ok Value.null
  benchmark_option name (some profile) = do
    benchmark ← item "benchmark" profile
    optional_item name benchmark

  -- `values.get(name) or (… if profile is not None else None)`
  abbrev pub option_or : Bool → Value → Result Value → Result Value
  option_or true value default = ok value
  option_or false value default = default

  unfoldable pub init_command_of : Option Value → Fields → Result Value
  unfolding benchmark_option get_or
  init_command_of profile values =
      let given = get "init_command" values in
      option_or (is_truthy given) given (benchmark_option "init_command" profile)

  -- `profile['benchmark']['workload_command']`
  abbrev pub profile_command : Option Value → Result Value
  profile_command none = ok Value.null
  profile_command (some profile) = do
    benchmark ← item "benchmark" profile
    item "workload_command" benchmark

  unfoldable pub workload_command_of : Option Value → Fields → Result String
  unfolding item required get_or
  workload_command_of profile values = do
    let given = get "workload_command" values
    command ← option_or (is_truthy given) given (profile_command profile)
    value ← required command
    ok (to_text outside value)
