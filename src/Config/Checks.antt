-- ===== src/Config/Checks.antt =====
-- The checks of single options (src/pg_perf_bench/config.py), and what they ask of the outside.
use pg_perf_bench.Prelude.{
  ℤ, Float, is_positive, is_finite, exceeds_zero, is_below_thousandths, Bool, true, false, not,
  ◌||◌, String, Option, none, some, List, [], ◌∷◌, str_eq, elem, contains, is_blank, strip,
  path_name, if◌then◌else◌,
}
use pg_perf_bench.Effects.{Exc, Result, ok, err}
use pg_perf_bench.Fallible.{◌>>=◌, ◌>>◌, reject}
use pg_perf_bench.Clients.{Outside as ClientHost}
use pg_perf_bench.Json.{Value, Fields, get, is_null}

-- What Python and the host answer: `int`, `float` and `str` of a value (`none` where they raise
-- `TypeError` or `ValueError`), paths, files, the agent's socket, the bundled profiles, a manifest that is
-- read and parsed (`none` where that fails), the installed clients and the tokens of `shlex`.
pub record Outside : Type 0 where
  pub read_int : Value → Option ℤ
  pub read_float : Value → Option Float
  pub str_of : Value → String
  pub expanduser : String → String
  pub exists : String → Bool
  pub is_file : String → Bool
  pub agent_socket : Option String
  pub is_socket : String → Option Bool
  pub managed_info_path : String → Result String
  pub profile_directory : String → String
  pub bundled : List String
  pub read_profile : String → Result Value
  pub manifest_is_file : (directory : String) → Bool
  pub read_manifest : (directory : String) → Option Value
  pub entrypoint_is_file : (directory entrypoint : String) → Bool
  pub entrypoint_is_inside : (directory entrypoint : String) → Bool
  pub clients : ClientHost
  pub lex : String → Result (List String)

abbrev pub parsed : {A : Type 0} → Option A → Result A
parsed none = err Exc.configuration
parsed (some a) = ok a

-- `_required`
abbrev pub is_missing : Value → Bool
is_missing Value.null = true
is_missing (Value.text s) = is_blank s
is_missing _ = false

unfoldable pub required : Value → Result Value
required value = do reject (is_missing value); ok value

abbrev pub is_unsafe_name : String → Bool
is_unsafe_name name =
    elem name ("." ∷ ".." ∷ []) || (not (str_eq (path_name name) name) || contains name "\0")

-- The name of a report, stripped.
unfoldable pub checked_name : String → Result (Option String)
checked_name name = do reject (str_eq name ""); reject (is_unsafe_name name); ok (some name)

module _ (outside : Outside) where
  -- `_positive_int`
  unfoldable pub positive_int : Value → Result ℤ
  positive_int value = do
    number ← parsed (outside.read_int value)
    reject (not (is_positive number))
    ok number

  -- `_positive_float`
  unfoldable pub positive_float : Value → Result Float
  positive_float value = do
    number ← parsed (outside.read_float value)
    reject (not (is_finite number) || not (exceeds_zero number))
    ok number

  -- `MIN_SYSTEM_METRICS_INTERVAL` is 5 seconds.
  unfoldable pub system_metrics_interval : Value → Result Float
  unfolding positive_float
  system_metrics_interval value = do
    number ← positive_float value
    reject (is_below_thousandths number 5000)
    ok number

  -- `str(value)`
  abbrev pub to_text : Value → String
  to_text (Value.text s) = s
  to_text value = outside.str_of value

  -- `_report_name`
  unfoldable pub report_name : Value → Result (Option String)
  unfolding checked_name
  report_name Value.null = ok none
  report_name value = checked_name (strip (to_text value))

  -- `resolve_ssh_agent_socket`
  abbrev pub socket_at : String → Option Bool → Result String
  socket_at path (some true) = ok path
  socket_at path _ = err Exc.configuration

  abbrev pub socket_of : Option String → Result String
  socket_of none = err Exc.configuration
  socket_of (some raw) =
      if str_eq raw ""
      then err Exc.configuration
      else socket_at (outside.expanduser raw) (outside.is_socket (outside.expanduser raw))

  unfoldable pub resolve_ssh_agent_socket : Result String
  resolve_ssh_agent_socket = socket_of outside.agent_socket

-- `reject_database_tunnel`
unfoldable pub reject_database_tunnel : Fields → Result (Unit {0})
reject_database_tunnel values =
    reject
      (not (is_null (get "remote_pg_host" values)) || not (is_null (get "remote_pg_port" values)))
