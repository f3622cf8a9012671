-- ===== src/Timeout/Scripts.antt =====
-- `script_arguments` and the arguments of `bounded_workload_command`
-- (src/pg_perf_bench/workload_timeout.py). `shlex.split`, `str.isdigit`, paths and files are parameters.
use Prim.Native.Char.{Char, code}
use pg_perf_bench.Prelude.{
  ℕ, zero, suc, ◌==◌, Bool, true, false, not, ◌&&◌, ◌||◌, String, Option, none, some, List, [], ◌∷◌,
  any, elem, str_eq, starts_with, joined, path_name, if◌then◌else◌,
}
use pg_perf_bench.Effects.{Exc, Result, ok, err}
use pg_perf_bench.Fallible.{◌>>=◌, ◌>>◌, reject}
use pg_perf_bench.Config.Protocol.{drop_chars}

pub record Shell : Type 0 where
  pub split : String → Result (List String)
  pub is_digits : String → Bool
  pub expanduser : String → String
  pub is_file : String → Bool

-- An entry of `scripts`.
pub record Script : Type 0 where
  pub index : ℕ
  pub source : String
  pub option : String
  pub weight : String

-- `value.rsplit('@', 1)`, where there is an `@`.
abbrev pub split_last : Char → Option (String × String) → String → Option (String × String)
split_last c (some (front, back)) s = some (String.◌∷◌ c front, back)
split_last c none s = if code c == b'@' then some (String.[], s) else none

abbrev pub at_last : String → Option (String × String)
at_last String.[] = none
at_last (String.◌∷◌ c s) = split_last c (at_last s) s

-- What a token asks for.
pub data Use : Type 0 where
  builtin separate other : Use
  attached : (option value : String) → Use

unfoldable pub is_builtin : String → Bool
is_builtin t =
    elem t ("-b" ∷ "--builtin" ∷ [])
    || starts_with t "--builtin="
    || starts_with t "-b" && not (str_eq t "-b")

abbrev pub short_use : String → Use
short_use t =
    if starts_with t "-f" && not (str_eq t "-f")
    then Use.attached "-f" (drop_chars 2 t)
    else Use.other

abbrev pub attached_use : String → Use
attached_use t =
    if starts_with t "--file=" then Use.attached "--file=" (drop_chars 7 t) else short_use t

abbrev pub file_use : String → Use
file_use t = if elem t ("-f" ∷ "--file" ∷ []) then Use.separate else attached_use t

unfoldable pub use_of : String → Use
unfolding is_builtin
use_of t = if is_builtin t then Use.builtin else file_use t

abbrev pub compound_tokens : List String
compound_tokens = ";" ∷ "&&" ∷ "||" ∷ "|" ∷ ">" ∷ "<" ∷ "&" ∷ []

module _ (shell : Shell) where
  -- The path and the weight of a value.
  abbrev pub weighted_if : Bool → (value front back : String) → String × String
  weighted_if true value front back = (front, joined "@" back)
  weighted_if false value front back = (value, "")

  abbrev pub weighted_at : (value : String) → Option (String × String) → String × String
  weighted_at value none = (value, "")
  weighted_at value (some (front, back)) = weighted_if (shell.is_digits back) value front back

  abbrev pub weighted : String → String × String
  weighted value = weighted_at value (at_last value)

  unfoldable pub script_at : ℕ → (option value : String) → Result Script
  script_at index option value = do
    let parts = weighted value
    reject (not (shell.is_file (shell.expanduser parts.0)))
    ok (record {
      index = index;
      source = shell.expanduser parts.0;
      option = option;
      weight = parts.1;
    })

  unfoldable pub and_rest : Result Script → Result (List Script) → Result (List Script)
  and_rest script rest = do first ← script; others ← rest; ok (first ∷ others)

  -- `pending` are the rest with a value that is due, and `free` without.
  abbrev pub continue_with : Use → ℕ → (pending free : Result (List Script)) → Result (List Script)
  continue_with Use.builtin index pending free = err Exc.configuration
  continue_with Use.separate index pending free = pending
  continue_with Use.other index pending free = free
  continue_with (Use.attached option value) index pending free =
      and_rest (script_at index option value) free

  -- The `while` loop; `due` is whether the token is the value of `-f`.
  unfoldable pub scan_scripts : (due : Bool) → ℕ → List String → Result (List Script)
  unfolding and_rest
  scan_scripts true index [] = err Exc.configuration
  scan_scripts false index [] = ok []
  scan_scripts true index (value ∷ tokens) =
      and_rest (script_at index "" value) (scan_scripts false (suc index) tokens)
  scan_scripts false index (token ∷ tokens) =
      continue_with (use_of token) index (scan_scripts true (suc index) tokens)
        (scan_scripts false (suc index) tokens)

  abbrev pub some_scripts : List String → List Script → Result (List String × List Script)
  some_scripts args [] = err Exc.configuration
  some_scripts args (s ∷ ss) = ok (args, s ∷ ss)

  abbrev pub arguments_of : List String → Result (List String × List Script)
  arguments_of [] = err Exc.configuration
  arguments_of (program ∷ tokens) = do
    reject (not (starts_with (path_name program) "pgbench"))
    reject (any (λ t. elem t compound_tokens) (program ∷ tokens))
    scripts ← scan_scripts false 1 tokens
    some_scripts (program ∷ tokens) scripts

  unfoldable pub script_arguments : String → Result (List String × List Script)
  script_arguments command = do args ← shell.split command; arguments_of args

-- `args[index] = value`
abbrev pub put_at : ℕ → String → List String → List String
put_at index value [] = []
put_at zero value (t ∷ ts) = value ∷ ts
put_at (suc index) value (t ∷ ts) = t ∷ put_at index value ts

-- The loop of `bounded_workload_command` over the scripts; `target` is the path of the bounded copy of
-- a script, by its number.
unfoldable pub retarget :
    (target : ℕ → Script → String) → ℕ → List Script → List String → List String
retarget target number [] args = args
retarget target number (s ∷ ss) args =
    retarget target (suc number) ss
      (put_at s.index (joined s.option (joined (target number s) s.weight)) args)
