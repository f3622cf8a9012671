-- ===== src/Config/Protocol.antt =====
-- `pgbench_protocol` and `_pgbench_protocols` (src/pg_perf_bench/config.py). The tokens of `shlex` are a
-- parameter.
use pg_perf_bench.Prelude.{
  ℕ, suc, zero, Bool, true, false, not, ◌&&◌, ◌||◌, String, Option, none, some, List, [], ◌∷◌, ◌++◌,
  all, str_eq, elem, chars, starts_with, contains, replace, path_name, if◌then◌else◌,
}
use Prim.Native.Char.{code}
use pg_perf_bench.Prelude.{◌==◌}
use pg_perf_bench.Effects.{Exc, Result, ok, err}
use pg_perf_bench.Fallible.{◌>>=◌, ◌>>◌, reject}

-- Every character of the text is one of `;&|()` or a line feed.
abbrev pub is_operators : String → Bool
is_operators String.[] = true
is_operators (String.◌∷◌ c s) =
    (code c == b';'
      || code c == b'&'
      || code c == b'|'
      || code c == b'('
      || code c == b')'
      || code c == 10)
    && is_operators s

abbrev pub is_separator : String → Bool
is_separator s = not (str_eq s "") && is_operators s

-- The commands between the separators: the first, and the others.
abbrev pub segments : List String → List String × List (List String)
segments [] = ([], [])
segments (t ∷ ts) =
    let rest = segments ts in if is_separator t then ([], rest.0 ∷ rest.1) else (t ∷ rest.0, rest.1)

abbrev pub all_segments : List String → List (List String)
all_segments tokens = let found = segments tokens in found.0 ∷ found.1

-- The prefixes that are passed over: `env`, `exec` and assignments.
abbrev pub without_prefix : List String → List String
without_prefix [] = []
without_prefix (t ∷ ts) =
    let rest = without_prefix ts in
    if elem t ("env" ∷ "exec" ∷ []) || contains t "=" then rest else t ∷ ts

-- `token[n:]`
abbrev pub drop_chars : ℕ → String → String
drop_chars zero s = s
drop_chars (suc n) String.[] = String.[]
drop_chars (suc n) (String.◌∷◌ c s) = drop_chars n s

abbrev pub first_of : List String → Option String
first_of [] = none
first_of (t ∷ ts) = some t

-- `token.startswith('-') and not token.startswith('--') and 'c' in token[1:]`
unfoldable pub is_c_option : String → Bool
is_c_option t = starts_with t "-" && (not (starts_with t "--") && contains (drop_chars 1 t) "c")

-- The text that a shell is given with `-c`.
abbrev pub shell_script : List String → Option String
shell_script [] = none
shell_script (t ∷ ts) = let rest = shell_script ts in if is_c_option t then first_of ts else rest

abbrev pub text_or_empty : Option String → String
text_or_empty none = ""
text_or_empty (some s) = s

-- The protocol that the arguments of pgbench ask for; the last option counts.
abbrev pub requested : String → List String → String
requested protocol [] = protocol
requested protocol (t ∷ ts) =
    let next = text_or_empty (first_of ts) in
    let given = requested next ts in
    let assigned = requested (drop_chars 11 t) ts in
    let attached = requested (drop_chars 2 t) ts in
    let kept = requested protocol ts in
    if str_eq t "--"
    then protocol
    else (if elem t ("-M" ∷ "--protocol" ∷ [])
        then given
        else (if starts_with t "--protocol="
            then assigned
            else (if starts_with t "-M" then attached else kept)))

abbrev pub known_protocols : List String
known_protocols = "simple" ∷ "extended" ∷ "prepared" ∷ []

-- `hidden`: the protocol is a substitution of the shell; `known`: it is one of the three.
abbrev pub named_protocol : (hidden known : Bool) → String → Result (List String)
named_protocol true known protocol = ok ("unknown" ∷ [])
named_protocol false true protocol = ok (protocol ∷ [])
named_protocol false false protocol = err Exc.configuration

unfoldable pub option_protocols : String → Result (List String)
option_protocols protocol =
    named_protocol (contains protocol "$" || contains protocol "`") (elem protocol known_protocols)
      protocol

abbrev pub script_protocols :
    (inner : String → Result (List String)) → Option String → Result (List String)
script_protocols inner none = ok []
script_protocols inner (some script) = inner script

-- What a shell, pgbench or another executable contributes; `inner` is the recursive call.
abbrev pub executable_protocols :
    (inner : String → Result (List String)) (is_shell is_pgbench : Bool) (arguments : List String)
    → Result (List String)
executable_protocols inner true is_pgbench arguments =
    script_protocols inner (shell_script arguments)
executable_protocols inner false true arguments = option_protocols (requested "simple" arguments)
executable_protocols inner false false arguments = ok []

unfoldable pub command_protocols :
    (inner : String → Result (List String)) → List String → Result (List String)
unfolding option_protocols
command_protocols inner [] = ok []
command_protocols inner (t ∷ ts) =
    executable_protocols inner (elem (path_name t) ("sh" ∷ "bash" ∷ "dash" ∷ "ksh" ∷ "zsh" ∷ []))
      (elem (path_name t) ("pgbench" ∷ "ARG_PGBENCH_PATH" ∷ [])) ts

unfoldable pub line_protocols :
    (inner : String → Result (List String)) → List (List String) → Result (List String)
unfolding command_protocols
line_protocols inner [] = ok []
line_protocols inner (tokens ∷ rest) = do
  found ← command_protocols inner (without_prefix tokens)
  others ← line_protocols inner rest
  ok (found ++ others)

-- `protocols[0] if protocols else 'unknown'`, where all are the same.
abbrev pub common : List String → Result String
common [] = ok "unknown"
common (p ∷ ps) = if all (str_eq p) ps then ok p else err Exc.configuration

-- An opaque script may take the selected protocol as its own argument.
unfoldable pub resolved : (command selected first : String) → String
resolved command selected first =
    if str_eq first "unknown" && contains command "ARG_PGBENCH_PROTOCOL" then selected else first

module _ (lex : String → Result (List String)) where
  unfoldable pub protocols_within : (fuel : ℕ) → String → Result (List String)
  unfolding line_protocols
  protocols_within zero command = err Exc.stalled
  protocols_within (suc n) command = do
    tokens ← lex command
    line_protocols (protocols_within n) (all_segments tokens)

  -- `_pgbench_protocols`: the text of a nested shell is shorter than the command that holds it.
  unfoldable pub pgbench_protocols : String → Result (List String)
  unfolding protocols_within
  pgbench_protocols command = protocols_within (suc (chars command)) command

  unfoldable pub pgbench_protocol : (command : String) (prepared : Bool) → Result String
  unfolding pgbench_protocols resolved
  pgbench_protocol command prepared = do
    let selected = if prepared then "prepared" else "simple"
    found ← pgbench_protocols (replace "ARG_PGBENCH_PROTOCOL" selected command)
    first ← common found
    let protocol = resolved command selected first
    reject (prepared && not (str_eq protocol "prepared"))
    ok protocol
